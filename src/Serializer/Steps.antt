-- ===== src/Serializer/Steps.antt =====
-- Reading back one member at a time what src/codec/messageSerializer.cpp wrote.
use hc_tcp_im_server.Common.{◌≡◌, ap, ◌∙◌, Option, none, some, String}
use hc_tcp_im_server.Common.Dict.{Dict, find, text_key}
use hc_tcp_im_server.Serializer.{JsonLib, ◌>>=◌, get_at, get_value, get_or_keep}

pub step :
    {A B : Type 0} {o : Option A} (a : A) (f : A → Option B) {r : Option B}
    → o ≡ some a
    → f a ≡ r
    → (o >>= f) ≡ r
step a f e e' = ap (λ o. o >>= f) e ∙ e'

module _ (lib : JsonLib) {A : Type 0} (get : lib.Json → Option A) (d : Dict String lib.Json)
    (k : String) {v : lib.Json} {a : A} where
  pub at_object : find k d ≡ some v → get v ≡ some a → get_at lib get (lib.object d) k ≡ some a
  at_object e g = ap (λ o. o >>= get) (lib.member-object d k ∙ e) ∙ g

  pub value_object :
      (z : A) → find k d ≡ some v → get v ≡ some a → get_value lib get (lib.object d) k z ≡ some a
  value_object z e g = rw (lib.is_object-object d, lib.member-object d k, e) g

  pub keep_object :
      (z : A) → find k d ≡ some v → get v ≡ some a → get_or_keep lib get (lib.object d) k z ≡ some a
  keep_object z e g =
      ap (λ o. elim o [ none ↦ some z | some w ↦ get w ]) (lib.member-object d k ∙ e) ∙ g
