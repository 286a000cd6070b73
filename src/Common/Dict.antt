-- ===== src/Common/Dict.antt =====
-- `std::unordered_map` as an association list. The order of iteration is not specified by the
-- container; here it is the order of the list.
use Prim.Native.Nat.{ℕ}
use Prim.Native.String.{String}
use mathlib.Core.Path.{◌≡◌, refl}
use mathlib.Core.Logic.{◌↔◌, inl, inr}
use mathlib.Core.Bool.{Bool, true, false, not, ◌&&◌, ◌||◌}
use mathlib.Core.Option.{Option, none, some}
use mathlib.Core.List.{List, [], ◌∷◌}
use native.Mathlib.Omega.{arith}
use hc_tcp_im_server.Common.Tests.{◌==◌, ==_iff, str_eq, str_eq_iff, if◌then◌else◌, Option-cases}

-- Keys that can be compared.
pub record Key (K : Type 0) : Type 0 where
  pub same : K → K → Bool
  pub same_iff : (a b : K) → (same a b ≡ true) ↔ (a ≡ b)

instance abbrev pub number_key : Key ℕ
number_key = record { same = ◌==◌; same_iff = ==_iff }

instance abbrev pub text_key : Key String
text_key = record { same = str_eq; same_iff = str_eq_iff }

abbrev pub Dict : Type 0 → Type 0 → Type 0
Dict K V = List (K × V)

pub same_refl : {K : Type 0} ⦃e : Key K⦄ (k : K) → e.same k k ≡ true
same_refl ⦃e⦄ k = (e.same_iff k k).1 refl

module _ {K : Type 0} ⦃e : Key K⦄ {V : Type 0} where
  -- `find`
  unfoldable pub find : K → Dict K V → Option V
  find k [] = none
  find k ((j, v) ∷ m) = if e.same j k then some v else find k m

  -- `m[k] = v`
  unfoldable pub put : K → V → Dict K V → Dict K V
  put k v [] = (k, v) ∷ []
  put k v ((j, w) ∷ m) = if e.same j k then (j, v) ∷ m else (j, w) ∷ put k v m

  -- `erase(k)`: every entry of the key.
  unfoldable pub erase : K → Dict K V → Dict K V
  erase k [] = []
  erase k ((j, w) ∷ m) = let rest = erase k m in if e.same j k then rest else (j, w) ∷ rest

  -- `m[k]` read: the value, or a fresh default.
  abbrev pub get_or : K → Dict K V → V → V
  get_or k m d = elim (find k m) [ none ↦ d | some v ↦ v ]

  pub find-put :
      (k j : K) (v : V) (m : Dict K V)
      → find j (put k v m) ≡ (if e.same k j then some v else find j m)
  unfolding find put
  find-put k j v [] = refl
  find-put k j v ((i, w) ∷ m) =
      ground (arith, e.same_iff k j, e.same_iff i k, e.same_iff i j, find-put k j v m)

  pub find-erase :
      (k j : K) (m : Dict K V) → find j (erase k m) ≡ (if e.same k j then none else find j m)
  unfolding find erase
  find-erase k j [] = ground arith
  find-erase k j ((i, w) ∷ m) =
      ground (arith, e.same_iff k j, e.same_iff i k, e.same_iff i j, find-erase k j m)

  pub find-put_self : (k : K) (v : V) (m : Dict K V) → find k (put k v m) ≡ some v
  find-put_self k v m = ground (arith, find-put k k v m, same_refl k)

  -- Mutation of the value that `find` leads to; a missing key is left missing.
  unfoldable pub update : K → (V → V) → Dict K V → Dict K V
  update k f m = elim (find k m) [ none ↦ m | some v ↦ put k (f v) m ]

  pub find-update :
      (k j : K) (f : V → V) (m : Dict K V)
      → find j (update k f m)
        ≡ (if e.same k j then (elim (find j m) [ none ↦ none | some v ↦ some (f v) ]) else find j m)
  unfolding update
  find-update k j f m = elim (Option-cases (find k m)) [
    | inl n ↦ ground (arith, n, e.same_iff k j)
    | inr (v, n) ↦ ground (arith, n, e.same_iff k j, find-put k j (f v) m)
  ]

  -- Whether a key has a value.
  abbrev pub has : K → Dict K V → Bool
  has k m = elim (find k m) [ none ↦ false | some v ↦ true ]

  pub has-put : (k j : K) (v : V) (m : Dict K V) → has j (put k v m) ≡ (e.same k j || has j m)
  has-put k j v m = ground (arith, find-put k j v m)

  pub has-erase : (k j : K) (m : Dict K V) → has j (erase k m) ≡ (not (e.same k j) && has j m)
  has-erase k j m = ground (arith, find-erase k j m)

  pub has-update : (k j : K) (f : V → V) (m : Dict K V) → has j (update k f m) ≡ has j m
  has-update k j f m = ground (arith, find-update k j f m)
