-- ===== src/Codec/Segments.antt =====
-- A connection of src/codec/codec.cpp from end to end: packets packed into an output buffer, sent in
-- segments of any size, and handed to `onMessage` segment by segment.
use hc_tcp_im_server.Common.{
  ℕ, ◌<◌, ◌≡◌, refl, sym, ap, ◌∙◌, inl, List, [], ◌∷◌, ◌++◌, map, arith, Option, none, some, length,
  All, append_assoc, append-nil, length-append,
}
use mathlib.Core.Path.{subst}
use mathlib.Core.List.{map-append}
use hc_tcp_im_server.Buffer.{Buffer, contents, append}
use hc_tcp_im_server.Buffer
use hc_tcp_im_server.Buffer.Contents.{IsValid, new-IsValid, append-IsValid, contents-append}
use hc_tcp_im_server.ByteOrder.{Inet}
use hc_tcp_im_server.Codec.{Codec, Event, new, after, on_message, pack}
use hc_tcp_im_server.Codec.Pack.{wire, length-wire, pack_lem}
use hc_tcp_im_server.Codec.Stream.{
  Message, IsGood, wire_all, event_of, Pending, IsShort, on_message-Handled,
}

-- The segments of a stream in order, with a call of `onMessage` after each.
pub feed : Inet → ℕ → ℕ → Codec → Buffer → List (List ℕ) → Option (Codec × Buffer × List Event)
feed net fuel conn c b [] = some (c, b, [])
feed net fuel conn c b (x ∷ xs) = elim (on_message net fuel conn c (append b x)) [
  | none ↦ none
  | some (c', b', es) ↦ after es (feed net fuel conn c' b' xs)
]

abbrev pub joined : List (List ℕ) → List ℕ
joined [] = []
joined (x ∷ xs) = x ++ joined xs

-- The packets in one output buffer.
pub pack_all : Inet → Buffer → List Message → Buffer
pack_all net b [] = b
pack_all net b ((h, m) ∷ ms) = pack_all net (pack net b h m) ms

pub pack_all_lem :
    (net : Inet) (ms : List Message) {b : Buffer}
    → IsValid b
    → All IsGood ms
    → contents (pack_all net b ms) ≡ contents b ++ wire_all ms
unfolding pack_all
pack_all_lem net [] {b} v g = sym (append-nil (contents b))
pack_all_lem net ((h, m) ∷ ms) {b} v g =
    let (v', e) = pack_lem net m v g.0.0 in
    pack_all_lem net ms v' g.1
    ∙ ap (λ (q : List ℕ). q ++ wire_all ms) e
    ∙ append_assoc (contents b) (wire h m) (wire_all ms)

All-left : {A : Type 0} (P : A → Type 0) (xs ys : List A) → All P (xs ++ ys) → All P ys
All-left P [] ys h = h
All-left P (x ∷ xs) ys h = All-left P xs ys h.1

-- The final state of a feed that delivers these messages.
abbrev pub Delivers : ℕ → Option (Codec × Buffer × List Event) → List Message → Type 0
Delivers conn r msgs =
    (c : Codec) × (b : Buffer) × (r ≡ some (c, b, map (event_of conn) msgs)) × (contents b ≡ [])

module _ (net : Inet) (fuel conn : ℕ) where
  nothing_left :
      (q : List ℕ) (ms : List Message) → IsShort q ms → q ++ [] ≡ wire_all ms → (ms ≡ []) × (q ≡ [])
  nothing_left q [] s e = (refl, sym (append-nil q) ∙ e)
  nothing_left q ((h, m) ∷ ms) s e = absurd (
      omega (
        arith,
        ap {B = ℕ} length (append-nil q),
        ap {B = ℕ} length e,
        length-append (wire h m) (wire_all ms),
      ))

  feed_step :
      (c c' : Codec) (b b' : Buffer) (x : List ℕ) (xs : List (List ℕ)) (es : List Event)
      → on_message net fuel conn c (append b x) ≡ some (c', b', es)
      → feed net fuel conn c b (x ∷ xs) ≡ after es (feed net fuel conn c' b' xs)
  unfolding feed
  feed_step c c' b b' x xs es e = rw (e, feed)

  feed-Pending :
      (xs : List (List ℕ)) (c : Codec) {b : Buffer} (msgs : List Message)
      → length msgs < fuel
      → All IsGood msgs
      → IsValid b
      → Pending c msgs
      → IsShort (contents b) msgs
      → contents b ++ joined xs ≡ wire_all msgs
      → Delivers conn (feed net fuel conn c b xs) msgs
  unfolding feed
  feed-Pending [] c {b} msgs f g v p s e =
      let (none_left, nothing) = nothing_left (contents b) msgs s e in
      (
        c,
        b,
        ap (λ (ms : List Message). some (c, b, map (event_of conn) ms)) (sym none_left),
        nothing,
      )
  feed-Pending (x ∷ xs) c {b} msgs f g v p s e =
      let e' : contents (append b x) ++ joined xs ≡ wire_all msgs =
        ap (λ (q : List ℕ). q ++ joined xs) (contents-append x v)
        ∙ append_assoc (contents b) x (joined xs)
        ∙ e in
      let r = on_message-Handled net conn msgs fuel c (joined xs) f g (append-IsValid x v) p e' in
      let (c', b', result, empty) =
        feed-Pending xs r.codec r.left
          (omega (arith, ap {B = ℕ} length r.split, length-append r.out r.left))
          (All-left IsGood r.out r.left (subst (All IsGood) r.split g)) r.valid r.pending r.short
          r.stream in
      (
        c',
        b',
        feed_step c r.codec b r.buffer x xs (map (event_of conn) r.out) r.result
            ∙ ap (after (map (event_of conn) r.out)) result
            ∙ ap (λ (es : List Event). some (c', b', es))
                (sym (map-append (event_of conn) r.out r.left)
                  ∙ ap (map (event_of conn)) (sym r.split)),
        empty,
      )

contents-new : contents Buffer.new ≡ []
unfolding Buffer.new
contents-new = refl

new-Pending : (ms : List Message) → Pending new ms
new-Pending [] = refl
new-Pending (x ∷ ms) = inl refl

new-IsShort : (ms : List Message) → IsShort (contents Buffer.new) ms
unfolding Buffer.new
new-IsShort [] = tt
new-IsShort ((h, m) ∷ ms) = omega (arith, length-wire h m)

-- A list of packets that `pack` can send and the parser accepts, packed one behind the other into a
-- new buffer, and cut into segments at any places: with more fuel than packets, calling `onMessage`
-- on a new parser after each segment delivers exactly these packets, in order, with no error, and
-- leaves no byte behind.
pub feed-pack_all :
    (net : Inet) (fuel conn : ℕ) (msgs : List Message) (segments : List (List ℕ))
    → All IsGood msgs
    → length msgs < fuel
    → joined segments ≡ contents (pack_all net Buffer.new msgs)
    → Delivers conn (feed net fuel conn new Buffer.new segments) msgs
feed-pack_all net fuel conn msgs segments g f e =
    feed-Pending net fuel conn segments new msgs f g new-IsValid (new-Pending msgs)
      (new-IsShort msgs)
      (rw contents-new (e ∙ pack_all_lem net msgs new-IsValid g ∙ rw contents-new))
