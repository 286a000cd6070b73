-- ===== src/Connection/Send.antt =====
-- What `sendInLoop` of src/net/tcpConnection.cpp does with the bytes to send.
use mathlib.Core.Path.{subst}
use hc_tcp_im_server.Common.{
  ℕ, ◌+◌, ◌<◌, ◌≡◌, refl, sym, ap, ◌∙◌, inl, inr, ◌⊎◌, Bool, true, false, not, List, [], ◌∷◌, ◌++◌,
  arith, ◌||◌, length, take, drop, length-append, length-drop, take-append-drop, append-nil, ltb,
  ltb→lt, ◌==◌, Bool-cases,
}
use hc_tcp_im_server.Buffer.{readable_bytes, contents, append}
use hc_tcp_im_server.Buffer.Contents.{IsValid, length-contents, append-IsValid, contents-append}
use hc_tcp_im_server.Connection.{
  Connection, Event, WriteAnswer, wrote, would_block, broken, write_failed, keep_rest, send_in_loop,
  disconnected,
}
use hc_tcp_im_server.Connection.Output.{IsBounded}

-- The output buffer had no room for the rest, which is dropped.
abbrev pub IsOverfull : Connection → List ℕ → Connection → Type 0
IsOverfull c xs c' =
    (c.max_output_buffer_bytes < readable_bytes c.output + length xs) × (c'.back_pressured ≡ true)

append-empty : (ys xs : List ℕ) → (length xs == 0) ≡ true → ys ≡ ys ++ xs
append-empty ys [] h = sym (append-nil ys)
append-empty ys (x ∷ xs) h = ground arith

no_bytes : (ys : List ℕ) → length ys ≡ 0 → ys ≡ []
no_bytes [] h = refl
no_bytes (y ∷ ys) h = ground (arith, h)

module _ (c : Connection) (xs : List ℕ) where
  keep_rest-none : (length xs == 0) ≡ true → keep_rest c xs ≡ (c, [])
  unfolding keep_rest
  keep_rest-none z = ground arith

  keep_rest-over :
      (length xs == 0) ≡ false
      → ltb c.max_output_buffer_bytes (readable_bytes c.output + length xs) ≡ true
      → keep_rest c xs ≡ (record c { back_pressured = true }, [])
  unfolding keep_rest
  keep_rest-over z t = ground arith

  keep_rest-room :
      (length xs == 0) ≡ false
      → ltb c.max_output_buffer_bytes (readable_bytes c.output + length xs) ≡ false
      → (((keep_rest c xs).0.output ≡ append c.output xs)
          × ((keep_rest c xs).0.max_output_buffer_bytes ≡ c.max_output_buffer_bytes))
  unfolding keep_rest
  keep_rest-room z t = ground arith

keep_rest-lem :
    {c : Connection} (xs : List ℕ)
    → IsBounded c
    → let c' = (keep_rest c xs).0 in
      (IsBounded c'
        × ((contents c'.output ≡ contents c.output ++ xs)
            ⊎ ((contents c'.output ≡ contents c.output) × IsOverfull c xs c')))
keep_rest-lem {c} xs v = elim (Bool-cases (length xs == 0)) [
  | inl z ↦ rw (keep_rest-none c xs z) (v, inl (append-empty (contents c.output) xs z))
  | inr z ↦
      elim (Bool-cases (ltb c.max_output_buffer_bytes (readable_bytes c.output + length xs))) [
        | inl t ↦ rw (keep_rest-over c xs z t) (
          record { valid = v.valid; within = v.within },
          inr (
            refl,
            (ltb→lt c.max_output_buffer_bytes (readable_bytes c.output + length xs) t, refl),
          ),
        )
        | inr t ↦
            let ok = append-IsValid xs v.valid in
            let e = contents-append xs v.valid in
            let (out, top) = keep_rest-room c xs z t in
            (
              record {
                valid = subst IsValid (sym out) ok;
                within =
                    rw (out, top)
                      (ground (
                        arith,
                        length-contents ok,
                        length-contents v.valid,
                        ap {B = ℕ} length e,
                        length-append (contents c.output) xs,
                      ));
              },
              inl (ap contents out ∙ e),
            )
      ]
]

abbrev is_off : Connection → Bool
is_off c = elim c.state [ disconnected ↦ true | _ ↦ false ]

abbrev is_busy : Connection → Bool
is_busy c = c.writing || not (readable_bytes c.output == 0)

is_off-disconnected : (c : Connection) → is_off c ≡ true → c.state ≡ disconnected
is_off-disconnected c h = ground arith

module _ (c : Connection) (a : WriteAnswer) (xs : List ℕ) where
  send-off : is_off c ≡ true → send_in_loop c a xs ≡ (c, [], [])
  unfolding send_in_loop
  send-off h = ground arith

  abbrev put_off : Connection × List ℕ × List Event
  put_off = ((keep_rest c xs).0, [], (keep_rest c xs).1)

  send-busy : is_off c ≡ false → is_busy c ≡ true → send_in_loop c a xs ≡ put_off
  unfolding send_in_loop
  send-busy h b = ground arith

  send-retry :
      is_off c ≡ false
      → is_busy c ≡ false
      → (elim a [ would_block ↦ true | write_failed ↦ true | _ ↦ false ]) ≡ true
      → send_in_loop c a xs ≡ put_off
  unfolding send_in_loop
  send-retry h b w = ground arith

module _ (c : Connection) (xs : List ℕ) where
  send-broken : is_off c ≡ false → is_busy c ≡ false → send_in_loop c broken xs ≡ (c, [], [])
  unfolding send_in_loop
  send-broken h b = ground arith

  send-wrote :
      (n : ℕ)
      → is_off c ≡ false
      → is_busy c ≡ false
      → let r = send_in_loop c (wrote n) xs in
        ((r.0 ≡ (keep_rest c (drop n xs)).0) × (r.1 ≡ take n xs))
  unfolding send_in_loop
  send-wrote n h b = ground (arith, keep_rest-none c (drop n xs))

-- The outcome of `sendInLoop`: all of the new bytes are behind the old ones, or none are kept for a
-- reason.
abbrev pub IsSent : Connection → WriteAnswer → List ℕ → Connection × List ℕ × List Event → Type 0
IsSent c a xs r =
    IsBounded r.0
    × ((r.1 ++ contents r.0.output ≡ contents c.output ++ xs)
        ⊎ ((contents r.0.output ≡ contents c.output)
            × ((c.state ≡ disconnected) ⊎ (a ≡ broken) ⊎ IsOverfull c xs r.0)))

put_off-IsSent :
    (c : Connection) (a : WriteAnswer) (xs : List ℕ) → IsBounded c → IsSent c a xs (put_off c a xs)
put_off-IsSent c a xs v =
    let (kv, out) = keep_rest-lem xs v in
    elim out [ inl e ↦ (kv, inl e) | inr eo ↦ (kv, inr (eo.0, inr (inr eo.1))) ]

free-empty : (c : Connection) → IsBounded c → is_busy c ≡ false → contents c.output ≡ []
free-empty c v b = no_bytes (contents c.output) (ground (arith, length-contents v.valid, b))

wrote-IsSent :
    (c : Connection) (n : ℕ) (xs : List ℕ)
    → IsBounded c
    → is_busy c ≡ false
    → IsSent c
        (wrote n)
        xs
        ((keep_rest c (drop n xs)).0, take n xs, (send_in_loop c (wrote n) xs).2)
wrote-IsSent c n xs v b =
    let none_left = free-empty c v b in
    let (kv, out) = keep_rest-lem (drop n xs) v in
    elim out [
      | inl e ↦ (
        kv,
        inl (
            ap (λ (q : List ℕ). take n xs ++ q) (e ∙ ap (λ (q : List ℕ). q ++ drop n xs) none_left)
            ∙ take-append-drop n xs
            ∙ ap (λ (q : List ℕ). q ++ xs) (sym none_left)),
      )
      | inr (e, (f, o)) ↦ (kv, inr (e, inr (inr (omega (arith, f, length-drop n xs), o))))
    ]

answered :
    (c : Connection) (a : WriteAnswer) (xs : List ℕ)
    → IsBounded c
    → is_off c ≡ false
    → is_busy c ≡ false
    → IsSent c a xs (send_in_loop c a xs)
answered c (wrote n) xs v on free =
    let (e, e') = send-wrote c xs n on free in rw (e, e') (wrote-IsSent c n xs v free)
answered c would_block xs v on free =
    rw (send-retry c would_block xs on free refl) (put_off-IsSent c would_block xs v)
answered c broken xs v on free = rw (send-broken c xs on free) (v, inr (refl, inr (inl refl)))
answered c write_failed xs v on free =
    rw (send-retry c write_failed xs on free refl) (put_off-IsSent c write_failed xs v)

-- `sendInLoop`, whatever the socket answers: the output buffer stays valid and within its limit; and
-- either the bytes that the socket took, with the output buffer behind them, are what was to be sent
-- before and the new bytes, in order; or the output buffer is as before, and the connection was
-- disconnected, or broken, or the buffer had no room for the new bytes behind its own.
pub send_in_loop_lem :
    (c : Connection) (a : WriteAnswer) (xs : List ℕ)
    → IsBounded c
    → IsSent c a xs (send_in_loop c a xs)
send_in_loop_lem c a xs v = elim (Bool-cases (is_off c)) [
  | inl off ↦ rw (send-off c a xs off) (v, inr (refl, inl (is_off-disconnected c off)))
  | inr on ↦ elim (Bool-cases (is_busy c)) [
    | inl busy ↦ rw (send-busy c a xs on busy) (put_off-IsSent c a xs v)
    | inr free ↦ answered c a xs v on free
  ]
]
