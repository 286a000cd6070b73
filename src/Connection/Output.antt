-- ===== src/Connection/Output.antt =====
-- What `handleWrite` of src/net/tcpConnection.cpp does with the output buffer.
use hc_tcp_im_server.Common.{
  ℕ, ◌≤◌, ◌≡◌, refl, ap, ◌∙◌, inl, inr, true, false, List, [], ◌∷◌, ◌++◌, arith, length, take, drop,
  length-drop, take-append-drop, append_assoc, ◌==◌, Bool-cases,
}
use hc_tcp_im_server.Buffer.{Buffer, readable_bytes, contents}
use hc_tcp_im_server.Buffer.Contents.{IsValid, length-contents, retrieve-IsValid, contents-retrieve}
use hc_tcp_im_server.Connection.{
  Connection, WriteAnswer, wrote, would_block, broken, write_failed, drain, write_loop,
  handle_write, write_done,
}

-- The output buffer is valid and within its limit.
pub record IsBounded (c : Connection) : Type 0 where
  pub valid : IsValid c.output
  pub within : readable_bytes c.output ≤ c.max_output_buffer_bytes

drain-lem :
    {c : Connection} (n : ℕ)
    → IsBounded c
    → (IsBounded (drain c n) × (contents (drain c n).output ≡ drop n (contents c.output)))
unfolding drain
drain-lem {c} n v =
    let e = contents-retrieve n v.valid in
    let ok = retrieve-IsValid n v.valid in
    (
      record {
        valid = ok;
        within = omega (
          arith,
          v.within,
          length-contents ok,
          length-contents v.valid,
          ap {B = ℕ} length e,
          length-drop n (contents c.output),
        );
      },
      e,
    )

write_loop-stop :
    (c : Connection) (a : WriteAnswer) (ws : List WriteAnswer)
    → (elim a [ wrote n ↦ false | _ ↦ true ]) ≡ true
    → write_loop c (a ∷ ws) ≡ (c, [])
unfolding write_loop
write_loop-stop c a ws h = ground arith

write_loop-lem :
    (ws : List WriteAnswer) {c : Connection}
    → IsBounded c
    → let r = write_loop c ws in (IsBounded r.0 × (r.1 ++ contents r.0.output ≡ contents c.output))
unfolding write_loop
write_loop-lem [] v = (v, refl)
write_loop-lem (wrote n ∷ ws) {c} v =
    let (dv, de) = drain-lem n v in
    let (rv, re) = write_loop-lem ws dv in
    elim (Bool-cases (readable_bytes c.output == 0)) [
      | inl t ↦ rw (t, write_loop) (v, refl)
      | inr t ↦ elim (Bool-cases (n == 0)) [
        | inl z ↦ rw (t, z, write_loop) (v, refl)
        | inr z ↦
            rw (t, z, write_loop)
              (
                rv,
                append_assoc (take n (contents c.output)) (write_loop (drain c n) ws).1
                      (contents (write_loop (drain c n) ws).0.output)
                    ∙ ap (λ (q : List ℕ). take n (contents c.output) ++ q) (re ∙ de)
                    ∙ take-append-drop n (contents c.output),
              )
      ]
    ]
write_loop-lem (would_block ∷ ws) {c} v = rw (write_loop-stop c would_block ws refl) (v, refl)
write_loop-lem (broken ∷ ws) {c} v = rw (write_loop-stop c broken ws refl) (v, refl)
write_loop-lem (write_failed ∷ ws) {c} v = rw (write_loop-stop c write_failed ws refl) (v, refl)

write_done-IsBounded :
    (c : Connection)
    → IsBounded c
    → (IsBounded (write_done c).0 × ((write_done c).0.output ≡ c.output))
unfolding write_done
write_done-IsBounded c v = (record { valid = v.valid; within = v.within }, refl)

module _ (c : Connection) (ws : List WriteAnswer) where
  handle_write-idle : c.writing ≡ false → handle_write c ws ≡ (c, [], [])
  unfolding handle_write
  handle_write-idle t = ground arith

  handle_write-done :
      c.writing ≡ true
      → (readable_bytes (write_loop c ws).0.output == 0) ≡ true
      → let r = write_loop c ws in handle_write c ws ≡ ((write_done r.0).0, r.1, (write_done r.0).1)
  unfolding handle_write
  handle_write-done t z = ground arith

  handle_write-more :
      c.writing ≡ true
      → (readable_bytes (write_loop c ws).0.output == 0) ≡ false
      → handle_write c ws ≡ ((write_loop c ws).0, (write_loop c ws).1, [])
  unfolding handle_write
  handle_write-more t z = ground arith

-- `handleWrite`, whatever the socket answers: the bytes that it took, with what stays in the output
-- buffer behind them, are what the buffer held, so that none is lost, sent twice or out of order; and
-- the buffer stays valid and within its limit.
pub handle_write_lem :
    (c : Connection) (ws : List WriteAnswer)
    → IsBounded c
    → let r = handle_write c ws in
      (IsBounded r.0 × (r.1 ++ contents r.0.output ≡ contents c.output))
handle_write_lem c ws v =
    let (rv, re) = write_loop-lem ws v in
    let (dv, de) = write_done-IsBounded (write_loop c ws).0 rv in
    elim (Bool-cases c.writing) [
      | inl t ↦ elim (Bool-cases (readable_bytes (write_loop c ws).0.output == 0)) [
        | inl z ↦
            rw (handle_write-done c ws t z)
              (dv, ap (λ (b : Buffer). (write_loop c ws).1 ++ contents b) de ∙ re)
        | inr z ↦ rw (handle_write-more c ws t z) (rv, re)
      ]
      | inr t ↦ rw (handle_write-idle c ws t) (v, refl)
    ]
