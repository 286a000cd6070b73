-- ===== src/Overload/Tests.antt =====
-- Concrete runs of the limits of src/service/overloadProtectService.cpp.
use hc_tcp_im_server.Common.{
  ℕ, ◌+◌, ◌-◌, ◌*◌, ◌/◌, ◌≡◌, refl, true, false, [], ◌∷◌, arith, ltb, leb,
}
use hc_tcp_im_server.Overload.{
  Double, new_limiter, max_of, refill, allow, new, on_connection_closed, can_accept_connection,
  has_room,
}
use hc_tcp_im_server.Overload.Limits.{run, run-IsBounded}

pub ltb-asym : (a b : ℕ) → ltb b a ≡ true → ltb a b ≡ false
ltb-asym a b e = ground (arith, e)

pub ltb-sub : (a b : ℕ) → ltb b a ≡ false → ltb b (a - 1) ≡ false
ltb-sub a b e = ground (arith, e)

-- Whole numbers that stop at 0 satisfy the laws.
abbrev pub whole : Double
whole = record {
  Number = ℕ;
  zero = 0;
  one = 1;
  thousand = 1000;
  from_ms = λ n. n;
  add = ◌+◌;
  sub = ◌-◌;
  mul = ◌*◌;
  div = ◌/◌;
  less = ltb;
  at_most = leb;
  less-asym = ltb-asym;
  less-sub = ltb-sub;
}

run-IsBounded_example :
    let l = run whole (new_limiter whole 2000 3 100) (100 ∷ 100 ∷ 100 ∷ 100 ∷ 102 ∷ []) in
    (ltb l.burst l.tokens ≡ false) × (l.burst ≡ max_of whole 1 3)
run-IsBounded_example = run-IsBounded whole 2000 3 100 (100 ∷ 100 ∷ 100 ∷ 100 ∷ 102 ∷ [])

-- The fourth request of the same moment is refused.
three_allowed :
    (allow whole (run whole (new_limiter whole 2000 3 100) (100 ∷ 100 ∷ 100 ∷ [])) 100).1 ≡ false
unfolding run new_limiter allow refill
three_allowed = refl

-- A connection that was never counted is closed, and there is no more room.
no_room :
    (can_accept_connection whole (on_connection_closed whole (new whole 10 10 0)) "" 5).1 ≡ false
unfolding can_accept_connection on_connection_closed new has_room
no_room = refl
