-- ===== src/Auth/Logins.antt =====
-- The second map of src/service/authService.cpp, from users to contexts, when a user logs in twice.
use hc_tcp_im_server.Common.{
  ℕ, ◌≡◌, ◌≢◌, refl, sym, ◌∙◌, inl, inr, true, false, none, some, String, arith, ◌==◌, ==_iff,
  Option-cases,
}
use hc_tcp_im_server.Common.Dict.{number_key, text_key, find-erase, same_refl}
use hc_tcp_im_server.Auth.{AuthService, validate_token, get_user_context, logout, get_user_by_id}
use hc_tcp_im_server.Auth.Sessions.{
  log_in, log_out, after, user_at, user_after, IsValid, after-IsValid,
}

==-false : (a b : ℕ) → a ≢ b → (a == b) ≡ false
==-false a b apart = ground (arith, ==_iff a b, apart)

get_user_by_id-logout :
    (s : AuthService) (fd : ℕ) (user : String)
    → user_at s fd ≡ some user
    → get_user_by_id (logout s fd).0 user ≡ none
unfolding logout get_user_by_id
get_user_by_id-logout s fd user h = elim (Option-cases (get_user_context s fd)) [
  | inl n ↦ ground (arith, n, h)
  | inr (c, n) ↦
      let who : c.user_id ≡ user = ground (arith, n, h) in
      rw
        (
          logout,
          n,
          get_user_by_id,
          find-erase c.user_id user s.user_to_context,
          who,
          same_refl user,
        )
        refl
]

-- In any valid state, a user logs in on one connection and then on another, both times with a valid
-- token, and the first connection logs out. Then the user cannot be found by id, though the second
-- connection is still the user's.
pub lost_user :
    (s : AuthService) (fd other : ℕ) (user token device session device2 session2 : String)
    (now later : ℕ)
    → IsValid s
    → validate_token user token ≡ true
    → fd ≢ other
    → let t =
        after
          (after
            (after s (log_in fd user token device session now))
            (log_in other user token device2 session2 later))
          (log_out fd) in
      (get_user_by_id t user ≡ none) × (user_at t other ≡ some user)
unfolding user_after
lost_user s fd other user token device session device2 session2 now later v ok apart =
    let c1 = log_in fd user token device session now in
    let c2 = log_in other user token device2 session2 later in
    let (v1, k1) = after-IsValid s c1 v in
    let (v2, k2) = after-IsValid (after s c1) c2 v1 in
    let (v3, k3) = after-IsValid (after (after s c1) c2) (log_out fd) v2 in
    let there : user_at (after (after s c1) c2) fd ≡ some user =
      k2 fd
      ∙ rw (ok, ==-false other fd (λ e. apart (sym e))) (k1 fd ∙ rw (ok, same_refl fd) refl) in
    (
      get_user_by_id-logout (after (after s c1) c2) fd user there,
      k3 other ∙ rw (==-false fd other apart) (k2 other ∙ rw (ok, same_refl other) refl),
    )
