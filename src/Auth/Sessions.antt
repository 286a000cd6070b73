-- ===== src/Auth/Sessions.antt =====
-- The table of users by connection that src/service/authService.cpp implements.
use hc_tcp_im_server.Common.{
  ℕ, ◌<◌, ◌≡◌, refl, sym, ◌∙◌, inl, inr, true, Option, none, some, List, [], ◌∷◌, String, arith,
  ◌==◌, ==_iff, if◌then◌else◌, Option-cases, Bool-cases,
}
use hc_tcp_im_server.Common.Dict.{
  find, number_key, text_key, find-put, find-put_self, find-erase, find-update,
}
use hc_tcp_im_server.Auth.{
  AuthService, UserContext, new, validate_token, find_session, move, bind_session_to_node,
  login_context, enter, login, get_user_context, logout,
}

pub data Call : Type 0 where
  log_in : (fd : ℕ) → (user token device session : String) → ℕ → Call
  log_out : ℕ → Call
  bind : (session node : String) → Call

abbrev pub after : AuthService → Call → AuthService
after s (log_in fd user token device session now) = (login s fd user token device session now).0
after s (log_out fd) = (logout s fd).0
after s (bind session node) = (bind_session_to_node s session node).0

unfoldable pub run : AuthService → List Call → AuthService
run s [] = s
run s (c ∷ cs) = run (after s c) cs

-- The user of a connection, if one is logged in there.
abbrev pub user_at : AuthService → ℕ → Option String
user_at s fd = elim (get_user_context s fd) [ none ↦ none | some c ↦ some c.user_id ]

-- What the calls mean: a login with a valid token sets the user of its connection, and a logout
-- removes it.
unfoldable pub user_after : (ℕ → Option String) → Call → ℕ → Option String
user_after u (log_in fd user token device session now) i =
    if validate_token user token then (if fd == i then some user else u i) else u i
user_after u (log_out fd) i = if fd == i then none else u i
user_after u (bind session node) i = u i

unfoldable pub users : (ℕ → Option String) → List Call → ℕ → Option String
users u [] = u
users u (c ∷ cs) = users (user_after u c) cs

-- Connections lead to contexts, below the next address, of users that are logged in.
pub record IsValid (s : AuthService) : Type 0 where
  pub below : (fd p : ℕ) → find fd s.conn_to_user ≡ some p → p < s.next_address
  pub context :
      (fd p : ℕ)
      → find fd s.conn_to_user ≡ some p
      → (c : UserContext) × (find p s.contexts ≡ some c) × (c.authenticated ≡ true)

bind-IsValid :
    (s : AuthService) (session node : String)
    → IsValid s
    → let t = (bind_session_to_node s session node).0 in
      IsValid t × ((fd : ℕ) → user_at t fd ≡ user_at s fd)
unfolding bind_session_to_node get_user_context move
bind-IsValid s session node v =
    elim (Option-cases (find_session s.contexts session s.conn_to_user)) [
      | inl e ↦ rw (e, bind_session_to_node) (v, λ fd. refl)
      | inr (q, e) ↦
          rw (e, bind_session_to_node)
            (
              record {
                below = v.below;
                context = λ fd p h.
                    let (c, there, sure) = v.context fd p h in
                    elim (Bool-cases (q == p)) [
                      | inl t ↦ (
                        move node c,
                        find-update q p (move node) s.contexts ∙ rw (t, there) refl,
                        sure,
                      )
                      | inr t ↦ (c, find-update q p (move node) s.contexts ∙ rw t there, sure)
                    ];
              },
              λ fd. elim (Option-cases (find fd s.conn_to_user)) [
                | inl n ↦ rw (user_at, n) refl
                | inr (p, n) ↦
                    let (c, there, sure) = v.context fd p n in
                    rw (user_at, n, find-update q p (move node) s.contexts, there)
                      elim (Bool-cases (q == p)) [ inl t ↦ rw t refl | inr t ↦ rw t refl ]
              ],
            )
    ]

-- An address below the next one still leads to what it did.
find-enter :
    (s : AuthService) (fd p : ℕ) (user : String) (c : UserContext)
    → p < s.next_address
    → find p (enter s fd user c).contexts ≡ find p s.contexts
unfolding enter
find-enter s fd p user c lt =
    ground (arith, find-put s.next_address p c s.contexts, lt, ==_iff s.next_address p)

enter-IsValid :
    (s : AuthService) (fd : ℕ) (user : String) (c : UserContext)
    → c.authenticated ≡ true
    → IsValid s
    → let t = enter s fd user c in
      IsValid t × ((i : ℕ) → user_at t i ≡ (if fd == i then some c.user_id else user_at s i))
unfolding enter get_user_context
enter-IsValid s fd user c sure v = (
  record {
    below = λ i p h. ground (arith, find-put fd i s.next_address s.conn_to_user, h, v.below i p);
    context = λ i p h. elim (Bool-cases (fd == i)) [
      | inl t ↦
          let at : p ≡ s.next_address =
            ground (arith, find-put fd i s.next_address s.conn_to_user, h, t) in
          (c, (rw at (find-put_self s.next_address c s.contexts)), sure)
      | inr t ↦
          let before = sym (find-put fd i s.next_address s.conn_to_user ∙ rw t refl) ∙ h in
          let (d, there, ok) = v.context i p before in
          (d, find-enter s fd p user c (v.below i p before) ∙ there, ok)
    ];
  },
  λ i. elim (Bool-cases (fd == i)) [
    | inl t ↦
        rw
          (
            user_at,
            find-put fd i s.next_address s.conn_to_user,
            t,
            find-put_self s.next_address c s.contexts,
          )
          refl
    | inr t ↦ elim (Option-cases (find i s.conn_to_user)) [
      | inl n ↦ rw (user_at, find-put fd i s.next_address s.conn_to_user, t, n) refl
      | inr (p, n) ↦
          rw
            (
              user_at,
              find-put fd i s.next_address s.conn_to_user,
              t,
              n,
              find-enter s fd p user c (v.below i p n),
            )
            refl
    ]
  ],
)

logout-IsValid :
    (s : AuthService) (fd : ℕ)
    → IsValid s
    → let t = (logout s fd).0 in
      IsValid t × ((i : ℕ) → user_at t i ≡ (if fd == i then none else user_at s i))
unfolding logout get_user_context
logout-IsValid s fd v = elim (Option-cases (find fd s.conn_to_user)) [
  | inl e ↦ rw (logout, get_user_context, e) (v, λ i. ground (arith, e, ==_iff fd i))
  | inr (p, e) ↦
      let (c, there, ok) = v.context fd p e in
      rw (logout, get_user_context, e, there)
        (
          record {
            below = λ i q h. ground (arith, find-erase fd i s.conn_to_user, h, v.below i q);
            context = λ i q h. v.context i q ground (arith, find-erase fd i s.conn_to_user, h);
          },
          λ i. elim (Bool-cases (fd == i)) [
            | inl t ↦ rw (user_at, find-erase fd i s.conn_to_user, t) refl
            | inr t ↦ rw (user_at, find-erase fd i s.conn_to_user, t) refl
          ],
        )
]

pub after-IsValid :
    (s : AuthService) (c : Call)
    → IsValid s
    → IsValid (after s c) × ((i : ℕ) → user_at (after s c) i ≡ user_after (user_at s) c i)
unfolding user_after login login_context
after-IsValid s (log_in fd user token device session now) v =
    elim (Bool-cases (validate_token user token)) [
      | inl e ↦
          let c = login_context s user device session now in
          let (w, k) = enter-IsValid s fd user c refl v in
          let (x, l) = bind-IsValid (enter s fd user c) session s.node_id w in
          rw (after, e) (x, λ i. l i ∙ k i)
      | inr e ↦ rw (after, e) (v, λ i. refl)
    ]
after-IsValid s (log_out fd) v = logout-IsValid s fd v
after-IsValid s (bind session node) v = bind-IsValid s session node v

user_after-same :
    (u w : ℕ → Option String) (c : Call)
    → ((i : ℕ) → u i ≡ w i)
    → (i : ℕ) → user_after u c i ≡ user_after w c i
unfolding user_after
user_after-same u w (log_in fd user token device session now) h i = rw (h i) refl
user_after-same u w (log_out fd) h i = rw (h i) refl
user_after-same u w (bind session node) h i = h i

run-IsValid :
    (s : AuthService) (u : ℕ → Option String) (cs : List Call)
    → IsValid s
    → ((i : ℕ) → user_at s i ≡ u i)
    → IsValid (run s cs) × ((i : ℕ) → user_at (run s cs) i ≡ users u cs i)
unfolding run users
run-IsValid s u [] v h = (v, h)
run-IsValid s u (c ∷ cs) v h =
    let (w, k) = after-IsValid s c v in
    run-IsValid (after s c) (user_after u c) cs w (λ i. k i ∙ user_after-same (user_at s) u c h i)

pub new-IsValid : IsValid new
unfolding new find
new-IsValid = record { below = λ fd p h. ground (arith, h); context = λ fd p h. ground (arith, h) }

-- The service keeps the table of users by connection: after any calls, whatever the session ids, the
-- user of a connection is the one of its last login with a valid token since its last logout.
pub run-users : (cs : List Call) (i : ℕ) → user_at (run new cs) i ≡ users (λ j. none) cs i
unfolding get_user_context find new
run-users cs i = (run-IsValid new (λ j. none) cs new-IsValid (λ j. refl)).1 i
