-- ===== src/Auth.antt =====
-- src/service/authService.cpp, as built without USE_REDIS: who is logged in on which connection. The
-- contexts that both maps share are a store of objects with addresses. A connection's key is its
-- descriptor. The session id that `generateSessionId` draws, the clock and the lookup of the session
-- repository are arguments; calls that write to the repository are effects.
pub mod Sessions
pub mod Logins
mod Tests
use Prim.Native.String.{◌++◌ as str_append}
use hc_tcp_im_server.Common.{
  ℕ, suc, ◌+◌, ◌*◌, Bool, true, false, not, ◌&&◌, ◌||◌, Option, none, some, List, [], ◌∷◌, String,
  str_eq, if◌then◌else◌,
}
use hc_tcp_im_server.Common.Dict.{Key, Dict, find, put, erase, update, number_key, text_key}

pub record UserContext : Type 0 where
  pub user_id : String
  pub session_id : String
  pub device_id : String
  pub node_id : String
  pub login_time : ℕ
  pub authenticated : Bool

pub record AuthService : Type 0 where
  pub contexts : Dict ℕ UserContext
  pub next_address : ℕ
  pub conn_to_user : Dict ℕ ℕ
  pub user_to_context : Dict String ℕ
  pub node_id : String
  pub session_expire : ℕ
  pub has_repository : Bool

pub data Effect : Type 0 where
  create_session : (session user device : String) → (created expires : ℕ) → Effect
  delete_session : String → Effect

unfoldable pub new : AuthService
new = record {
  contexts = [];
  next_address = 0;
  conn_to_user = [];
  user_to_context = [];
  node_id = "single-node";
  session_expire = 86400;
  has_repository = false;
}

unfoldable pub set_node_id : AuthService → String → AuthService
set_node_id s node = record s { node_id = node }

unfoldable pub set_session_repository : AuthService → Bool → AuthService
set_session_repository s given = record s { has_repository = given }

unfoldable pub validate_token : String → String → Bool
validate_token user token =
    if str_eq user "" || str_eq token ""
    then false
    else str_eq token (str_append "valid_token_" user)

-- The first connection with a session, in the order of the map: the address of its context.
unfoldable pub find_session : Dict ℕ UserContext → String → Dict ℕ ℕ → Option ℕ
find_session contexts session [] = none
find_session contexts session ((fd, p) ∷ d) =
    let rest = find_session contexts session d in
    elim (find p contexts) [
      | none ↦ rest
      | some c ↦ if str_eq c.session_id session then some p else rest
    ]

unfoldable pub move : String → UserContext → UserContext
move node c = record c { node_id = node }

unfoldable pub bind_session_to_node : AuthService → String → String → AuthService × Bool
bind_session_to_node s session node = elim (find_session s.contexts session s.conn_to_user) [
  | none ↦ (s, false)
  | some p ↦ (record s { contexts = update p (move node) s.contexts }, true)
]

-- The context that `login` makes.
unfoldable pub login_context : AuthService → (user device session : String) → ℕ → UserContext
login_context s user device session now = record {
  user_id = user;
  session_id = session;
  device_id = device;
  node_id = s.node_id;
  login_time = now;
  authenticated = true;
}

unfoldable pub enter : AuthService → ℕ → String → UserContext → AuthService
enter s fd user c = record s {
  contexts = put s.next_address c s.contexts;
  next_address = suc s.next_address;
  conn_to_user = put fd s.next_address s.conn_to_user;
  user_to_context = put user s.next_address s.user_to_context;
}

-- The service, the session id that the callback gets or none for "Invalid token", and the effects.
unfoldable pub login :
    AuthService
    → ℕ
    → (user token device session : String) → ℕ
    → AuthService × Option String × List Effect
login s fd user token device session now =
    let c = login_context s user device session now in
    if not (validate_token user token) then (s, none, []) else (
      (bind_session_to_node (enter s fd user c) session s.node_id).0,
      some session,
      if s.has_repository
          then create_session session user device now (now + s.session_expire * 1000) ∷ []
          else [],
    )

-- The context of a connection, which `getUserContext` returns.
unfoldable pub get_user_context : AuthService → ℕ → Option UserContext
get_user_context s fd = elim (find fd s.conn_to_user) [ none ↦ none | some p ↦ find p s.contexts ]

unfoldable pub logout : AuthService → ℕ → AuthService × List Effect
logout s fd = elim (get_user_context s fd) [
  | none ↦ (s, [])
  | some c ↦ (
    record s {
      user_to_context = erase c.user_id s.user_to_context;
      conn_to_user = erase fd s.conn_to_user;
    },
    if s.has_repository then delete_session c.session_id ∷ [] else [],
  )
]

unfoldable pub is_authenticated : AuthService → ℕ → Bool
is_authenticated s fd = elim (get_user_context s fd) [ none ↦ false | some c ↦ c.authenticated ]

unfoldable pub get_user_by_id : AuthService → String → Option UserContext
get_user_by_id s user = elim (find user s.user_to_context) [
  | none ↦ none
  | some p ↦ find p s.contexts
]

-- `lookup` is `findBySessionId` of the repository, which gives the user.
unfoldable pub validate_session : AuthService → (String → Option String) → String → Option String
validate_session s lookup session =
    let found : Option String = if s.has_repository then lookup session else none in
    let local : Option String = elim (find_session s.contexts session s.conn_to_user) [
      | none ↦ none
      | some p ↦ elim (find p s.contexts) [ none ↦ none | some c ↦ some c.user_id ]
    ] in
    elim found [ some user ↦ some user | none ↦ local ]

-- The loop of `getSessionNode`, which passes over contexts without a node.
unfoldable pub find_session_node : Dict ℕ UserContext → String → Dict ℕ ℕ → Option String
find_session_node contexts session [] = none
find_session_node contexts session ((fd, p) ∷ d) =
    let rest = find_session_node contexts session d in
    elim (find p contexts) [
      | none ↦ rest
      | some c ↦
          if str_eq c.session_id session && not (str_eq c.node_id "") then some c.node_id else rest
    ]

unfoldable pub get_session_node : AuthService → String → Option String
get_session_node s session = find_session_node s.contexts session s.conn_to_user
