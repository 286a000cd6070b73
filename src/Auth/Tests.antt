-- ===== src/Auth/Tests.antt =====
-- Runs of src/service/authService.cpp at small inputs.
use hc_tcp_im_server.Common.{◌≡◌, refl, none, some, List, [], ◌∷◌, arith}
use hc_tcp_im_server.Common.Dict.{find, put, erase, update}
use hc_tcp_im_server.Auth.{
  new, validate_token, find_session, move, bind_session_to_node, login_context, enter, login,
  get_user_context, logout, get_user_by_id, validate_session, get_session_node, find_session_node,
}
use hc_tcp_im_server.Auth.Sessions.{
  Call, log_in, log_out, bind, after, run, user_at, users, new-IsValid, run-users,
}
use hc_tcp_im_server.Auth.Logins.{lost_user}

abbrev calls : List Call
calls =
    log_in 5 "ann" "valid_token_ann" "phone" "s1" 100
    ∷ log_in 6 "bob" "valid_token_ann" "pc" "s2" 101
    ∷ log_in 7 "ann" "valid_token_ann" "pc" "s3" 102
    ∷ bind "s3" "node-b"
    ∷ log_out 5
    ∷ []

ann_on_7 : user_at (run new calls) 7 ≡ some "ann"
unfolding run login validate_token bind_session_to_node find_session enter login_context logout
    get_user_context move new find put erase update
ann_on_7 = refl

node_of_s3 : get_session_node (run new calls) "s3" ≡ some "node-b"
unfolding run login validate_token bind_session_to_node find_session enter login_context logout
    get_user_context move get_session_node find_session_node new find put erase update
node_of_s3 = refl

session_of_ann : validate_session (run new calls) (λ t. none) "s3" ≡ some "ann"
unfolding run login validate_token bind_session_to_node find_session enter login_context logout
    get_user_context move validate_session new find put erase update
session_of_ann = refl

run-users_example : user_at (run new calls) 7 ≡ users (λ j. none) calls 7
run-users_example = run-users calls 7

lost_user_example :
    let t =
      after
        (after
          (after new (log_in 5 "ann" "valid_token_ann" "phone" "s1" 100))
          (log_in 7 "ann" "valid_token_ann" "pc" "s3" 102))
        (log_out 5) in
    (get_user_by_id t "ann" ≡ none) × (user_at t 7 ≡ some "ann")
unfolding validate_token
lost_user_example =
    lost_user new 5 7 "ann" "valid_token_ann" "phone" "s1" "pc" "s3" 100 102 new-IsValid refl
      (ground arith)
