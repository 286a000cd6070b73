-- ===== src/MySql/Sessions.antt =====
-- src/storage/sessionRepository.cpp: `SessionRepository`, the table im_session.
use hc_tcp_im_server.Common.{ℕ, Bool, Option, none, some, List, [], ◌∷◌, String}
use hc_tcp_im_server.Common.Dict.{find, text_key}
use hc_tcp_im_server.Serializer.{◌>>=◌}
use hc_tcp_im_server.MySql.{Mysql, Client, Row, execute, query, escape}
use hc_tcp_im_server.MySql.Text.{stream, decimal, to_uint64, to_int64}
use hc_tcp_im_server.MySql.Messages.{Answer, done, refused, or_thrown}

-- `SessionRecord`
pub record SessionRecord : Type 0 where
  pub session_id : String
  pub user_id : String
  pub device_id : String
  pub server_node_id : String
  pub last_acked_seq : ℕ
  pub created_at_ms : ℕ
  pub expires_at_ms : ℕ

unfoldable pub build_session_record : Row → Option SessionRecord
build_session_record row = find "session_id" row >>= λ session_id. find "user_id" row >>= λ user_id.
    find "device_id" row >>= λ device_id. find "server_node_id" row >>= λ server_node_id.
    to_uint64 row "last_acked_seq" >>= λ last_acked_seq.
    to_int64 row "created_at_ms" >>= λ created_at_ms.
    to_int64 row "expires_at_ms" >>= λ expires_at_ms. some (record {
      session_id = session_id;
      user_id = user_id;
      device_id = device_id;
      server_node_id = server_node_id;
      last_acked_seq = last_acked_seq;
      created_at_ms = created_at_ms;
      expires_at_ms = expires_at_ms;
    })

module _ {H : Type 0} ⦃m : Mysql H⦄ where
  unfoldable pub create_session : Client H → SessionRecord → Client H × Bool
  create_session c r = execute c (
      stream (
        "INSERT INTO im_session "
        ∷ "(session_id, user_id, device_id, server_node_id, last_acked_seq, created_at_ms, expires_at_ms) VALUES ('"
        ∷ (escape c r.session_id).1
        ∷ "', '"
        ∷ (escape c r.user_id).1
        ∷ "', '"
        ∷ (escape c r.device_id).1
        ∷ "', '"
        ∷ (escape c r.server_node_id).1
        ∷ "', "
        ∷ decimal r.last_acked_seq
        ∷ ", "
        ∷ decimal r.created_at_ms
        ∷ ", "
        ∷ decimal r.expires_at_ms
        ∷ ") "
        ∷ "ON DUPLICATE KEY UPDATE "
        ∷ "user_id=VALUES(user_id), "
        ∷ "device_id=VALUES(device_id), "
        ∷ "server_node_id=VALUES(server_node_id), "
        ∷ "last_acked_seq=VALUES(last_acked_seq), "
        ∷ "created_at_ms=VALUES(created_at_ms), "
        ∷ "expires_at_ms=VALUES(expires_at_ms)"
        ∷ []))

  unfoldable pub delete_session : Client H → String → Client H × Bool
  delete_session c id =
      execute c (stream ("DELETE FROM im_session WHERE session_id='" ∷ (escape c id).1 ∷ "'" ∷ []))

  unfoldable pub first_session :
      Client H × Option (List Row) → Client H × Answer (Option SessionRecord)
  first_session (c, none) = (c, refused)
  first_session (c, some []) = (c, done none)
  first_session (c, some (row ∷ rows)) =
      (c, or_thrown (build_session_record row >>= λ r. some (some r)))

  unfoldable pub find_by_session_id : Client H → String → Client H × Answer (Option SessionRecord)
  find_by_session_id c id = first_session (
      query c (
        stream (
          "SELECT session_id, user_id, device_id, server_node_id, last_acked_seq, created_at_ms, expires_at_ms "
          ∷ "FROM im_session WHERE session_id='"
          ∷ (escape c id).1
          ∷ "' LIMIT 1"
          ∷ [])))

  unfoldable pub update_last_acked_seq : Client H → String → ℕ → Client H × Bool
  update_last_acked_seq c id seq = execute c (
      stream (
        "UPDATE im_session SET last_acked_seq=GREATEST(last_acked_seq, "
        ∷ decimal seq
        ∷ ") WHERE session_id='"
        ∷ (escape c id).1
        ∷ "'"
        ∷ []))

  unfoldable pub update_last_acked_seq_by_user : Client H → String → ℕ → Client H × Bool
  update_last_acked_seq_by_user c user seq = execute c (
      stream (
        "UPDATE im_session SET last_acked_seq=GREATEST(last_acked_seq, "
        ∷ decimal seq
        ∷ ") WHERE user_id='"
        ∷ (escape c user).1
        ∷ "'"
        ∷ []))
