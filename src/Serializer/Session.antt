-- ===== src/Serializer/Session.antt =====
-- The login, heartbeat and kick messages of src/codec/messageSerializer.cpp.
use hc_tcp_im_server.Common.{Option, some, [], ◌∷◌}
use hc_tcp_im_server.Protocol.Messages.{
  LoginReq, LoginResp, HeartbeatResp, KickUserReq, KickUserResp, HeartbeatReq,
}
use hc_tcp_im_server.Serializer.{JsonLib, ◌>>=◌, get_at, get_or_keep}

module _ (lib : JsonLib) where
  open lib use {number, text, object, dump, parse, get_text, get_uint32, get_uint64, get_int64}

  unfoldable pub serialize_login_req : LoginReq → lib.Bytes
  serialize_login_req m = dump (
      object (
        ("user_id", text m.user_id)
        ∷ ("token", text m.token)
        ∷ ("device_id", text m.device_id)
        ∷ []))

  unfoldable pub deserialize_login_req : lib.Bytes → LoginReq → Option LoginReq
  deserialize_login_req bytes before = do
    j ← parse bytes
    user_id ← get_at lib get_text j "user_id"
    token ← get_at lib get_text j "token"
    device_id ← get_or_keep lib get_text j "device_id" before.device_id
    some (record { user_id = user_id; token = token; device_id = device_id })

  unfoldable pub serialize_login_resp : LoginResp → lib.Bytes
  serialize_login_resp m = dump (
      object (
        ("result_code", number m.result_code)
        ∷ ("result_msg", text m.result_msg)
        ∷ ("session_id", text m.session_id)
        ∷ []))

  unfoldable pub deserialize_login_resp : lib.Bytes → LoginResp → Option LoginResp
  deserialize_login_resp bytes before = do
    j ← parse bytes
    result_code ← get_at lib get_uint32 j "result_code"
    result_msg ← get_at lib get_text j "result_msg"
    session_id ← get_or_keep lib get_text j "session_id" before.session_id
    some (record { result_code = result_code; result_msg = result_msg; session_id = session_id })

  unfoldable pub serialize_heartbeat_resp : HeartbeatResp → lib.Bytes
  serialize_heartbeat_resp m = dump (object (("server_time", number m.server_time) ∷ []))

  unfoldable pub deserialize_heartbeat_resp : lib.Bytes → Option HeartbeatResp
  deserialize_heartbeat_resp bytes = do
    j ← parse bytes
    server_time ← get_at lib get_int64 j "server_time"
    some (record { server_time = server_time })

  unfoldable pub serialize_kick_user_req : KickUserReq → lib.Bytes
  serialize_kick_user_req m =
      dump (object (("target_user_id", text m.target_user_id) ∷ ("reason", text m.reason) ∷ []))

  unfoldable pub deserialize_kick_user_req : lib.Bytes → Option KickUserReq
  deserialize_kick_user_req bytes = do
    j ← parse bytes
    target_user_id ← get_at lib get_text j "target_user_id"
    reason ← get_at lib get_text j "reason"
    some (record { target_user_id = target_user_id; reason = reason })

  unfoldable pub serialize_kick_user_resp : KickUserResp → lib.Bytes
  serialize_kick_user_resp m =
      dump (object (("result_code", number m.result_code) ∷ ("result_msg", text m.result_msg) ∷ []))

  unfoldable pub deserialize_kick_user_resp : lib.Bytes → Option KickUserResp
  deserialize_kick_user_resp bytes = do
    j ← parse bytes
    result_code ← get_at lib get_uint32 j "result_code"
    result_msg ← get_at lib get_text j "result_msg"
    some (record { result_code = result_code; result_msg = result_msg })

  unfoldable pub serialize_heartbeat_req : HeartbeatReq → lib.Bytes
  serialize_heartbeat_req m = lib.empty_object_text

  unfoldable pub deserialize_heartbeat_req : lib.Bytes → HeartbeatReq → Option HeartbeatReq
  deserialize_heartbeat_req bytes before = some before
