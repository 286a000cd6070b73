-- ===== src/Serializer/RoundTrip/Session.antt =====
-- The login, heartbeat and kick messages of src/codec/messageSerializer.cpp, written and read back.
use hc_tcp_im_server.Common.{◌<◌, ◌≡◌, refl, some, [], ◌∷◌, String, u32, ◌^◌}
use hc_tcp_im_server.Common.Dict.{Dict, find}
use hc_tcp_im_server.Protocol.Messages.{
  LoginReq, LoginResp, HeartbeatResp, KickUserReq, KickUserResp,
}
use hc_tcp_im_server.Serializer.{JsonLib}
use hc_tcp_im_server.Serializer.Session.{
  serialize_login_req, deserialize_login_req, serialize_login_resp, deserialize_login_resp,
  serialize_heartbeat_resp, deserialize_heartbeat_resp, serialize_kick_user_req,
  deserialize_kick_user_req, serialize_kick_user_resp, deserialize_kick_user_resp,
}
use hc_tcp_im_server.Serializer.Steps.{step, at_object, keep_object}

-- The fields fit their types.
pub record FitsLoginResp (m : LoginResp) : Type 0 where
  pub result_code : m.result_code < u32

pub record FitsHeartbeatResp (m : HeartbeatResp) : Type 0 where
  pub server_time : m.server_time < 2 ^ 63

pub record FitsKickUserResp (m : KickUserResp) : Type 0 where
  pub result_code : m.result_code < u32

module _ (lib : JsonLib) where
  pub login_req_round :
      (m before : LoginReq) → deserialize_login_req lib (serialize_login_req lib m) before ≡ some m
  unfolding serialize_login_req deserialize_login_req find
  login_req_round m before =
      let d : Dict String lib.Json =
        ("user_id", lib.text m.user_id)
        ∷ ("token", lib.text m.token)
        ∷ ("device_id", lib.text m.device_id)
        ∷ [] in
      step (lib.object d) _ (lib.parse-dump (lib.object d)) (
        step m.user_id _ (at_object lib lib.get_text d "user_id" refl (lib.get_text-text m.user_id))
          (step m.token _ (at_object lib lib.get_text d "token" refl (lib.get_text-text m.token)) (
            step m.device_id _
              (keep_object lib lib.get_text d "device_id" before.device_id refl
                (lib.get_text-text m.device_id))
              refl)))

  pub login_resp_round :
      (m before : LoginResp)
      → FitsLoginResp m
      → deserialize_login_resp lib (serialize_login_resp lib m) before ≡ some m
  unfolding serialize_login_resp deserialize_login_resp find
  login_resp_round m before fits =
      let d : Dict String lib.Json =
        ("result_code", lib.number m.result_code)
        ∷ ("result_msg", lib.text m.result_msg)
        ∷ ("session_id", lib.text m.session_id)
        ∷ [] in
      step (lib.object d) _ (lib.parse-dump (lib.object d)) (
        step m.result_code _
          (at_object lib lib.get_uint32 d "result_code" refl
            (lib.get_uint32-number m.result_code fits.result_code))
          (step m.result_msg _
            (at_object lib lib.get_text d "result_msg" refl (lib.get_text-text m.result_msg))
            (step m.session_id _
              (keep_object lib lib.get_text d "session_id" before.session_id refl
                (lib.get_text-text m.session_id))
              refl)))

  pub heartbeat_resp_round :
      (m : HeartbeatResp)
      → FitsHeartbeatResp m
      → deserialize_heartbeat_resp lib (serialize_heartbeat_resp lib m) ≡ some m
  unfolding serialize_heartbeat_resp deserialize_heartbeat_resp find
  heartbeat_resp_round m fits =
      let d : Dict String lib.Json = ("server_time", lib.number m.server_time) ∷ [] in
      step (lib.object d) _ (lib.parse-dump (lib.object d)) (
        step m.server_time _
          (at_object lib lib.get_int64 d "server_time" refl
            (lib.get_int64-number m.server_time fits.server_time))
          refl)

  pub kick_user_req_round :
      (m : KickUserReq) → deserialize_kick_user_req lib (serialize_kick_user_req lib m) ≡ some m
  unfolding serialize_kick_user_req deserialize_kick_user_req find
  kick_user_req_round m =
      let d : Dict String lib.Json =
        ("target_user_id", lib.text m.target_user_id) ∷ ("reason", lib.text m.reason) ∷ [] in
      step (lib.object d) _ (lib.parse-dump (lib.object d)) (
        step m.target_user_id _
          (at_object lib lib.get_text d "target_user_id" refl (lib.get_text-text m.target_user_id))
          (step m.reason _ (at_object lib lib.get_text d "reason" refl (lib.get_text-text m.reason))
            refl))

  pub kick_user_resp_round :
      (m : KickUserResp)
      → FitsKickUserResp m
      → deserialize_kick_user_resp lib (serialize_kick_user_resp lib m) ≡ some m
  unfolding serialize_kick_user_resp deserialize_kick_user_resp find
  kick_user_resp_round m fits =
      let d : Dict String lib.Json =
        ("result_code", lib.number m.result_code) ∷ ("result_msg", lib.text m.result_msg) ∷ [] in
      step (lib.object d) _ (lib.parse-dump (lib.object d)) (
        step m.result_code _
          (at_object lib lib.get_uint32 d "result_code" refl
            (lib.get_uint32-number m.result_code fits.result_code))
          (step m.result_msg _
            (at_object lib lib.get_text d "result_msg" refl (lib.get_text-text m.result_msg)) refl))
