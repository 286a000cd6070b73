-- ===== src/Protocol/Messages.antt =====
-- The message structs of src/codec/protocol.h. Times are milliseconds that are not negative.
use hc_tcp_im_server.Common.{ℕ, List, String}

pub record LoginReq : Type 0 where
  pub user_id : String
  pub token : String
  pub device_id : String

pub record LoginResp : Type 0 where
  pub result_code : ℕ
  pub result_msg : String
  pub session_id : String

pub record HeartbeatReq : Type 0 where

pub record HeartbeatResp : Type 0 where
  pub server_time : ℕ

pub record P2pMsgReq : Type 0 where
  pub from_user_id : String
  pub to_user_id : String
  pub client_msg_id : String
  pub content : String

pub record P2pMsgResp : Type 0 where
  pub result_code : ℕ
  pub result_msg : String
  pub msg_id : ℕ
  pub server_seq : ℕ

pub record P2pMsgNotify : Type 0 where
  pub msg_id : ℕ
  pub server_seq : ℕ
  pub from_user_id : String
  pub to_user_id : String
  pub client_msg_id : String
  pub content : String
  pub timestamp : ℕ

pub record BroadcastMsgReq : Type 0 where
  pub from_user_id : String
  pub content : String

pub record BroadcastMsgNotify : Type 0 where
  pub from_user_id : String
  pub content : String
  pub timestamp : ℕ

pub record KickUserReq : Type 0 where
  pub target_user_id : String
  pub reason : String

pub record KickUserResp : Type 0 where
  pub result_code : ℕ
  pub result_msg : String

pub record MessageAckReq : Type 0 where
  pub msg_id : ℕ
  pub server_seq : ℕ
  pub ack_code : ℕ

pub record MessageAckResp : Type 0 where
  pub result_code : ℕ
  pub result_msg : String
  pub server_seq : ℕ

pub record PullOfflineReq : Type 0 where
  pub user_id : String
  pub last_acked_seq : ℕ
  pub limit : ℕ

-- `PullOfflineResp::OfflineItem`
pub record OfflineItem : Type 0 where
  pub msg_id : ℕ
  pub server_seq : ℕ
  pub from_user_id : String
  pub to_user_id : String
  pub client_msg_id : String
  pub content : String
  pub timestamp : ℕ

pub record PullOfflineResp : Type 0 where
  pub result_code : ℕ
  pub result_msg : String
  pub next_begin_seq : ℕ
  pub messages : List OfflineItem
