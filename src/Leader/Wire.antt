-- ===== src/Leader/Wire.antt =====
-- packages/storage/src/leader.ts: channel names, discovery messages, and what a tab does to its
-- surroundings.
use opfs_webauthn.Prelude.{Text, codes, ℕ, ◌++◌}
use opfs_webauthn.Rpc.Protocol.{Message}

-- An open `BroadcastChannel` object of a tab. Objects of one name are told apart by a serial number.
pub record Channel : Type 0 where
  pub name : Text
  pub serial : ℕ

pub data LeaderMessage : Type 0 where
  leader_elected : (id : Text) → LeaderMessage
  pair_request : (leader_id client_id channel : Text) → LeaderMessage
  pair_ack : (leader_id client_id : Text) → LeaderMessage
  leader_query : LeaderMessage
  leader_failed : (leader_id message : Text) → LeaderMessage

-- `opfs-pair-${leaderId}-${clientId}`
unfoldable pub pair_channel_name : Text → Text → Text
pair_channel_name leader_id client_id =
    codes "opfs-pair-" ++ (leader_id ++ (codes "-" ++ client_id))

abbrev pub pair_ack_retry_ms : ℕ
pair_ack_retry_ms = 500

pub data Effect : Type 0 where
  open_channel : Channel → Effect
  close_channel : Channel → Effect
  post : Channel → Message → Effect
  announce : LeaderMessage → Effect
  close_discovery : Effect
  start_writer : Effect
  to_writer : Message → Effect
  close_writer : Effect
  deliver : Message → Effect
  deliver_error : Effect
  resolve_ready : Effect
  reject_ready : Text → Effect
  request_lock : Effect
  abort_lock : Effect
  release_lock : Effect
  set_timer : (leader_id channel : Text) → Effect
  clear_timer : Effect
