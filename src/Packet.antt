-- ===== src/Packet.antt =====
-- src/bridge.rs: the packets that the connections return and take, and the message types that the
-- program handles.
use raknet_shim.Prelude.{ℕ, List}

pub data MessageType : Type 0 where
  open_connection_request open_connection_reply : MessageType
  no_free_incoming_connections disconnect_notification : MessageType

-- `as u8`
abbrev pub code : MessageType → ℕ
code open_connection_request = 9
code open_connection_reply = 10
code no_free_incoming_connections = 18
code disconnect_notification = 19

pub data Reliability : Type 0 where
  unreliable unreliable_sequenced reliable reliable_ordered : Reliability

-- `bytes` is the field `data`.
pub record Packet : Type 0 where
  pub reliability : Reliability
  pub bytes : List ℕ
