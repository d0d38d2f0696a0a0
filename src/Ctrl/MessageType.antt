-- ===== src/Ctrl/MessageType.antt =====
-- cjdns-ctrl/src/control_message.rs, `CtrlMessageType`.
use cjdns_route_server.Base.{ℕ, Bool, true, false, Option, none, some, ◌==◌, if◌then◌else◌}

pub data CtrlMessageType : Type 0 where
  error : CtrlMessageType
  ping : CtrlMessageType
  pong : CtrlMessageType
  key_ping : CtrlMessageType
  key_pong : CtrlMessageType
  get_super_node_query : CtrlMessageType
  get_super_node_response : CtrlMessageType

unfoldable pub to_u16 : CtrlMessageType → ℕ
to_u16 error = 2
to_u16 ping = 3
to_u16 pong = 4
to_u16 key_ping = 5
to_u16 key_pong = 6
to_u16 get_super_node_query = 7
to_u16 get_super_node_response = 8

unfoldable pub from_u16 : ℕ → Option CtrlMessageType
from_u16 code =
    if code == 2
    then some error
    else if code == 3
    then some ping
    else if code == 4
    then some pong
    else if code == 5
    then some key_ping
    else if code == 6
    then some key_pong
    else if code == 7
    then some get_super_node_query
    else if code == 8
    then some get_super_node_response
    else none

unfoldable pub is_key_ping : CtrlMessageType → Bool
is_key_ping key_ping = true
is_key_ping key_pong = true
is_key_ping t = false
