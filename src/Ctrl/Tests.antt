-- ===== src/Ctrl/Tests.antt =====
-- The theorems on control messages at messages like those of the source's own tests.
use cjdns_route_server.Base.{
  ℕ, ◌+◌, ◌≡◌, refl, arith, true, none, some, List, [], ◌∷◌, ◌++◌, length, replicate, IsBytes, ok,
}
use cjdns_route_server.Hdr.SwitchHeader.{SwitchHeader}
use cjdns_route_server.Hdr.SwitchHeader.RoundTrip.{IsSwitchHeader}
use cjdns_route_server.Ctrl.MessageType.{error, ping, key_ping}
use cjdns_route_server.Ctrl.ErrorData
use cjdns_route_server.Ctrl.ErrorData.{ErrorData, return_path_invalid, to_u32}
use cjdns_route_server.Ctrl.ErrorData.RoundTrip.{IsErrorData, parse_error-serialize_error}
use cjdns_route_server.Ctrl.PingData.{PingData}
use cjdns_route_server.Ctrl.PingData.RoundTrip.{
  ReadsAs, parse_ping-serialize_ping, parse_ping-long_content,
}
use cjdns_route_server.Ctrl.Message.{error_data}
use cjdns_route_server.Ctrl.Message.RoundTrip.{Survives, parse_message-serialize_message}

abbrev switch_header : SwitchHeader
switch_header = record {
  label = record { bits = 0x62c1d23a64811401 };
  congestion = 1;
  suppress_errors = true;
  version = 1;
  label_shift = 57;
  penalty = 0;
}

switch_header-IsSwitchHeader : IsSwitchHeader switch_header
switch_header-IsSwitchHeader = record {
  label_valid = omega arith;
  congestion_fits = omega arith;
  version_known = omega arith;
  shift_fits = omega arith;
  penalty_fits = omega arith;
}

abbrev error_body : ErrorData
error_body = record {
  err_type = return_path_invalid;
  switch_header = switch_header;
  additional = 0 ∷ 1 ∷ 45 ∷ [];
}

error_body-IsErrorData : IsErrorData error_body
unfolding to_u32
error_body-IsErrorData = record {
  is_error = omega arith;
  recognized = omega arith;
  switch_valid = switch_header-IsSwitchHeader;
  additional_valid = omega arith;
}

parse_error-serialize_error_example :
    (bytes : List ℕ) × (ErrorData.serialize error_body ≡ ok bytes)
    × (length bytes ≡ 16 + length error_body.additional)
    × IsBytes bytes
    × (ErrorData.parse bytes ≡ ok error_body)
parse_error-serialize_error_example = parse_error-serialize_error error_body error_body-IsErrorData

abbrev key_ping_body : PingData
key_ping_body = record {
  version = 18;
  key = some (record { k = replicate 32 9 });
  content = 2 ∷ 0xe2 ∷ [];
}

parse_ping-serialize_ping_example : ReadsAs key_ping key_ping_body key_ping_body
parse_ping-serialize_ping_example =
    parse_ping-serialize_ping key_ping key_ping_body (omega arith) (λ e. omega arith) (omega arith)
      (omega arith) (record { k = replicate 32 9 }, refl, refl)

-- A plain ping with a content of 33 bytes.
abbrev long_ping_body : PingData
long_ping_body = record { version = 18; key = none; content = replicate 32 7 ++ (1 ∷ []) }

parse_ping-long_content_example :
    ReadsAs ping long_ping_body (record { version = 18; key = none; content = 1 ∷ [] })
parse_ping-long_content_example =
    parse_ping-long_content ping long_ping_body tt (omega arith) (λ e. omega arith) refl
      (omega arith) (omega arith)

parse_message-serialize_message_example : Survives error (error_data error_body)
parse_message-serialize_message_example =
    parse_message-serialize_message error (error_data error_body)
      (error_body-IsErrorData, omega arith)
