-- ===== src/Session/Route.antt =====
-- market_data/itch/Session.cpp, DispatcherWorker: the handler that a message is given to.
use system_k_dev.Base.{ℕ, Bool, ◌||◌, ◌==◌, if◌then◌else◌}
use system_k_dev.Message.Hotspot.{
  Payload, new_order_message, modify_order_message, cancel_order_message, ticker_message,
  market_snapshot_message, unsupported_payload,
}
use system_k_dev.Message.{
  Message, error_notification, server_heartbeat, instrument_directory, login_accepted,
  login_rejected, sequenced_data, end_of_session, unsupported,
}

pub data Handler : Type 0 where
  on_login_accepted on_login_rejected on_session_end on_error_notification : Handler
  on_instrument_directory on_new_order on_modify_order on_cancel_order : Handler
  on_market_snapshot on_ticker : Handler

-- A call of a handler with the message; no call; or a cast of the message to a class that it is
-- not of, whose handler or payload is then used.
pub data Routed : Type 0 where
  calls : Handler → Routed
  ignored miscast : Routed

unfoldable pub route_type : (payload_type : ℕ) → Routed
route_type c =
    if c == 78
    then calls on_new_order
    else if c == 77
    then calls on_modify_order
    else if c == 88
    then calls on_cancel_order
    else if c == 83
    then calls on_market_snapshot
    else if c == 84
    then calls on_ticker
    else ignored

unfoldable pub payload_type : {F : Type 0} → Payload F → ℕ
payload_type (new_order_message m) = 78
payload_type (modify_order_message m) = 77
payload_type (cancel_order_message m) = 88
payload_type (ticker_message m) = 84
payload_type (market_snapshot_message m) = 83
payload_type (unsupported_payload type body) = type

-- The types that the switch has a case for.
unfoldable pub has_case : ℕ → Bool
has_case c = (c == 65) || ((c == 74) || ((c == 83) || ((c == 69) || (c == 82))))

-- A message that its own class could not load keeps its type in a `ServerUnsupportedMessage`.
unfoldable pub route : {F : Type 0} → Message F → Routed
unfolding route_type payload_type has_case
route (error_notification explanation) = calls on_error_notification
route server_heartbeat = ignored
route (instrument_directory currency_pairs) = calls on_instrument_directory
route (login_accepted sequence_number) = calls on_login_accepted
route (login_rejected reason) = calls on_login_rejected
route (sequenced_data timestamp payload m) = route_type (payload_type m)
route end_of_session = calls on_session_end
route (unsupported type body) = if has_case type then miscast else ignored
