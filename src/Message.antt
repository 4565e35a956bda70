-- ===== src/Message.antt =====
-- market_data/itch/msg: MessageFactory and the messages of the server.
pub mod Hotspot
pub mod Parse
pub mod Total
pub mod Cram
pub mod Client
mod Tests
use system_k_dev.Base.{ℕ, ◌==◌, if◌then◌else◌, Option, none, some, List, [], ◌∷◌, true}
use system_k_dev.Base.Int.{ℤ, pos}
use system_k_dev.Packet.{
  PacketBase, TextOps, Outcome, ok, fail, lost, Reader, pure, ◌>>=◌, load_times, count_of, packet,
  peek_char, read_char, read_string, read_int, read_until_tlf, reset_read_position,
}
use Hotspot.{Payload, hotspotfx_creators, load_unsupported_payload}

pub data Message (F : Type 0) : Type 0 where
  error_notification : (explanation : List ℕ) → Message F
  server_heartbeat : Message F
  instrument_directory : (currency_pairs : List (List ℕ)) → Message F
  login_accepted : (sequence_number : ℤ) → Message F
  login_rejected : (reason : List ℕ) → Message F
  sequenced_data : (timestamp payload : List ℕ) → Payload F → Message F
  end_of_session : Message F
  unsupported : (type : ℕ) → (body : List ℕ) → Message F

-- `packet.ResetReadPosition(1)`, its result ignored.
abbrev pub reset : PacketBase → PacketBase
reset p = elim (reset_read_position (pos 1) p) [ none ↦ p | some q ↦ q ]

-- The load that is registered for a type.
unfoldable pub create_message : {M : Type 0} → List (ℕ × Reader M) → ℕ → Option (Reader M)
create_message [] type = none
create_message ((c, load) ∷ rest) type = if c == type then some load else create_message rest type

module _ {M : Type 0} (creators : List (ℕ × Reader M)) (load_unsupported : ℕ → Reader M) where
  -- A load that has failed is followed by one as an unsupported message.
  pub load_or_cram : ℕ → Reader M → Reader M
  load_or_cram type load p = elim (load p) [
    | ok m q ↦ ok m q
    | fail q ↦ load_unsupported type (reset q)
    | lost ↦ lost
  ]

  pub load_typed : ℕ → Reader M
  load_typed type = elim (create_message creators type) [
    | none ↦ load_unsupported type
    | some load ↦ load_or_cram type load
  ]

  -- A failure is the NULL that `ParseMessage` returns.
  pub parse_message : Reader M
  parse_message = do type ← read_char; load_typed type

module _ {F : Type 0} (t : TextOps F) where
  pub parse_payload : Reader (Payload F)
  parse_payload = parse_message (hotspotfx_creators t) (load_unsupported_payload t)

  pub load_error_notification : Reader (Message F)
  load_error_notification = do
    explanation ← read_string t 100 true
    pure (error_notification explanation)

  pub load_instrument_directory : Reader (Message F)
  load_instrument_directory = do
    count ← read_int t 4
    currency_pairs ← load_times (count_of count) (read_string t 7 true)
    pure (instrument_directory currency_pairs)

  unfoldable pub load_login_accepted : Reader (Message F)
  load_login_accepted = do sequence_number ← read_int t 10; pure (login_accepted sequence_number)

  pub load_login_rejected : Reader (Message F)
  load_login_rejected = do reason ← read_string t 20 true; pure (login_rejected reason)

  -- The payload is parsed as a packet of its own.
  pub nested : List ℕ → Reader (Payload F)
  nested payload p = elim (parse_payload (packet payload)) [
    | ok m _ ↦ ok m p
    | fail _ ↦ fail p
    | lost ↦ lost
  ]

  pub load_data : Reader (Message F)
  load_data = do
    timestamp ← read_string t 9 true
    payload ← read_until_tlf
    message ← nested payload
    pure (sequenced_data timestamp payload message)

  pub load_sequenced_data : Reader (Message F)
  load_sequenced_data p = if peek_char p == 10 then ok end_of_session p else load_data p

  pub load_unsupported : ℕ → Reader (Message F)
  load_unsupported type = do body ← read_until_tlf; pure (unsupported type body)

  unfoldable pub server_creators : List (ℕ × Reader (Message F))
  server_creators =
      (69, load_error_notification)
      ∷ (72, pure server_heartbeat)
      ∷ (82, load_instrument_directory)
      ∷ (65, load_login_accepted)
      ∷ (74, load_login_rejected)
      ∷ (83, load_sequenced_data)
      ∷ []

  pub parse_server_message : Reader (Message F)
  parse_server_message = parse_message server_creators load_unsupported
