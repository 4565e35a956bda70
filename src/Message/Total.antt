-- ===== src/Message/Total.antt =====
-- The packets of the server and their payloads: every one that is long enough is a message.
use system_k_dev.Base.{
  ℕ, ◌≤◌, ◌<◌, ◌≡◌, refl, sym, true, List, [], ◌∷◌, ◌==◌, length, arith, Bool-cases, inl, inr,
  subst,
}
use system_k_dev.Packet.{
  PacketBase, TextOps, Outcome, ok, fail, lost, load_times, count_of, packet, read_string, read_int,
  read_until_tlf, peek_char,
}
use system_k_dev.Packet.Safe.{
  Moved-refl, Stays, InPacket, Safe, Safe-pure, Safe-bind, load_times-Safe, read_string-Safe,
  read_int-Safe, read_until_tlf-Safe, AllSafe, read_char_empty,
}
use system_k_dev.Message.Hotspot.{Payload, hotspotfx_creators, load_unsupported_payload}
use system_k_dev.Message.Hotspot.Safe.{
  hotspotfx_creators-AllSafe, load_unsupported_payload-Safe, load_unsupported_payload-ok,
}
use system_k_dev.Message.{
  Message, parse_message, parse_payload, load_error_notification, load_instrument_directory,
  load_login_accepted, load_login_rejected, nested, load_data, load_sequenced_data,
  load_unsupported, server_creators, parse_server_message,
}
use system_k_dev.Message.Parse.{parse_message-Safe, parse_message-ok}

module _ {F : Type 0} (t : TextOps F) where
  parse_payload-Safe : Safe (parse_payload t)
  unfolding parse_payload
  parse_payload-Safe =
      parse_message-Safe (hotspotfx_creators t) (load_unsupported_payload t)
        (hotspotfx_creators-AllSafe t) (load_unsupported_payload-Safe t)

  -- A payload of at least three characters is parsed into a message.
  pub parse_payload-ok :
      (s : List ℕ)
      → 2 < length s
      → (m : Payload F) × (q : PacketBase) × (parse_payload t (packet s) ≡ ok m q)
  unfolding parse_payload
  parse_payload-ok =
      parse_message-ok (hotspotfx_creators t) (load_unsupported_payload t)
        (hotspotfx_creators-AllSafe t) (load_unsupported_payload-Safe t)
        (load_unsupported_payload-ok t)

  nested_from :
      {A : Type 0} (p : PacketBase) (payload : List ℕ) (o : Outcome A)
      → InPacket p
      → Stays (packet payload) o
      → Stays p (elim o as (λ _. Outcome A) [ ok m _ ↦ ok m p | fail _ ↦ fail p | lost ↦ lost ])
  unfolding Stays
  nested_from p s (ok m q) i h = Moved-refl p i
  nested_from p s (fail q) i h = Moved-refl p i
  nested_from p s lost i h = h

  -- An empty payload is refused at its first character.
  payload_Stays : (s : List ℕ) → Stays (packet s) (parse_payload t (packet s))
  unfolding parse_payload parse_message Stays
  payload_Stays [] =
      subst (Stays (packet [])) (sym (read_char_empty _))
        (record { same = refl; within = omega arith })
  payload_Stays (c ∷ s) =
      parse_payload-Safe (packet (c ∷ s))
        (record { not_empty = omega arith; in_bounds = omega arith })

  nested-Safe : (s : List ℕ) → Safe (nested t s)
  unfolding nested
  nested-Safe s p i = nested_from p s (parse_payload t (packet s)) i (payload_Stays s)

  load_data-Safe : Safe (load_data t)
  unfolding load_data
  load_data-Safe = Safe-bind (read_string t 9 true) _ (read_string-Safe t 9 true) λ _.
      Safe-bind read_until_tlf _ read_until_tlf-Safe
        λ s. Safe-bind (nested t s) _ (nested-Safe s) λ _. Safe-pure _

  load_sequenced_data-Safe : Safe (load_sequenced_data t)
  unfolding load_sequenced_data Stays
  load_sequenced_data-Safe p i = elim (Bool-cases (peek_char p == 10)) [
    | inl e ↦ rw (load_sequenced_data, e) (Moved-refl p i)
    | inr e ↦ rw (load_sequenced_data, e) (load_data-Safe p i)
  ]

  load_unsupported-Safe : (type : ℕ) → Safe (load_unsupported t type)
  unfolding load_unsupported
  load_unsupported-Safe type = Safe-bind read_until_tlf _ read_until_tlf-Safe λ _. Safe-pure _

  pub server_creators-AllSafe : AllSafe (server_creators t)
  unfolding server_creators load_error_notification load_instrument_directory load_login_accepted
      load_login_rejected
  server_creators-AllSafe = (
    Safe-bind (read_string t 100 true) _ (read_string-Safe t 100 true) λ _. Safe-pure _,
    (
      Safe-pure _,
      (
        Safe-bind (read_int t 4) _ (read_int-Safe t 4) λ n.
            Safe-bind (load_times (count_of n) (read_string t 7 true)) _
              (load_times-Safe _ _ (read_string-Safe t 7 true)) λ _. Safe-pure _,
        (
          Safe-bind (read_int t 10) _ (read_int-Safe t 10) λ _. Safe-pure _,
          (
            Safe-bind (read_string t 20 true) _ (read_string-Safe t 20 true) λ _. Safe-pure _,
            (load_sequenced_data-Safe, tt),
          ),
        ),
      ),
    ),
  )

  -- Parsing a packet that is not empty, from a position in it, never meets the lost position,
  -- leaves the packet as it is and the position within it, whatever the packet holds and whether
  -- or not it yields a message.
  pub parse_server_message-Stays :
      (p : PacketBase)
      → 0 < length p.buffer
      → p.position ≤ length p.buffer
      → Stays p (parse_server_message t p)
  unfolding parse_server_message
  parse_server_message-Stays p h k =
      parse_message-Safe (server_creators t) (load_unsupported t) server_creators-AllSafe
        load_unsupported-Safe p (record { not_empty = h; in_bounds = k })
