-- ===== src/Socket/Tests.antt =====
-- Calls of `send` and `select` with concrete results.
use system_k_dev.Base.{◌≡◌, refl, Bool, true, false, some, List, [], ◌∷◌, arith}
use system_k_dev.Base.Int.{pos, negsuc}
use system_k_dev.Packet.{PacketBase, packet}
use system_k_dev.Receive.{ends_tlf}
use system_k_dev.Socket.{
  Socket, Attempt, connects, refused, no_socket, connect, send_packet, unconnected,
  get_uptime_seconds,
}
use system_k_dev.Socket.Send.{Sends, frame, send_packet-Sends}

abbrev peer : Socket
peer = record { is_connected = true; time_connected = 5; time_disconnected = 0; wire = [] }

-- Two bytes, one byte, the terminator.
abbrev taken : List Attempt
taken = (pos 2, pos 0) ∷ (pos 1, pos 0) ∷ (pos 1, pos 0) ∷ (pos 1, pos 0) ∷ []

abbrev word : PacketBase
word = packet (82 ∷ 83 ∷ 84 ∷ [])

word_sent :
    send_packet taken 9 word peer
    ≡ some (true, record peer { wire = 82 ∷ 83 ∷ 84 ∷ 10 ∷ [] }, (pos 1, pos 0) ∷ [])
unfolding send_packet ends_tlf
word_sent = refl

-- The second call of `send` fails.
word_cut :
    send_packet ((pos 2, pos 0) ∷ (negsuc 0, pos 0) ∷ []) 9 word peer
    ≡ some (
      false,
      record peer { is_connected = false; time_disconnected = 9; wire = 82 ∷ 83 ∷ [] },
      [],
    )
unfolding send_packet
word_cut = refl

second_address : connect (some []) (pos 80) (some (no_socket ∷ connects ∷ [])) 5 ≡ peer
unfolding connect
second_address = refl

refused_address : connect (some []) (pos 80) (some (refused ∷ connects ∷ [])) 5 ≡ unconnected
unfolding connect
refused_address = refl

up_for : get_uptime_seconds 9 peer ≡ pos 4
unfolding get_uptime_seconds
up_for = refl

send_packet-Sends_example :
    (ok : Bool) × (s' : Socket) × (rest : List Attempt) × (send_packet taken 9 word peer
      ≡ some (ok, s', rest))
    × Sends (frame word.buffer) peer ok s'
send_packet-Sends_example = send_packet-Sends taken 9 word peer refl (omega arith) tt (omega arith)
