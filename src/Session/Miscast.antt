-- ===== src/Session/Miscast.antt =====
-- market_data/itch/Session.cpp: a message that could not be loaded, from its packet to its handler.
use system_k_dev.Base.{ℕ, ◌<◌, ◌≡◌, refl, true, some, List, ◌∷◌, length}
use system_k_dev.Packet.{PacketBase, TextOps, ok, fail, Reader, packet}
use system_k_dev.Message.{
  Message, unsupported, create_message, server_creators, parse_server_message,
}
use system_k_dev.Message.Cram.{fields, parse_server_message-unsupported}
use system_k_dev.Session.Route.{route, has_case, miscast}

module _ {F : Type 0} (t : TextOps F) where
  -- A packet of at least three characters whose type is that of a message which the dispatcher
  -- has a case for, and whose fields that message fails to load, is parsed into an unsupported
  -- message of the same type; the dispatcher casts it to the class that it is not of.
  pub parse_server_message-miscast :
      (c : ℕ) (cs : List ℕ) (load : Reader (Message F)) (q : PacketBase)
      → 1 < length cs
      → has_case c ≡ true
      → create_message (server_creators t) c ≡ some load
      → load (fields t c cs) ≡ fail q
      → (body : List ℕ) × (r : PacketBase) × (parse_server_message t (packet (c ∷ cs))
          ≡ ok (unsupported c body) r)
        × (route {F = F} (unsupported c body) ≡ miscast)
  unfolding route
  parse_server_message-miscast c cs load q long case registered failed =
      let (body, r, run) = parse_server_message-unsupported t c cs load q long registered failed in
      (body, r, run, rw case refl)
