-- ===== src/Session/Workers.antt =====
-- market_data/itch/Session.cpp: one round of the loop of each of the threads.
use system_k_dev.Base.{
  ℕ, suc, ◌+◌, Bool, true, false, not, ◌&&◌, Option, none, some, List, [], ◌∷◌, leb, if◌then◌else◌,
  ◌>>=◌,
}
use system_k_dev.Base.Int.{ℤ, pos, negsuc}
use system_k_dev.Message.{Message}
use system_k_dev.Message.Client.{ClientMessage, plain}
use system_k_dev.Packet.{PacketBase}
use system_k_dev.Socket.{Socket, Attempt, close, send_packet}
use system_k_dev.Session.Log.{Environment}
use system_k_dev.Session.{Session, log_message, is_connected, close_socket, dispatch_server_message}

-- `now - since >= delay`, on signed seconds.
unfoldable pub elapsed : (since : ℕ) (delay : ℤ) (now : ℕ) → Bool
elapsed since (pos d) now = leb (since + d) now
elapsed since (negsuc d) now = leb since (now + suc d)

-- ClientWorker: the heartbeat that is saved before the loop.
abbrev pub heartbeat_message : ClientMessage
heartbeat_message = plain 82

module _ {F : Type 0} where
  -- DispatcherWorker: the front of the queue, if there is one.
  unfoldable pub take_message : Session F → Option (Message F × Session F)
  take_message s = elim s.dispatch_queue [
    | [] ↦ none
    | m ∷ rest ↦ some (m, record s { dispatch_queue = rest })
  ]

  -- ServerWorker, after `ReceiveMessage` has returned a message or NULL. The result: whether the
  -- loop goes on, the second in which a message was last seen, and the session.
  unfoldable pub server_round :
      Environment
      → (response : Option (Message F)) (last_seen : ℕ) → Session F
      → Bool × ℕ × Session F
  unfolding close_socket elapsed dispatch_server_message
  server_round e (some m) last_seen s = (true, e.now.tv_sec, dispatch_server_message e m s)
  server_round e none last_seen s =
      if s.shutdown
      then (false, last_seen, s)
      else (let s' =
            if is_connected s
            then if elapsed last_seen s.server_timeout e.now.tv_sec then close_socket e s else s
            else s in
          (is_connected s', last_seen, s'))

  unfoldable pub after_heartbeat :
      Environment → Session F → Bool × Socket × List Attempt → Session F
  unfolding log_message close
  after_heartbeat e s (true, k, rest) = record (log_message e true (record s { socket = some k })) {
    last_client_message = e.now;
  }
  after_heartbeat e s (false, k, rest) = record s {
    socket = some (close e.now.tv_sec k);
    last_client_message = e.now;
  }

  -- ClientWorker, from the end of its wait to its unlock.
  unfoldable pub client_round :
      Environment → List Attempt → (heartbeat : PacketBase) → Session F → Option (Session F)
  unfolding elapsed after_heartbeat
  client_round e attempts heartbeat s = elim s.socket [
    | none ↦ some s
    | some k ↦
        if not s.shutdown
          && k.is_connected
          && elapsed s.last_client_message.tv_sec s.heartbeat_delay e.now.tv_sec
        then (do
          sent ← send_packet attempts e.now.tv_sec heartbeat k
          some (after_heartbeat e s sent))
        else some s
  ]
