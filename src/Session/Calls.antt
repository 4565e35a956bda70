-- ===== src/Session/Calls.antt =====
-- market_data/itch/Session.cpp: what a call of the client and a round of the heartbeat thread do.
use system_k_dev.Base.{ℕ, ◌+◌, ◌≡◌, Bool, true, false, some, List, if◌then◌else◌, not, ◌&&◌}
use system_k_dev.Socket.{Socket}
use system_k_dev.Socket.Send.{Sends, frame}
use system_k_dev.Session.Log.{Environment}
use system_k_dev.Session.{Session}
use system_k_dev.Session.Workers.{elapsed}

module _ {F : Type 0} where
  -- The state after a call that has sent from the socket `k`, with what did not change.
  pub record IsSent (e : Environment) (bytes : List ℕ) (k : Socket) (s : Session F) (ok : Bool)
      (s' : Session F) : Type 0 where
    pub socket : Socket
    pub now_at : s'.socket ≡ some socket
    pub sends : Sends (frame bytes) k ok socket
    pub counted : s'.messages_sent ≡ (if ok then s.messages_sent + 1 else s.messages_sent)
    pub stamped : s'.last_client_message ≡ (if ok then e.now else s.last_client_message)
    pub received : s'.messages_received ≡ s.messages_received
    pub queue : s'.dispatch_queue ≡ s.dispatch_queue

  -- The heartbeat is due in a session that goes on.
  abbrev pub is_due : Environment → Socket → Session F → Bool
  is_due e k s =
      not s.shutdown
      && k.is_connected
      && elapsed s.last_client_message.tv_sec s.heartbeat_delay e.now.tv_sec

  -- The state after a round of the heartbeat thread.
  pub record IsKeptAlive (e : Environment) (bytes : List ℕ) (k : Socket) (s s' : Session F)
      : Type 0 where
    pub not_due : is_due e k s ≡ false → s' ≡ s
    pub due :
        is_due e k s ≡ true
        → (ok : Bool) × (k' : Socket) × (s'.socket ≡ some k')
          × (k'.is_connected ≡ ok)
          × (ok ≡ true → Sends (frame bytes) k true k')
          × (s'.messages_sent ≡ (if ok then s.messages_sent + 1 else s.messages_sent))
          × (s'.last_client_message ≡ e.now)
