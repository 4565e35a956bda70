-- ===== src/Session.antt =====
-- market_data/itch/Session.cpp: the session, and the calls of its client. Threads are steps of
-- Session/Dispatch; here a call runs from its lock to its unlock.
pub mod Log
pub mod Route
pub mod Workers
pub mod Dispatch
pub mod Calls
pub mod Miscast
mod Tests
use system_k_dev.Base.{
  ℕ, zero, suc, ◌+◌, ◌*◌, ◌/◌, ◌%◌, Bool, true, false, not, Option, none, some, List, [], ◌∷◌, ◌++◌,
  ◌==◌, if◌then◌else◌, ◌>>=◌,
}
use system_k_dev.Base.Int.{ℤ, pos, negsuc}
use system_k_dev.Book.Limit.{Timespec}
use system_k_dev.Packet.{TextOps, packet}
use system_k_dev.Message.{Message, server_heartbeat, end_of_session}
use system_k_dev.Message.Client.{ClientMessage, plain, currency_pair_message, save}
use system_k_dev.Message.Client as Client
use system_k_dev.Socket.{Socket, Attempt, Connecting, connect, send_packet}
use system_k_dev.Socket as Socket
use Log.{Environment, LogFile, new_log, log_line, close_log}

abbrev pub dispatch_thread_pool_size : ℕ
dispatch_thread_pool_size = 8

abbrev pub heartbeat_delay_seconds : ℤ
heartbeat_delay_seconds = pos 1

-- A `long` counter is a number here. `server_worker`, `client_worker` and `dispatch_pool` are the
-- threads that have been started and not joined.
pub record Session (F : Type 0) : Type 0 where
  pub socket : Option Socket
  pub log : LogFile
  pub messages_received : ℕ
  pub messages_sent : ℕ
  pub shutdown : Bool
  pub server_worker : Bool
  pub client_worker : Bool
  pub dispatch_pool : ℕ
  pub last_client_message : Timespec
  pub heartbeat_delay : ℤ
  pub server_timeout : ℤ
  pub dispatch_queue : List (Message F)

abbrev pub socket_connected : Option Socket → Bool
socket_connected none = false
socket_connected (some k) = k.is_connected

-- A call of the client, with its text library, its world and what `send` will return.
abbrev pub Call : Type 0 → Type 0
Call F =
    TextOps F → Environment → List Attempt → Session F → Option (Bool × Session F × List Attempt)

module _ {F : Type 0} where
  abbrev pub is_connected : Session F → Bool
  is_connected s = socket_connected s.socket

  -- The constructor leaves `m_nServerTimeoutSeconds` and the time of the last message unset: what
  -- they happen to hold is a parameter.
  pub new_session : (has_log : Bool) (unset_timeout : ℤ) (unset_time : Timespec) → Session F
  new_session has_log unset_timeout unset_time = record {
    socket = none;
    log = new_log has_log;
    messages_received = 0;
    messages_sent = 0;
    shutdown = true;
    server_worker = false;
    client_worker = false;
    dispatch_pool = 0;
    last_client_message = unset_time;
    heartbeat_delay = heartbeat_delay_seconds;
    server_timeout = unset_timeout;
    dispatch_queue = [];
  }

  unfoldable pub log_message : Environment → (to_server : Bool) → Session F → Session F
  log_message e true s = record s {
    messages_sent = s.messages_sent + 1;
    log = log_line e true s.log;
  }
  log_message e false s = record s {
    messages_received = s.messages_received + 1;
    log = log_line e false s.log;
  }

  unfoldable pub close_socket : Environment → Session F → Session F
  close_socket e s = elim s.socket [
    | none ↦ s
    | some k ↦ record s { socket = some (Socket.close e.now.tv_sec k) }
  ]

  -- What `SendMessage` does with the result of `SendPacket`.
  unfoldable pub after_send :
      Environment → Session F → Bool × Socket × List Attempt → Bool × Session F × List Attempt
  unfolding log_message
  after_send e s (true, k, rest) =
      (true, log_message e true (record s { socket = some k; last_client_message = e.now }), rest)
  after_send e s (false, k, rest) = (false, record s { socket = some k }, rest)

  unfoldable pub send_message :
      TextOps F
      → Environment
      → List Attempt
      → ClientMessage
      → Session F
      → Option (Bool × Session F × List Attempt)
  unfolding after_send
  send_message t e attempts m s = elim s.socket [
    | none ↦ some (false, s, attempts)
    | some k ↦
        if k.is_connected
        then elim (save t m (packet [])) [
          | none ↦ some (false, s, attempts)
          | some p ↦ do sent ← send_packet attempts e.now.tv_sec p k; some (after_send e s sent)
        ]
        else some (false, s, attempts)
  ]

  unfoldable pub login : (username password : List ℕ) (market_data_unsubscribe : Bool) → Call F
  login u p b t e attempts = send_message t e attempts (Client.login u p b)

  unfoldable pub logout : Call F
  logout t e attempts = send_message t e attempts (plain 79)

  unfoldable pub get_market_snapshot : (currency_pair : List ℕ) → Call F
  get_market_snapshot c t e attempts = send_message t e attempts (currency_pair_message 77 c)

  unfoldable pub subscribe_ticker : (currency_pair : List ℕ) → Call F
  subscribe_ticker c t e attempts = send_message t e attempts (currency_pair_message 84 c)

  unfoldable pub unsubscribe_ticker : (currency_pair : List ℕ) → Call F
  unsubscribe_ticker c t e attempts = send_message t e attempts (currency_pair_message 85 c)

  unfoldable pub subscribe_market_data : (currency_pair : List ℕ) → Call F
  subscribe_market_data c t e attempts = send_message t e attempts (currency_pair_message 65 c)

  unfoldable pub unsubscribe_market_data : (currency_pair : List ℕ) → Call F
  unsubscribe_market_data c t e attempts = send_message t e attempts (currency_pair_message 66 c)

  unfoldable pub get_instrument_directory : Call F
  get_instrument_directory t e attempts = send_message t e attempts (plain 73)

  unfoldable pub set_heartbeat_delay : ℤ → Session F → Session F
  set_heartbeat_delay (pos zero) s = record s { heartbeat_delay = heartbeat_delay_seconds }
  set_heartbeat_delay (pos (suc n)) s = record s { heartbeat_delay = pos (suc n) }
  set_heartbeat_delay (negsuc n) s = record s { heartbeat_delay = heartbeat_delay_seconds }

  unfoldable pub set_server_timeout : ℤ → Session F → Session F
  set_server_timeout n s = record s { server_timeout = n }

  -- The threads that a connection starts.
  unfoldable pub start_threads : Environment → Socket → Session F → Session F
  start_threads e k s = record s {
    socket = some k;
    shutdown = false;
    messages_received = 0;
    messages_sent = 0;
    dispatch_pool = dispatch_thread_pool_size;
    last_client_message = e.now;
    server_worker = true;
    client_worker = true;
  }

  unfoldable pub start :
      Environment
      → (host : List ℕ) (port : ℤ) (addresses : Option (List Connecting)) → Session F
      → Session F
  unfolding start_threads connect
  start e host port addresses s =
      if is_connected s
      then s
      else (let k = connect (some host) port addresses e.now.tv_sec in
          if k.is_connected then start_threads e k s else record s { socket = none })

  -- `Stop`, once the threads have ended: what they do until then are steps of Session/Dispatch.
  unfoldable pub stop : Session F → Session F
  stop s = record s {
    shutdown = true;
    client_worker = false;
    server_worker = false;
    dispatch_pool = 0;
    socket = none;
    log = close_log s.log;
  }

  unfoldable pub enqueue : Message F → Session F → Session F
  enqueue m s = record s { dispatch_queue = s.dispatch_queue ++ (m ∷ []) }

  unfoldable pub dispatch_server_message : Environment → Message F → Session F → Session F
  unfolding log_message enqueue close_socket
  dispatch_server_message e server_heartbeat s = log_message e false s
  dispatch_server_message e end_of_session s =
      enqueue end_of_session (close_socket e (log_message e false s))
  dispatch_server_message e m s = enqueue m (log_message e false s)

-- The deadline of `WaitClose`, for a timeout that is not negative.
unfoldable pub wait_deadline : Timespec → (timeout_milliseconds : ℕ) → Timespec
wait_deadline now ms = record {
  tv_sec = now.tv_sec + ms / 1000;
  tv_nsec = now.tv_nsec + ms % 1000 * 1000000;
}

-- `WaitClose` on the session as it is before and after the wait.
unfoldable pub wait_close : {F : Type 0} (before after : Session F) → Bool
wait_close before after = if is_connected before then not (is_connected after) else true
