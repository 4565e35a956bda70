-- ===== src/Session/Dispatch/Queue.antt =====
-- market_data/itch/Session.cpp: what each call does to the queue of messages.
use mathlib.Core.List.{append-nil}
use system_k_dev.Base.{
  ◌≡◌, refl, sym, ◌∙◌, ap, subst, Bool, true, false, Option, none, some, List, [], ◌∷◌, ◌++◌, arith,
  if◌then◌else◌, ◌>>=◌, Option-cases, inl, inr,
}
use system_k_dev.Message.{Message, server_heartbeat, end_of_session}
use mathlib.Core.Option.{some-injective}
use system_k_dev.Packet.{packet}
use system_k_dev.Message.Client.{save}
use system_k_dev.Socket.{send_packet}
use system_k_dev.Session.{
  Session, dispatch_server_message, send_message, after_send, log_message, enqueue, close_socket,
  start, stop, start_threads,
}
use system_k_dev.Session.Workers.{take_message, server_round, client_round, after_heartbeat}

module _ {F : Type 0} where
  -- All messages but the heartbeats.
  unfoldable pub deliverable : List (Message F) → List (Message F)
  deliverable [] = []
  deliverable (server_heartbeat ∷ ms) = deliverable ms
  deliverable (m ∷ ms) = m ∷ deliverable ms

  pub deliverable-append :
      (xs ys : List (Message F)) → deliverable (xs ++ ys) ≡ deliverable xs ++ deliverable ys
  unfolding deliverable
  deliverable-append [] ys = refl
  deliverable-append (server_heartbeat ∷ xs) ys = deliverable-append xs ys
  deliverable-append (m ∷ xs) ys = ap (◌∷◌ m) (deliverable-append xs ys)

  pub close_socket-queue :
      (e : _) (s : Session F) → (close_socket e s).dispatch_queue ≡ s.dispatch_queue
  unfolding close_socket
  close_socket-queue e s = ground arith

  log_message-queue :
      (e : _) (b : Bool) (s : Session F) → (log_message e b s).dispatch_queue ≡ s.dispatch_queue
  unfolding log_message
  log_message-queue e true s = refl
  log_message-queue e false s = refl

  -- A message joins the end of the queue, unless it is a heartbeat.
  pub dispatch_server_message-queue :
      (e : _) (m : Message F) (s : Session F)
      → (dispatch_server_message e m s).dispatch_queue ≡ s.dispatch_queue ++ deliverable (m ∷ [])
  unfolding dispatch_server_message deliverable enqueue
  dispatch_server_message-queue e server_heartbeat s =
      log_message-queue e false s ∙ sym (append-nil s.dispatch_queue)
  dispatch_server_message-queue e end_of_session s =
      ap (λ q. q ++ (end_of_session ∷ []))
        (close_socket-queue e (log_message e false s) ∙ log_message-queue e false s)
  dispatch_server_message-queue e m s = ap (λ q. q ++ (m ∷ [])) (log_message-queue e false s)

  pub server_round-queue :
      (e : _) (seen : _) (s : Session F)
      → (server_round e none seen s).2.dispatch_queue ≡ s.dispatch_queue
  unfolding server_round
  server_round-queue e seen s = ground (arith, close_socket-queue e s)

  after_heartbeat-queue :
      (e : _) (s : Session F) (r : _) → (after_heartbeat e s r).dispatch_queue ≡ s.dispatch_queue
  unfolding after_heartbeat log_message
  after_heartbeat-queue e s (true, k, rest) = refl
  after_heartbeat-queue e s (false, k, rest) = refl

  beaten :
      (e : _) (s s' : Session F) (r : Option _)
      → (r >>= λ sent. some (after_heartbeat e s sent)) ≡ some s'
      → s'.dispatch_queue ≡ s.dispatch_queue
  beaten e s s' none h = cc
  beaten e s s' (some r) h =
      subst (λ u. u.dispatch_queue ≡ s.dispatch_queue) (some-injective _ _ h)
        (after_heartbeat-queue e s r)

  pub client_round-queue :
      (e : _) (attempts : _) (heartbeat : _) (s s' : Session F)
      → client_round e attempts heartbeat s ≡ some s'
      → s'.dispatch_queue ≡ s.dispatch_queue
  unfolding client_round
  client_round-queue e attempts heartbeat s s' h = elim (Option-cases s.socket) [
    | inl gone ↦ ground (arith, gone, h)
    | inr (k, at) ↦
        ground (arith, at, h, beaten e s s' (send_packet attempts e.now.tv_sec heartbeat k))
  ]

  after_send-queue :
      (e : _) (s : Session F) (r : _) → (after_send e s r).1.dispatch_queue ≡ s.dispatch_queue
  unfolding after_send log_message
  after_send-queue e s (true, k, rest) = refl
  after_send-queue e s (false, k, rest) = refl

  sent_on :
      (e : _) (s : Session F) (u : _) (r : Option _)
      → (r >>= λ sent. some (after_send e s sent)) ≡ some u
      → u.1.dispatch_queue ≡ s.dispatch_queue
  sent_on e s u none h = cc
  sent_on e s u (some r) h =
      subst (λ v. v.1.dispatch_queue ≡ s.dispatch_queue) (some-injective _ _ h)
        (after_send-queue e s r)

  pub send_message-queue :
      (t : _) (e : _) (attempts rest : _) (m : _) (ok : Bool) (s s' : Session F)
      → send_message t e attempts m s ≡ some (ok, s', rest)
      → s'.dispatch_queue ≡ s.dispatch_queue
  unfolding send_message
  send_message-queue t e attempts rest m ok s s' h = elim (Option-cases s.socket) [
    | inl gone ↦ ground (arith, gone, h)
    | inr (k, at) ↦ elim (Option-cases (save t m (packet []))) [
      | inl bad ↦ ground (arith, at, bad, h)
      | inr (p, saved) ↦
          ground (
            arith,
            at,
            saved,
            h,
            sent_on e s (ok, s', rest) (send_packet attempts e.now.tv_sec p k),
          )
    ]
  ]

  pub take_message-queue :
      (s s' : Session F) (m : Message F)
      → take_message s ≡ some (m, s')
      → s.dispatch_queue ≡ m ∷ s'.dispatch_queue
  unfolding take_message
  take_message-queue s s' m h = ground (arith, h)

  pub server_waits-queue :
      (e : _) (closed : Bool) (last_seen seen : _) (go_on : Bool) (s s' : Session F)
      → server_round e none last_seen (if closed then close_socket e s else s) ≡ (go_on, seen, s')
      → s.dispatch_queue ≡ s'.dispatch_queue
  server_waits-queue e closed last_seen seen go_on s s' run =
      let s1 = if closed then close_socket e s else s in
      sym (closing closed)
      ∙ sym (server_round-queue e last_seen s1)
      ∙ ap (λ r. r.2.dispatch_queue) run
    where
      closing : (c : Bool) → (if c then close_socket e s else s).dispatch_queue ≡ s.dispatch_queue
      closing true = close_socket-queue e s
      closing false = refl

  pub start-queue :
      (e : _) (host : _) (port : _) (addresses : _) (s : Session F)
      → (start e host port addresses s).dispatch_queue ≡ s.dispatch_queue
  unfolding start start_threads
  start-queue e host port addresses s = ground arith

  pub stop-queue : (s : Session F) → (stop s).dispatch_queue ≡ s.dispatch_queue
  unfolding stop
  stop-queue s = refl
