-- ===== src/Broker/Refine/Run.antt =====
-- order_entry/order-fix/msg_processor.cpp: the loop of the broker does on frames what Broker/Spec
-- says, round after round.
use mathlib.Core.List.{append-nil}
use system_k_dev.Base.{
  ℕ, ◌≡◌, refl, sym, ◌∙◌, ap, ap₂, subst, Bool, true, Option, none, some, List, [], ◌∷◌, ◌++◌,
  Option-cases, List-cases, inl, inr, if◌then◌else◌,
}
use system_k_dev.Route.{Route}
use system_k_dev.Broker.Turns.{Turn, done, fails, ◌>>=◌}
use system_k_dev.Broker.Maps.{MapOps, MapLaws}
use system_k_dev.Broker.{
  OrderInfo, Broker, deleted_strategy, deleted_order, handle_incoming_client_message, rcv_internal,
  is_ready, arrive, poll_round, Poll, ready, stopped, run,
}
use system_k_dev.Broker.Frames.{envelopes-append, requests-append}
use system_k_dev.Broker.Spec.{
  Envelope, StrategyMessage, Router, handle, answer, reply, reply_if, send_to, turn, Round, turns,
  helo_ack, beat_ack, Request, helo, beat, order, frames_of, envelopes, requests,
}
use system_k_dev.Broker.Refine.{hop, AllSound, AllNamed, Implements, Ends}
use system_k_dev.Broker.Refine.Keep.{taken}
use system_k_dev.Broker.Refine.Answer.{answer-Implements}
use system_k_dev.Broker.Refine.Outgoing.{rcv_internal-eq, rcv_internal-orphan}

AllSound-append : (ms ns : List StrategyMessage) → AllSound ms → AllSound ns → AllSound (ms ++ ns)
AllSound-append [] ns h k = k
AllSound-append (m ∷ ms) ns (h, hs) k = (h, AllSound-append ms ns hs k)

AllNamed-append : (es fs : List Envelope) → AllNamed es → AllNamed fs → AllNamed (es ++ fs)
AllNamed-append [] fs h k = k
AllNamed-append (e ∷ es) fs (h, hs) k = (h, AllNamed-append es fs hs k)

-- The same rounds as the broker sees them, then a request to stop.
abbrev pub polls : List Round → List Poll
polls [] = stopped ∷ []
polls ((opens, u, ms, es) ∷ rounds) = ready opens u (requests ms) (envelopes es) ∷ polls rounds

abbrev pub AreSound : List Round → Type 0
AreSound [] = Unit
AreSound ((opens, u, ms, es) ∷ rounds) = AllSound ms × AllNamed es × AreSound rounds

module _ {M N : Type 0} (maps : MapOps M Route) (orders : MapOps N OrderInfo)
    (laws : MapLaws maps deleted_strategy) (order_laws : MapLaws orders deleted_order)
    (venue_id : ℕ) where
  abbrev pub Stands : Router → Broker M N → Type 0
  Stands = Implements maps orders laws order_laws venue_id

  pub arrive-Implements :
      (r : Router) (b : Broker M N) (ms : List StrategyMessage) (es : List Envelope)
      → AllSound ms
      → AllNamed es
      → Stands r b
      → Stands
          (record r { inbox = r.inbox ++ ms; queue = r.queue ++ es })
          (arrive maps orders (requests ms) (envelopes es) b)
  unfolding arrive
  arrive-Implements r b ms es sound named v = record {
    venue = v.venue;
    legal = v.legal;
    legal_orders = v.legal_orders;
    routes = v.routes;
    sized = v.sized;
    known = v.known;
    inbox = ap (λ x. x ++ requests ms) v.inbox ∙ sym (requests-append r.inbox ms);
    queue = ap (λ x. x ++ envelopes es) v.queue ∙ sym (envelopes-append r.queue es);
    out = v.out;
    calls = v.calls;
    sound = AllSound-append r.inbox ms v.sound sound;
    named = AllNamed-append r.queue es v.named named;
  }

  -- The half of a round that handles a message of a strategy.
  abbrev incoming : (opens : Bool) (u : ℕ) → Broker M N → Turn (Broker M N)
  incoming opens u b =
      if is_ready b.strategy_msgs
      then handle_incoming_client_message maps orders opens u b
      else done b

  incoming-Implements :
      (opens : Bool) (u : ℕ) (r : Router) (b : Broker M N)
      → Stands r b
      → Ends maps orders laws order_laws venue_id (incoming opens u b) (handle venue_id u r.inbox r)
  incoming-Implements opens u r b v = elim (List-cases r.inbox) [
    | inl e ↦
        let empty : b.strategy_msgs ≡ [] = v.inbox ∙ ap requests e in
        (
          b,
          ap
              (λ fs.
                if is_ready fs
                then handle_incoming_client_message maps orders opens u b
                else done b)
              empty,
          subst (λ ms. Stands (handle venue_id u ms r) b) (sym e) v,
        )
    | inr (m, ms, e) ↦
        let full = v.inbox ∙ ap requests e in
        let (w, sound) = taken maps orders laws order_laws venue_id r b v m ms e in
        let (b', ends, w') =
          answer-Implements maps orders laws order_laws venue_id opens u m.request m.address m.sid r
            b ms sound full w in
        (
          b',
          ap
                (λ fs.
                  if is_ready fs
                  then handle_incoming_client_message maps orders opens u b
                  else done b)
                full
              ∙ ends,
          subst (λ l. Stands (handle venue_id u l r) b') (sym e) w',
        )
  ]

  -- The half that sends a message, where there was one at the call of poll; the other half has only
  -- put messages behind it.
  abbrev outgoing : (was_ready : Bool) → Broker M N → Turn (Broker M N)
  outgoing was_ready b = if was_ready then rcv_internal maps orders b else done b

  -- A round has ended as the router's, or fails where the router has no address for a message.
  abbrev pub Agrees : Turn (Broker M N) → Option Router → Type 0
  Agrees t none = t ≡ fails
  Agrees t (some r) = Ends maps orders laws order_laws venue_id t r

  reply-Agrees :
      (r : Router) (b : Broker M N) (e : Envelope) (es : List Envelope)
      → r.queue ≡ e ∷ es
      → Stands r b
      → Agrees (rcv_internal maps orders b) (reply (e ∷ es) r)
  reply-Agrees r b e es q v =
      let (i, rest) = subst AllNamed q v.named in
      let full = v.queue ∙ ap envelopes q in
      elim (Option-cases (r.routes e.head)) [
        | inl unknown ↦
            subst (λ o. Agrees (rcv_internal maps orders b) (send_to o e es r)) (sym unknown)
              (rcv_internal-orphan maps orders laws order_laws venue_id b e.head
                (frames_of e.first e.others ++ envelopes es) i (v.routes e.head i ∙ ap hop unknown)
                full)
        | inr (address, known) ↦
            subst (λ o. Agrees (rcv_internal maps orders b) (send_to o e es r)) (sym known)
              (
                _,
                rcv_internal-eq maps orders laws order_laws venue_id b e.head address e.first
                    e.others (envelopes es) i (v.sized e.head address known)
                    (v.routes e.head i ∙ ap hop known) full,
                record {
                  venue = v.venue;
                  legal = v.legal;
                  legal_orders = v.legal_orders;
                  routes = v.routes;
                  sized = v.sized;
                  known = v.known;
                  inbox = v.inbox;
                  queue = refl;
                  out =
                      ap₂ ◌++◌ v.out
                        (sym (append-nil ((address, true) ∷ frames_of e.first e.others)))
                      ∙ sym (envelopes-append r.out (record e { head = address } ∷ []));
                  calls = v.calls;
                  sound = v.sound;
                  named = rest;
                },
              )
      ]

  -- A message in the queue stays there, first, while a message of a strategy is handled.
  handle-queue :
      (u : ℕ) (r : Router) (ms : List StrategyMessage) (e : Envelope) (es : List Envelope)
      → r.queue ≡ e ∷ es
      → (fs : List Envelope) × ((handle venue_id u ms r).queue ≡ e ∷ fs)
  handle-queue u r [] e es q = (es, q)
  handle-queue u r (m ∷ ms) e es q = after m.request
    where
      grown : (x : Envelope) → (fs : List Envelope) × ((r.queue ++ (x ∷ [])) ≡ e ∷ fs)
      grown x = (es ++ (x ∷ []), ap (λ l. l ++ (x ∷ [])) q)

      after :
          (x : Request)
          → (fs : List Envelope) × ((answer venue_id u x m.address m.sid
                (record r { inbox = ms })).queue
              ≡ e ∷ fs)
      after helo = grown (helo_ack venue_id m.sid)
      after beat = grown (beat_ack m.sid)
      after (order type oid payload) = (es, q)

  outgoing-Agrees :
      (u : ℕ) (r : Router) (b b1 : Broker M N) (before : List Envelope)
      → r.queue ≡ before
      → b.inproc ≡ envelopes before
      → Stands (handle venue_id u r.inbox r) b1
      → Agrees (outgoing (is_ready b.inproc) b1) (reply_if before (handle venue_id u r.inbox r))
  outgoing-Agrees u r b b1 [] q e v =
      subst (λ fs. Agrees (outgoing (is_ready fs) b1) (some (handle venue_id u r.inbox r))) (sym e)
        (b1, refl, v)
  outgoing-Agrees u r b b1 (x ∷ xs) q e v =
      let r2 = handle venue_id u r.inbox r in
      let (fs, q2) = handle-queue u r r.inbox x xs q in
      subst (λ gs. Agrees (outgoing (is_ready gs) b1) (reply r2.queue r2)) (sym e)
        (subst (λ l. Agrees (rcv_internal maps orders b1) (reply l r2)) (sym q2)
          (reply-Agrees r2 b1 x fs q2 v))

  -- A round of the loop does what the router does in a turn.
  pub poll_round-Agrees :
      (opens : Bool) (u : ℕ) (r : Router) (b : Broker M N) (ms : List StrategyMessage)
      (es : List Envelope)
      → AllSound ms
      → AllNamed es
      → Stands r b
      → Agrees
          (poll_round maps orders opens u (arrive maps orders (requests ms) (envelopes es) b))
          (turn venue_id u ms es r)
  unfolding poll_round
  poll_round-Agrees opens u r b ms es sound named v =
      let r1 = record r { inbox = r.inbox ++ ms; queue = r.queue ++ es } in
      let b1 = arrive maps orders (requests ms) (envelopes es) b in
      let v1 = arrive-Implements r b ms es sound named v in
      let (b2, ends, v2) = incoming-Implements opens u r1 b1 v1 in
      subst (λ t. Agrees (t >>= λ c. outgoing (is_ready b1.inproc) c) (turn venue_id u ms es r))
        (sym ends) (outgoing-Agrees u r1 b1 b2 r1.queue refl v1.queue v2)

  -- The loop returns 0 where the router reaches an end, with a broker that stands for it, and fails
  -- where a message of the router has no address.
  abbrev pub Finishes : Turn (ℕ × Broker M N) → Option Router → Type 0
  Finishes t none = t ≡ fails
  Finishes t (some r) = (b' : Broker M N) × (t ≡ done (0, b')) × Stands r b'

  -- From a broker that stands for a router, whatever sound messages of strategies and whatever
  -- messages for strategies come in the rounds of `run` until it is stopped: `run` returns 0, with a
  -- broker that stands for the router after the same rounds, or fails an assertion, exactly when the
  -- router finds a message for a strategy that never said hello at the head of its queue.
  pub run-Finishes :
      (rounds : List Round) (r : Router) (b : Broker M N)
      → AreSound rounds
      → Stands r b
      → Finishes (run maps orders (polls rounds) b) (turns venue_id rounds r)
  unfolding run
  run-Finishes [] r b sound v = (b, refl, v)
  run-Finishes ((opens, u, ms, es) ∷ rounds) r b (sound, named, others) v =
      next (turn venue_id u ms es r)
        (poll_round maps orders opens u (arrive maps orders (requests ms) (envelopes es) b))
        (poll_round-Agrees opens u r b ms es sound named v)
        (λ r' b' w. run-Finishes rounds r' b' others w)
    where
      next :
          (o : Option Router) (t : Turn (Broker M N))
          → Agrees t o
          → ((r' : Router) (b' : Broker M N)
              → Stands r' b'
              → Finishes (run maps orders (polls rounds) b') (turns venue_id rounds r'))
          → Finishes
              (t >>= λ b'. run maps orders (polls rounds) b')
              (elim o [ none ↦ none | some r' ↦ turns venue_id rounds r' ])
      next none t e later = rw e refl
      next (some r') t (b', e, w) later =
          subst
            (λ x. Finishes (x >>= λ c. run maps orders (polls rounds) c) (turns venue_id rounds r'))
            (sym e) (later r' b' w)
