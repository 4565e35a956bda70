-- ===== src/Session/Dispatch/Once.antt =====
-- market_data/itch/Session.cpp: the pool handles the messages of the server, each of them once.
use mathlib.Core.List.{append_assoc, append-nil, Perm, perm_middle}
use mathlib.Core.List.Perm
use system_k_dev.Base.{◌≡◌, refl, sym, ◌∙◌, ap, subst, List, [], ◌∷◌, ◌++◌, ℕ, zero, suc, replicate}
use system_k_dev.Message.{Message}
use system_k_dev.Session.{dispatch_thread_pool_size, Session}
use system_k_dev.Session.Dispatch.Queue.{
  deliverable, deliverable-append, dispatch_server_message-queue, client_round-queue,
  send_message-queue, take_message-queue, server_waits-queue, start-queue, stop-queue,
}
use system_k_dev.Session.Dispatch.{
  System, Step, Reach, Worker, waiting, busy, ended, in_flight, server_test, server_ends,
  server_receives, server_waits, takes, finishes, worker_ends, heartbeats, calls, stop_requested,
  stops, starts, start_fails, AllEnded, here, next, started,
}

module _ {F : Type 0} where
  -- The messages are taken in the order of their arrival, and those taken are the ones that are
  -- handled and the ones in the hands of a thread, each of them once.
  pub record IsExact (x : System F) : Type 0 where
    pub in_order : deliverable x.arrived ≡ x.taken ++ x.session.dispatch_queue
    pub once : Perm x.taken (x.handled ++ in_flight x.pool)

  in_flight-append : (ws vs : List (Worker F)) → in_flight (ws ++ vs) ≡ in_flight ws ++ in_flight vs
  in_flight-append [] vs = refl
  in_flight-append (waiting ∷ ws) vs = in_flight-append ws vs
  in_flight-append (busy m ∷ ws) vs = ap (◌∷◌ m) (in_flight-append ws vs)
  in_flight-append (ended ∷ ws) vs = in_flight-append ws vs

  idle : (n : ℕ) → in_flight (replicate {A = Worker F} n waiting) ≡ []
  idle zero = refl
  idle (suc n) = idle n

  ended-idle : (ws : List (Worker F)) → AllEnded ws → in_flight ws ≡ []
  ended-idle [] h = refl
  ended-idle (waiting ∷ ws) h = absurd h
  ended-idle (busy m ∷ ws) h = absurd h
  ended-idle (ended ∷ ws) h = ended-idle ws h

  -- One item moved to the front.
  from_end : (m : Message F) (xs : List (Message F)) → Perm (xs ++ (m ∷ [])) (m ∷ xs)
  from_end m xs = subst (λ ys. Perm (xs ++ (m ∷ [])) (m ∷ ys)) (append-nil xs) (perm_middle xs [])

  from_middle :
      (m : Message F) (h b a : List (Message F)) → Perm (h ++ (b ++ (m ∷ a))) (m ∷ (h ++ (b ++ a)))
  from_middle m h b a =
      subst (λ ys. Perm ys (m ∷ (h ++ (b ++ a)))) (append_assoc h b (m ∷ a))
        (subst (λ ys. Perm ((h ++ b) ++ (m ∷ a)) (m ∷ ys)) (append_assoc h b a)
          (perm_middle (h ++ b) a))

  Step-IsExact : {x y : System F} → Step x y → IsExact x → IsExact y
  Step-IsExact (server_test at go) v = record { in_order = v.in_order; once = v.once }
  Step-IsExact (server_ends at stop) v = record { in_order = v.in_order; once = v.once }
  Step-IsExact {x} (server_receives e m at) v = record {
    in_order =
        deliverable-append x.arrived (m ∷ [])
        ∙ ap (λ ms. ms ++ deliverable (m ∷ [])) v.in_order
        ∙ append_assoc x.taken x.session.dispatch_queue (deliverable (m ∷ []))
        ∙ ap (λ q. x.taken ++ q) (sym (dispatch_server_message-queue e m x.session));
    once = v.once;
  }
  Step-IsExact {x} (server_waits e closed last_seen seen go_on s at run) v = record {
    in_order =
        v.in_order
        ∙ ap (λ q. x.taken ++ q) (server_waits-queue e closed last_seen seen go_on x.session s run);
    once = v.once;
  }
  Step-IsExact {x} (takes b a m s pool front) v = record {
    in_order =
        v.in_order
        ∙ ap (λ q. x.taken ++ q) (take_message-queue x.session s m front)
        ∙ sym (append_assoc x.taken (m ∷ []) s.dispatch_queue);
    once = Perm.trans (from_end m x.taken) (
        Perm.symm (
          Perm.trans
            (subst (λ f. Perm (x.handled ++ f) (m ∷ (x.handled ++ (in_flight b ++ in_flight a))))
              (sym (in_flight-append b (busy m ∷ a)))
              (from_middle m x.handled (in_flight b) (in_flight a)))
            (Perm.cons m (
              Perm.symm (
                subst (λ f. Perm x.taken (x.handled ++ f))
                  (ap in_flight pool ∙ in_flight-append b (waiting ∷ a)) v.once)))));
  }
  Step-IsExact {x} (finishes b a m pool) v = record {
    in_order = v.in_order;
    once =
        subst (λ f. Perm x.taken f)
          (sym (append_assoc x.handled (m ∷ []) (in_flight (b ++ (waiting ∷ a)))))
          (Perm.trans
            (subst (λ f. Perm x.taken (x.handled ++ f))
              (ap in_flight pool ∙ in_flight-append b (busy m ∷ a)) v.once)
            (Perm.trans (from_middle m x.handled (in_flight b) (in_flight a)) (
              Perm.symm (
                subst
                  (λ f.
                    Perm (x.handled ++ (m ∷ f)) (m ∷ (x.handled ++ (in_flight b ++ in_flight a))))
                  (sym (in_flight-append b (waiting ∷ a)))
                  (perm_middle x.handled (in_flight b ++ in_flight a))))));
  }
  Step-IsExact {x} (worker_ends b a pool empty stop) v = record {
    in_order = v.in_order;
    once =
        subst (λ f. Perm x.taken (x.handled ++ f))
          (ap in_flight pool
            ∙ in_flight-append b (waiting ∷ a)
            ∙ sym (in_flight-append b (ended ∷ a)))
          v.once;
  }
  Step-IsExact {x} (heartbeats e attempts hb s run) v = record {
    in_order =
        v.in_order
        ∙ ap (λ q. x.taken ++ q) (sym (client_round-queue e attempts hb x.session s run));
    once = v.once;
  }
  Step-IsExact {x} (calls t e attempts rest m sent s run) v = record {
    in_order =
        v.in_order
        ∙ ap (λ q. x.taken ++ q)
            (sym (send_message-queue t e attempts rest m sent x.session s run));
    once = v.once;
  }
  Step-IsExact stop_requested v = record { in_order = v.in_order; once = v.once }
  Step-IsExact {x} (stops at all stop) v = record {
    in_order = v.in_order ∙ ap (λ q. x.taken ++ q) (sym (stop-queue x.session));
    once = v.once;
  }
  Step-IsExact {x} (starts e host port addresses at all apart on) v = record {
    in_order =
        v.in_order ∙ ap (λ q. x.taken ++ q) (sym (start-queue e host port addresses x.session));
    once =
        subst (λ f. Perm x.taken (x.handled ++ f))
          (ended-idle x.pool all ∙ sym (idle dispatch_thread_pool_size)) v.once;
  }
  Step-IsExact {x} (start_fails e host port addresses at all apart off) v = record {
    in_order =
        v.in_order ∙ ap (λ q. x.taken ++ q) (sym (start-queue e host port addresses x.session));
    once = v.once;
  }

  Reach-IsExact : {x y : System F} → Reach x y → IsExact x → IsExact y
  Reach-IsExact here v = v
  Reach-IsExact (next r st) v = Step-IsExact st (Reach-IsExact r v)

  -- Whatever the order in which the threads of a session take their steps, and however often the
  -- session is stopped and started again, from a session with an empty queue: the messages that the pool has taken and those in the queue are, in order, all
  -- those that have arrived but the heartbeats; and the ones taken are those handled and those
  -- in the hands of a thread, each as often as it was taken.
  pub Reach-started-IsExact :
      (s : Session F) (y : System F) → s.dispatch_queue ≡ [] → Reach (started s) y → IsExact y
  unfolding started deliverable
  Reach-started-IsExact s y empty r = Reach-IsExact r (record {
    in_order = sym empty;
    once = subst (λ f. Perm [] f) (sym (idle dispatch_thread_pool_size)) (Perm.refl []);
  })
