-- ===== src/OrderEntry/Routing.antt =====
-- order_entry/order-fix/application.cpp and msg_processor.cpp: the report on an order comes back to
-- the strategy that made it.
use system_k_dev.Base.{
  ℕ, ◌≡◌, refl, sym, ◌∙◌, ap, subst, Bool, true, Option, some, List, [], ◌∷◌, ◌++◌, ◌==◌, ==_iff,
  length, and-true,
}
use system_k_dev.Route.{Bytes, Route, uuid_len}
use system_k_dev.Route.Spec.{bytes_eq_self}
use system_k_dev.Route.Cache.{le_bytes}
use system_k_dev.Broker.Turns.{done, >>=-done}
use system_k_dev.Broker.Maps.{MapOps, MapLaws, is_id}
use system_k_dev.Broker.{
  Frame, OrderInfo, Broker, size_of_type, deleted_strategy, deleted_order, arrive, poll_round,
}
use system_k_dev.Broker.Frames.{envelopes-append}
use system_k_dev.Broker.Spec.{
  Envelope, order, Router, send_to, update, IsSound, envelopes, requests,
}
use system_k_dev.Broker.Refine.{Implements}
use system_k_dev.Broker.Refine.Run.{Agrees, poll_round-Agrees}
use system_k_dev.OrderEntry.{
  FixOps, UuidOps, UuidLaws, Codec, ExecutionReport42, OrderCancelReject42, CancelReject,
  Application,
}
use system_k_dev.OrderEntry.Orders.{send_to_serialization_service}
use system_k_dev.OrderEntry.Reports.{
  exec_rpt, reply_frames, exec_report, strategy_of, on_execution_report, asserted_id,
  order_cancel_rej, on_order_cancel_reject,
}
use system_k_dev.OrderEntry.Echo.{asserted_id-then}

-- A router with no message waiting.
abbrev pub quiet : Router → Router
quiet r = record r { inbox = []; queue = [] }

is_id-length : (c : ℕ) (k : Bytes) → is_id c k ≡ true → length k ≡ uuid_len
unfolding is_id
is_id-length c k h = (==_iff (length k) uuid_len).0 (and-true (length k == uuid_len) _ h).0

-- The message to the strategy on a reject.
abbrev pub reject_of : (orig : Option Bytes) (oid : Bytes) → OrderCancelReject42 → CancelReject
reject_of orig oid m = record {
  orig_cl_order_id = orig;
  cl_order_id = some oid;
  order_status = m.ord_status;
  cancel_reject_reason = m.cxl_rej_reason;
  cancel_reject_response_to = m.cxl_rej_response_to;
  cancel_reject_text = m.text;
}

module _ {F T M N : Type 0} (o : FixOps T) (u : UuidOps) (c : Codec F) (uuids : UuidLaws u)
    (maps : MapOps M Route) (orders : MapOps N OrderInfo) (laws : MapLaws maps deleted_strategy)
    (order_laws : MapLaws orders deleted_order) (venue_id : ℕ) where
  known-strategy_of :
      (oid sid : Bytes) (n : N) (info : OrderInfo)
      → info.sid ≡ sid
      → orders.find oid n ≡ some info
      → strategy_of o u c orders oid n ≡ sid
  unfolding strategy_of
  known-strategy_of oid sid n info same found = rw (strategy_of, found) same

  -- What the interface sends to a broker with nothing else to do goes to the address of its strategy.
  reply-delivered :
      (opens : Bool) (status type : ℕ) (sid home body : Bytes) (r : Router) (b : Broker M N)
      → is_id deleted_strategy sid ≡ true
      → r.routes sid ≡ some home
      → Implements maps orders laws order_laws venue_id (quiet r) b
      → (b' : Broker M N) × (poll_round maps orders opens status
            (arrive maps orders [] (reply_frames sid type body) b)
          ≡ done b')
        × (b'.sent ≡ b.sent ++ reply_frames home type body)
  reply-delivered opens status type sid home body r b named known v =
      let e : Envelope = record {
        head = sid;
        first = le_bytes size_of_type type;
        others = body ∷ [];
      } in
      let arrived =
        poll_round maps orders opens status (arrive maps orders [] (envelopes (e ∷ [])) b) in
      let (b', ends, v') =
        subst
          (λ x.
            Agrees maps orders laws order_laws venue_id arrived
              (send_to x e [] (record r { inbox = []; queue = e ∷ [] })))
          known
          (poll_round-Agrees maps orders laws order_laws venue_id opens status (quiet r) b []
            (e ∷ []) tt (named, tt) v) in
      (
        b',
        ends,
        v'.out
            ∙ envelopes-append r.out (record e { head = home } ∷ [])
            ∙ ap (λ l. l ++ reply_frames home type body) (sym v.out),
      )

  -- A sound message with an order, a cancel or a replace, that comes from the strategy `sid` to a
  -- broker with nothing else to do, is handed to the interface in one round. Whatever report, or
  -- reject of a cancel with a readable original id or none, the venue then sends with the order's
  -- id, the interface sends it to the broker, and in the next round the broker sends it, and nothing
  -- else, to the address that the strategy last said hello from.
  pub order-report :
      (opens opens2 : Bool) (status status2 type : ℕ) (address sid oid payload home : Bytes)
      (r : Router) (b : Broker M N) (report : ExecutionReport42 F T) (reject : OrderCancelReject42)
      (orig : Option Bytes) (a : Application F T)
      → IsSound (record { address = address; sid = sid; request = order type oid payload })
      → r.routes sid ≡ some home
      → report.cl_ord_id ≡ some (u.unparse oid)
      → reject.cl_ord_id ≡ some (u.unparse oid)
      → asserted_id o u c reject.orig_cl_ord_id ≡ done orig
      → Implements maps orders laws order_laws venue_id (quiet r) b
      → (b1 : Broker M N) × (poll_round maps orders opens status (
            arrive maps orders
              (requests
                (record { address = address; sid = sid; request = order type oid payload } ∷ []))
              []
              b)
          ≡ done b1)
        × (b1.dispatched ≡ b.dispatched ++ ((type, payload) ∷ []))
        × ((b2 : Broker M N) × (gs : List Frame) × (a' : Application F T) × (on_execution_report o u
                c orders
                (some b1.ocache)
                report
                a
              ≡ done (gs, a'))
            × (poll_round maps orders opens2 status2 (arrive maps orders [] gs b1) ≡ done b2)
            × (b2.sent
                ≡ b.sent
                  ++ reply_frames home exec_rpt
                      (c.write_report (exec_report o u c a.config.venue_id (some oid) report))))
        × ((b2 : Broker M N) × (gs : List Frame) × (on_order_cancel_reject o u c orders
                (some b1.ocache)
                reject
              ≡ done gs)
            × (poll_round maps orders opens2 status2 (arrive maps orders [] gs b1) ≡ done b2)
            × (b2.sent
                ≡ b.sent
                  ++ reply_frames home order_cancel_rej
                      (c.write_cancel_reject (reject_of orig oid reject))))
  unfolding on_execution_report on_order_cancel_reject
  order-report opens opens2 status status2 type address sid oid payload home r b report reject orig
        a (sized, named, (kind, legal)) known same same2 read v =
      let body = c.write_report (exec_report o u c a.config.venue_id (some oid) report) in
      let body2 = c.write_cancel_reject (reject_of orig oid reject) in
      let info : OrderInfo = record { oid = oid; sid = sid; status = status } in
      let size = is_id-length deleted_order oid legal in
      let r1 : Router = record (quiet r) {
        orders = update oid info r.orders;
        dispatched = r.dispatched ++ ((type, payload) ∷ []);
      } in
      let (b1, ends, v1) =
        poll_round-Agrees maps orders laws order_laws venue_id opens status (quiet r) b
          (record { address = address; sid = sid; request = order type oid payload } ∷ []) []
          ((sized, named, (kind, legal)), tt) tt v in
      let found : orders.find oid b1.ocache ≡ some info =
        v1.known oid legal ∙ rw (bytes_eq_self oid) refl in
      let by = known-strategy_of oid sid b1.ocache info refl found in
      let sent = v1.out ∙ sym v.out in
      let (b2, ends2, out2) =
        reply-delivered opens2 status2 exec_rpt sid home body r1 b1 named known v1 in
      let (b3, ends3, out3) =
        reply-delivered opens2 status2 order_cancel_rej sid home body2 r1 b1 named known v1 in
      (
        b1,
        ends,
        v1.calls ∙ ap (λ l. l ++ ((type, payload) ∷ [])) (sym v.calls),
        (
          b2,
          reply_frames sid exec_rpt body,
          _,
          asserted_id-then o u c uuids _ report.cl_ord_id oid same size
              ∙ ap
                  (λ x.
                    done (
                      reply_frames x exec_rpt body,
                      send_to_serialization_service x exec_rpt body a,
                    ))
                  by,
          ends2,
          out2 ∙ ap (λ l. l ++ reply_frames home exec_rpt body) sent,
        ),
        (
          b3,
          reply_frames sid order_cancel_rej body2,
          >>=-done _ (asserted_id o u c reject.orig_cl_ord_id) orig read
              ∙ asserted_id-then o u c uuids _ reject.cl_ord_id oid same2 size
              ∙ ap (λ x. done (reply_frames x order_cancel_rej body2)) by,
          ends3,
          out3 ∙ ap (λ l. l ++ reply_frames home order_cancel_rej body2) sent,
        ),
      )
