-- ===== src/OrderEntry/Reports.antt =====
-- order_entry/order-fix/application.cpp: what the venue sends goes to the strategies, by way of the
-- broker.
use system_k_dev.Base.{ℕ, true, false, Option, none, some, List, [], ◌∷◌, ◌==◌, if◌then◌else◌}
use system_k_dev.Route.{Bytes}
use system_k_dev.Route.Cache.{le_bytes}
use system_k_dev.Broker.Turns.{Turn, done, fails, ◌>>=◌}
use system_k_dev.Broker.Maps.{MapOps}
use system_k_dev.Broker.{Frame, OrderInfo, size_of_type}
use system_k_dev.OrderEntry.{
  FixOps, UuidOps, Side, bid, ask, gfd, ioc, fok, ExecReport, CancelReject, Codec,
  ExecutionReport42, OrderCancelReject42, Application, no_id,
}
use system_k_dev.OrderEntry.Orders.{send_to_serialization_service}

abbrev pub exec_rpt : ℕ
exec_rpt = 176

abbrev pub order_cancel_rej : ℕ
order_cancel_rej = 6

-- The frames to the broker: the strategy, the type, the message.
abbrev pub reply_frames : (sid : Bytes) (type : ℕ) (body : Bytes) → List Frame
reply_frames sid type body =
    (sid, true) ∷ ((le_bytes size_of_type type, true) ∷ ((body, false) ∷ []))

module _ {F T : Type 0} (o : FixOps T) (u : UuidOps) (c : Codec F) where
  -- An id that is set is parsed, and the result is asserted.
  unfoldable pub asserted_id : Option Bytes → Turn (Option Bytes)
  asserted_id none = done none
  asserted_id (some text) = elim (u.parse text) [ none ↦ fails | some id ↦ done (some id) ]

  -- An id whose parsing is not tested stays zero where it fails.
  unfoldable pub parsed_id : Option Bytes → Option Bytes
  parsed_id none = none
  parsed_id (some text) = some (elim (u.parse text) [ none ↦ no_id | some id ↦ id ])

  unfoldable pub proto_side : Option ℕ → Option Side
  proto_side none = none
  proto_side (some s) =
      if s == o.side_sell then some ask else if s == o.side_buy then some bid else none

  -- A later test of the three overwrites an earlier one.
  unfoldable pub proto_time_in_force : Option ℕ → Option ℕ
  proto_time_in_force none = none
  proto_time_in_force (some t) =
      if t == o.time_in_force_ioc
      then some ioc
      else if t == o.time_in_force_fok
      then some fok
      else if t == o.time_in_force_day
      then some gfd
      else none

  abbrev pub converted : Option T → Option Bytes
  converted none = none
  converted (some t) = some (o.convert t)

  -- The message to the strategy.
  unfoldable pub exec_report :
      (venue_id : ℕ) (cl_order_id : Option Bytes) → ExecutionReport42 F T → ExecReport F
  unfolding parsed_id proto_side proto_time_in_force
  exec_report venue_id cl_order_id m = record {
    cl_order_id = cl_order_id;
    orig_cl_order_id = parsed_id m.orig_cl_ord_id;
    exec_id = m.exec_id;
    exec_trans_type = m.exec_trans_type;
    order_status = m.ord_status;
    exec_type = m.exec_type;
    symbol = m.symbol;
    security_type = m.security_type;
    side = proto_side m.side;
    order_qty = m.order_qty;
    ord_type = m.ord_type;
    price = m.price;
    last_shares = m.last_shares;
    last_price = m.last_px;
    leaves_qty = m.leaves_qty;
    cum_qty = m.cum_qty;
    avg_price = m.avg_px;
    time_in_force = proto_time_in_force m.time_in_force;
    transact_time = converted m.transact_time;
    exec_inst = m.exec_inst;
    handl_inst = m.handl_inst;
    order_reject_reason = m.ord_rej_reason;
    min_qty = m.min_qty;
    account = m.account;
    exec_ref_id = m.exec_ref_id;
    exec_restatement_reason = m.exec_restatement_reason;
    venue_id = venue_id;
  }

  abbrev pub id_or_none : Option Bytes → Bytes
  id_or_none none = no_id
  id_or_none (some id) = id

  module _ {N : Type 0} (orders : MapOps N OrderInfo) where
    -- KOrderCache::get, and the strategy of what it returns; the id stays zero for an order that is
    -- not known.
    unfoldable pub strategy_of : (cloid : Bytes) → N → Bytes
    strategy_of cloid ocache = elim (orders.find cloid ocache) [
      | none ↦ no_id
      | some info ↦ info.sid
    ]

    -- `ocache` is that of the message processor; without one nothing is sent. The frames go to the
    -- broker.
    unfoldable pub on_execution_report :
        (ocache : Option N)
        → ExecutionReport42 F T
        → Application F T
        → Turn (List Frame × Application F T)
    unfolding asserted_id exec_report strategy_of
    on_execution_report ocache m a = do
      cloid ← asserted_id m.cl_ord_id
      let er = exec_report a.config.venue_id cloid m
      elim ocache [
        | none ↦ done ([], a)
        | some n ↦
            let sid = strategy_of (id_or_none cloid) n in
            done (
              reply_frames sid exec_rpt (c.write_report er),
              send_to_serialization_service sid exec_rpt (c.write_report er) a,
            )
      ]

    unfoldable pub on_order_cancel_reject :
        (ocache : Option N) → OrderCancelReject42 → Turn (List Frame)
    unfolding asserted_id strategy_of
    on_order_cancel_reject ocache m = do
      origcloid ← asserted_id m.orig_cl_ord_id
      cloid ← asserted_id m.cl_ord_id
      let ocr : CancelReject = record {
        orig_cl_order_id = origcloid;
        cl_order_id = cloid;
        order_status = m.ord_status;
        cancel_reject_reason = m.cxl_rej_reason;
        cancel_reject_response_to = m.cxl_rej_response_to;
        cancel_reject_text = m.text;
      }
      elim ocache [
        | none ↦ done []
        | some n ↦ done (
            reply_frames (strategy_of (id_or_none cloid) n) order_cancel_rej
              (c.write_cancel_reject ocr))
      ]
