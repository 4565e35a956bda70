-- ===== src/OrderEntry/Tests.antt =====
-- A venue and two codecs for the examples: an order for two, and a cancel that is none.
use system_k_dev.Base.{ℕ, ◌≡◌, refl, sym, true, false, none, some, List, [], ◌∷◌, replicate, inl}
use system_k_dev.Route.{Bytes, Route, bytes_eq}
use system_k_dev.Route.Cache.{le_bytes}
use system_k_dev.Packet.{c_str}
use system_k_dev.Broker.Turns.{done}
use system_k_dev.Broker.Maps.{MapOps, MapLaws, is_id}
use system_k_dev.Broker.Assoc.{Assoc, assoc, assoc-laws}
use system_k_dev.Broker.{
  Frame, OrderInfo, Broker, deleted_strategy, deleted_order, arrive, poll_round,
}
use system_k_dev.Broker.Spec.{StrategyMessage, order, Router, update, requests}
use system_k_dev.Broker.Frames.{one_hop}
use system_k_dev.Broker.Refine.{Implements, hop-if, sized-if}
use system_k_dev.Broker.Restart.{just_started}
use system_k_dev.OrderEntry.{
  ExecReport, NewOrderSingle42, new_order_single, ExecutionReport42, OrderCancelReject42,
  Application,
}
use system_k_dev.OrderEntry.Sample.{
  fix, fix_laws, uuid, uuid_laws, sid, oid, oid2, sell, codec, application, now, report,
}
use system_k_dev.OrderEntry.Orders.{dispatch, new_order_single42, send_to_serialization_service}
use system_k_dev.OrderEntry.Reports.{
  exec_rpt, order_cancel_rej, asserted_id, on_order_cancel_reject, reply_frames, exec_report,
  strategy_of, on_execution_report,
}
use system_k_dev.OrderEntry.Echo.{Echoes, Matches, report-order}
use system_k_dev.OrderEntry.Routing.{quiet, order-report}
use system_k_dev.OrderEntry.Sends.{Sends, dispatch-Sends}

abbrev routes : MapOps (Assoc Route) Route
routes = assoc

abbrev order_map : MapOps (Assoc OrderInfo) OrderInfo
order_map = assoc

abbrev route_laws : MapLaws routes deleted_strategy
route_laws = assoc-laws deleted_strategy

abbrev order_laws : MapLaws order_map deleted_order
order_laws = assoc-laws deleted_order

abbrev known : Assoc OrderInfo
known = (oid, record { oid = oid; sid = sid; status = 0 }) ∷ []

-- The message to the venue.
abbrev single : NewOrderSingle42 ℕ Bytes
single = record {
  cl_ord_id = oid;
  handl_inst = 49;
  symbol = 69 ∷ 85 ∷ 82 ∷ 85 ∷ [];
  side = 50;
  transact_time = now;
  ord_type = 70;
  order_qty = 2;
  time_in_force = 52;
  price = 130;
  account = none;
  currency = some (69 ∷ 85 ∷ 82 ∷ []);
}

abbrev after_sale : Application ℕ Bytes
after_sale = record application {
  fix_out = (75 ∷ [], 86 ∷ [], new_order_single single) ∷ [];
  serialization = (sid, true) ∷ ((1 ∷ 0 ∷ 0 ∷ 0 ∷ [], true) ∷ ((oid, false) ∷ []));
}

sold : dispatch fix uuid codec now 1 [] application ≡ done after_sale
unfolding dispatch send_to_serialization_service c_str le_bytes
sold = refl

dispatch-Sends_example : Sends fix uuid codec 1 application after_sale
dispatch-Sends_example = dispatch-Sends fix uuid codec now 1 [] application after_sale sold

report-order_example :
    (s : NewOrderSingle42 ℕ Bytes) × (a' : Application ℕ Bytes) × (new_order_single42 fix uuid codec
        now sell application
      ≡ done a')
    × (a'.fix_out ≡ (75 ∷ [], 86 ∷ [], new_order_single s) ∷ [])
    × ((m : ExecutionReport42 ℕ Bytes)
        → Echoes m s
        → (er : ExecReport ℕ) × (a2 : Application ℕ Bytes) × (on_execution_report fix uuid codec
              order_map
              (some known)
              m
              a'
            ≡ done (
              reply_frames
                  (strategy_of fix uuid codec order_map oid known)
                  exec_rpt
                  (er.venue_id ∷ []),
              a2,
            ))
          × Matches er sell)
report-order_example =
    report-order fix uuid codec fix_laws uuid_laws order_map known now sell application refl refl

abbrev address : Bytes
address = replicate 17 5

abbrev sale : StrategyMessage
sale = record { address = address; sid = sid; request = order 1 oid [] }

-- A broker and a router that know one address.
abbrev greeted : Broker (Assoc Route) (Assoc OrderInfo)
greeted = record {
  venue_id = 7;
  scache = (sid, one_hop address) ∷ [];
  ocache = [];
  strategy_file = none;
  strategy_msgs = [];
  inproc = [];
  sent = [];
  dispatched = [];
}

abbrev router : Router
router = just_started (update sid address (λ s. none))

router-greeted : Implements routes order_map route_laws order_laws 7 (quiet router) greeted
unfolding is_id bytes_eq
router-greeted = record {
  venue = refl;
  legal = route_laws.legal-insert sid (one_hop address) [] route_laws.legal-new refl;
  legal_orders = order_laws.legal-new;
  routes = λ k i. sym (hop-if (bytes_eq sid k) address none);
  sized = λ k x. sized-if (bytes_eq sid k) address x none refl λ e. cc;
  known = λ k i. refl;
  inbox = refl;
  queue = refl;
  out = refl;
  calls = refl;
  sound = tt;
  named = tt;
}

-- A cancel of another order was too late.
abbrev too_late : OrderCancelReject42
too_late = record {
  orig_cl_ord_id = some oid2;
  cl_ord_id = some oid;
  ord_status = some 50;
  cxl_rej_reason = some 0;
  cxl_rej_response_to = some 49;
  text = none;
}

order-report_example :
    (b1 : Broker (Assoc Route) (Assoc OrderInfo)) × (poll_round routes order_map true 4
        (arrive routes order_map (requests (sale ∷ [])) [] greeted)
      ≡ done b1)
    × (b1.dispatched ≡ (1, []) ∷ [])
    × ((b2 : Broker (Assoc Route) (Assoc OrderInfo)) × (gs : List Frame) × (a' : Application ℕ
          Bytes)
        × (on_execution_report fix uuid codec order_map (some b1.ocache) report application
            ≡ done (gs, a'))
        × (poll_round routes order_map true 0 (arrive routes order_map [] gs b1) ≡ done b2)
        × (b2.sent ≡ reply_frames address exec_rpt (7 ∷ [])))
    × ((b2 : Broker (Assoc Route) (Assoc OrderInfo)) × (gs : List Frame) × (on_order_cancel_reject
            fix uuid codec order_map
            (some b1.ocache)
            too_late
          ≡ done gs)
        × (poll_round routes order_map true 0 (arrive routes order_map [] gs b1) ≡ done b2)
        × (b2.sent ≡ reply_frames address order_cancel_rej []))
unfolding is_id bytes_eq exec_report asserted_id
order-report_example =
    order-report fix uuid codec uuid_laws routes order_map route_laws order_laws 7 true true 4 0 1
      address sid oid [] address router greeted report too_late (some oid2) application
      (refl, refl, (inl refl, refl)) refl refl refl refl router-greeted
