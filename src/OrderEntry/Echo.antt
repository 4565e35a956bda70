-- ===== src/OrderEntry/Echo.antt =====
-- order_entry/order-fix/application.cpp: a report that repeats the fields of an order tells the
-- strategy what it has ordered.
use system_k_dev.Base.{
  ℕ, ◌≡◌, refl, ◌∙◌, ap, Option, some, [], ◌∷◌, ◌++◌, ◌==◌, if◌then◌else◌, length, arith,
}
use system_k_dev.Route.{Bytes, uuid_len}
use system_k_dev.Packet.{c_str}
use system_k_dev.Broker.Turns.{Turn, done, ◌>>=◌}
use system_k_dev.Broker.Maps.{MapOps}
use system_k_dev.Broker.{OrderInfo}
use system_k_dev.OrderEntry.{
  FixOps, FixLaws, UuidOps, UuidLaws, Side, bid, ask, gfd, ioc, fok, NewOrder, ExecReport, Codec,
  NewOrderSingle42, new_order_single, ExecutionReport42, Application,
}
use system_k_dev.OrderEntry.Orders.{
  checked_id, send_to_serialization_service, fix_side, fix_time_in_force, send_to_target,
  new_order_single42,
}
use system_k_dev.OrderEntry.Reports.{
  exec_rpt, reply_frames, asserted_id, proto_side, proto_time_in_force, exec_report, strategy_of,
  on_execution_report,
}

-- A time in force that the venue is not told of is a day.
abbrev pub effective : ℕ → ℕ
effective t = if t == ioc then ioc else if t == fok then fok else gfd

-- The report has the fields of the order to the venue.
pub record Echoes {F T : Type 0} (m : ExecutionReport42 F T) (s : NewOrderSingle42 F T)
    : Type 0 where
  pub cl_ord_id : m.cl_ord_id ≡ some s.cl_ord_id
  pub symbol : m.symbol ≡ some s.symbol
  pub side : m.side ≡ some s.side
  pub order_qty : m.order_qty ≡ some s.order_qty
  pub price : m.price ≡ some s.price
  pub time_in_force : m.time_in_force ≡ some s.time_in_force

-- The report to the strategy has those of its order.
pub record Matches {F : Type 0} (er : ExecReport F) (nos : NewOrder F) : Type 0 where
  pub cl_order_id : er.cl_order_id ≡ some nos.cl_order_id
  pub symbol : er.symbol ≡ some (c_str nos.symbol)
  pub side : er.side ≡ some nos.side
  pub order_qty : er.order_qty ≡ some nos.order_qty
  pub price : er.price ≡ some nos.price
  pub time_in_force : er.time_in_force ≡ some (effective nos.time_in_force)

pub checked_id-then :
    {B : Type 0} (f : Bytes → Turn B) (id : Bytes)
    → length id ≡ uuid_len
    → (checked_id id >>= f) ≡ f id
unfolding checked_id
checked_id-then f id e = rw e refl

module _ {F T : Type 0} (o : FixOps T) (u : UuidOps) (c : Codec F) (uuids : UuidLaws u) where
  pub asserted_id-then :
      {B : Type 0} (f : Option Bytes → Turn B) (text : Option Bytes) (id : Bytes)
      → text ≡ some (u.unparse id)
      → length id ≡ uuid_len
      → (asserted_id o u c text >>= f) ≡ f (some id)
  unfolding asserted_id
  asserted_id-then f text id e l = rw (e, asserted_id, uuids.parse-unparse id l) refl

module _ {F T : Type 0} (o : FixOps T) (u : UuidOps) (c : Codec F) (laws : FixLaws o)
    (uuids : UuidLaws u) where
  proto_side-fix_side : (s : Side) → proto_side o u c (some (fix_side o u c s)) ≡ some s
  unfolding proto_side fix_side
  proto_side-fix_side bid = ground (arith, laws.buy-sell)
  proto_side-fix_side ask = ground arith

  proto_time_in_force-fix :
      (t : ℕ) → proto_time_in_force o u c (some (fix_time_in_force o u c t)) ≡ some (effective t)
  unfolding proto_time_in_force fix_time_in_force
  proto_time_in_force-fix t = ground (arith, laws.day-ioc, laws.day-fok, laws.ioc-fok)

  -- An order whose two ids have 16 bytes goes to the venue as one message; and whatever report the
  -- venue sends with the order's fields, it goes to the strategy that the broker knows for the id,
  -- with the id, the symbol, the side, the quantity and the price of the order, and with its time
  -- in force, which is a day where it was neither immediate nor fill or kill.
  pub report-order :
      {N : Type 0} (orders : MapOps N OrderInfo) (n : N) (now : T) (nos : NewOrder F)
      (a : Application F T)
      → length nos.strategy_id ≡ uuid_len
      → length nos.cl_order_id ≡ uuid_len
      → (s : NewOrderSingle42 F T) × (a' : Application F T) × (new_order_single42 o u c now nos a
          ≡ done a')
        × (a'.fix_out
            ≡ a.fix_out
              ++ ((a.config.sender_comp_id, a.config.target_comp_id, new_order_single s) ∷ []))
        × ((m : ExecutionReport42 F T)
            → Echoes m s
            → (er : ExecReport F) × (a2 : Application F T) × (on_execution_report o u c orders
                  (some n)
                  m
                  a'
                ≡ done (
                  reply_frames
                      (strategy_of o u c orders nos.cl_order_id n)
                      exec_rpt
                      (c.write_report er),
                  a2,
                ))
              × Matches er nos)
  unfolding new_order_single42 send_to_serialization_service send_to_target on_execution_report
      asserted_id exec_report
  report-order orders n now nos a e1 e2 = (
    _,
    _,
    checked_id-then _ nos.strategy_id e1 ∙ checked_id-then _ nos.cl_order_id e2,
    refl,
    λ m e. (
      exec_report o u c a.config.venue_id (some nos.cl_order_id) m,
      _,
      asserted_id-then o u c uuids _ m.cl_ord_id nos.cl_order_id e.cl_ord_id e2,
      record {
        cl_order_id = refl;
        symbol = e.symbol;
        side = ap (proto_side o u c) e.side ∙ proto_side-fix_side nos.side;
        order_qty = e.order_qty;
        price = e.price;
        time_in_force =
            ap (proto_time_in_force o u c) e.time_in_force
            ∙ proto_time_in_force-fix nos.time_in_force;
      },
    ),
  )
