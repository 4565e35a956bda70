-- ===== src/OrderEntry/Orders.antt =====
-- order_entry/order-fix/application.cpp: what the strategies send goes to the venue.
use system_k_dev.Base.{
  ℕ, ◌%◌, true, false, Option, none, some, [], ◌∷◌, ◌++◌, ◌==◌, if◌then◌else◌, length, take,
}
use system_k_dev.Route.{Bytes, uuid_len}
use system_k_dev.Route.Cache.{le_bytes}
use system_k_dev.Packet.{c_str}
use system_k_dev.Broker.Turns.{Turn, done, fails, ◌>>=◌}
use system_k_dev.Broker.{set_id, order_new, order_cancel, order_replace, size_of_type}
use system_k_dev.OrderEntry.{
  FixOps, UuidOps, Side, bid, ask, lim, gfd, ioc, fok, NewOrder, OrderCancel, OrderCancelReplace,
  OrderStatus, Codec, FixMessage, new_order_single, order_cancel_request,
  order_cancel_replace_request, order_status_request, Config, Application,
}

abbrev pub order_status : ℕ
order_status = 4

-- The asserted `set` of an id.
unfoldable pub checked_id : Bytes → Turn Bytes
checked_id id = if length id == uuid_len then done id else fails

-- The message on the way to the serialization service.
unfoldable pub send_to_serialization_service :
    {F T : Type 0} (strategy_id : Bytes) (type : ℕ) (body : Bytes)
    → Application F T
    → Application F T
send_to_serialization_service strategy_id type body a = record a {
  serialization =
      a.serialization
      ++ ((strategy_id, true) ∷ ((le_bytes size_of_type type, true) ∷ ((body, false) ∷ [])));
}

module _ {F T : Type 0} (o : FixOps T) (u : UuidOps) (c : Codec F) where
  unfoldable pub fix_side : Side → ℕ
  fix_side bid = o.side_buy
  fix_side ask = o.side_sell

  -- The int that is no limit order becomes a char.
  unfoldable pub fix_ord_type : Config → ℕ → ℕ
  fix_ord_type config t = if t == lim then config.limit_order_char40 else t % 256

  unfoldable pub fix_time_in_force : ℕ → ℕ
  fix_time_in_force t =
      if t == gfd
      then o.time_in_force_day
      else if t == ioc
      then o.time_in_force_ioc
      else if t == fok
      then o.time_in_force_fok
      else o.time_in_force_day

  unfoldable pub replace_time_in_force : ℕ → Option ℕ
  replace_time_in_force t =
      if t == gfd
      then some o.time_in_force_day
      else if t == ioc
      then some o.time_in_force_ioc
      else none

  -- FIX::Session::sendToTarget; what it returns is only logged.
  unfoldable pub send_to_target : FixMessage F T → Application F T → Application F T
  send_to_target m a = record a {
    fix_out = a.fix_out ++ ((a.config.sender_comp_id, a.config.target_comp_id, m) ∷ []);
  }

  unfoldable pub new_order_single42 :
      (now : T) → NewOrder F → Application F T → Turn (Application F T)
  unfolding checked_id fix_side fix_ord_type fix_time_in_force send_to_target
  new_order_single42 now nos a = do
    sid ← checked_id nos.strategy_id
    cloid ← checked_id nos.cl_order_id
    done (
        send_to_serialization_service sid order_new (c.write_new_order nos) (
          send_to_target
            (new_order_single (record {
              cl_ord_id = u.unparse cloid;
              handl_inst = a.config.handl_inst21;
              symbol = c_str nos.symbol;
              side = fix_side nos.side;
              transact_time = now;
              ord_type = fix_ord_type a.config nos.ord_type;
              order_qty = nos.order_qty;
              time_in_force = fix_time_in_force nos.time_in_force;
              price = nos.price;
              account = if length a.config.account1 == 0 then none else some a.config.account1;
              currency = if a.config.use_currency15 then some (take 3 (c_str nos.symbol)) else none;
            }))
            a))

  unfoldable pub order_cancel_replace42 :
      (now : T) → OrderCancelReplace F → Application F T → Turn (Application F T)
  unfolding checked_id fix_side fix_ord_type replace_time_in_force send_to_target
  order_cancel_replace42 now ocr a = do
    origoid ← checked_id ocr.orig_order_id
    clordid ← checked_id ocr.cl_order_id
    done (
        send_to_target
          (order_cancel_replace_request (record {
            orig_cl_ord_id = u.unparse origoid;
            cl_ord_id = u.unparse clordid;
            handl_inst = a.config.handl_inst21;
            symbol = c_str ocr.symbol;
            side = fix_side ocr.side;
            transact_time = now;
            ord_type = fix_ord_type a.config ocr.ord_type;
            time_in_force = replace_time_in_force ocr.time_in_force;
            order_qty = ocr.order_qty;
            price = ocr.price;
          }))
          a)

  unfoldable pub order_cancel42 : (now : T) → OrderCancel F → Application F T → Application F T
  unfolding fix_side send_to_target
  order_cancel42 now oc a =
      send_to_target
        (order_cancel_request (record {
          orig_cl_ord_id = u.unparse (set_id oc.orig_order_id);
          cl_ord_id = u.unparse (set_id oc.cl_order_id);
          symbol = c_str oc.symbol;
          side = fix_side oc.side;
          transact_time = now;
          order_qty = oc.order_qty;
        }))
        a

  unfoldable pub order_status42 : OrderStatus → Application F T → Application F T
  unfolding fix_side send_to_target
  order_status42 os a =
      send_to_target
        (order_status_request (record {
          cl_ord_id = u.unparse (set_id os.cl_order_id);
          symbol = c_str os.symbol;
          side = fix_side os.side;
          order_id = u.unparse (set_id os.order_id);
        }))
        a

  -- The cases of the switch. Those of a cancel, a replace and a status have their `break` only where
  -- the message was parsed.
  unfoldable pub dispatch_status : Bytes → Application F T → Turn (Application F T)
  unfolding order_status42
  dispatch_status payload a = elim (c.parse_status payload) [
    | none ↦ done a
    | some os ↦ if a.config.version == 42 then done (order_status42 os a) else done a
  ]

  unfoldable pub dispatch_replace : (now : T) → Bytes → Application F T → Turn (Application F T)
  unfolding order_cancel_replace42 dispatch_status
  dispatch_replace now payload a = elim (c.parse_replace payload) [
    | none ↦ dispatch_status payload a
    | some ocr ↦ if a.config.version == 42 then order_cancel_replace42 now ocr a else done a
  ]

  unfoldable pub dispatch_cancel : (now : T) → Bytes → Application F T → Turn (Application F T)
  unfolding order_cancel42 dispatch_replace
  dispatch_cancel now payload a = elim (c.parse_cancel payload) [
    | none ↦ dispatch_replace now payload a
    | some oc ↦ if a.config.version == 42 then done (order_cancel42 now oc a) else done a
  ]

  unfoldable pub dispatch :
      (now : T) (type : ℕ) (payload : Bytes) → Application F T → Turn (Application F T)
  unfolding new_order_single42 dispatch_cancel dispatch_replace dispatch_status
  dispatch now type payload a =
      if type == order_new
      then elim (c.parse_new_order payload) [
        | none ↦ done a
        | some nos ↦ if a.config.version == 42 then new_order_single42 now nos a else done a
      ]
      else if type == order_cancel
      then dispatch_cancel now payload a
      else if type == order_replace
      then dispatch_replace now payload a
      else if type == order_status
      then dispatch_status payload a
      else done a
