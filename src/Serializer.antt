-- ===== src/Serializer.antt =====
-- trade_serializer/trade_serializer.cpp: what the order entry sends is recorded in the tables of
-- schema.sql. The database is a parameter, as is what its documentation says of the statements.
pub mod Laws
pub mod Filled
pub mod Statuses
pub mod Rejected
mod Table
mod Tests
use system_k_dev.Base.{
  ℕ, ◌+◌, ◌-◌, ◌%◌, ◌^◌, ◌≡◌, Bool, true, false, ◌&&◌, ◌||◌, Option, none, some, List, [], ◌∷◌,
  ◌++◌, ◌==◌, ltb, if◌then◌else◌, length,
}
use system_k_dev.Book.Limit.{Timespec}
use system_k_dev.Time.{timespec2int64}
use system_k_dev.Route.{Bytes, uuid_len}
use system_k_dev.Packet.{c_str}
use system_k_dev.Broker.Turns.{Turn, done, waits, fails, ◌>>=◌}
use system_k_dev.Broker.{Frame, order_new, size_of_type, set_id, type_of, recv}
use system_k_dev.OrderEntry.{UuidOps, Side, bid, ask, NewOrder, ExecReport, Codec, no_id}
use system_k_dev.OrderEntry.Reports.{exec_rpt}

-- The characters of the statuses that the code names.
abbrev pub ord_status_new : ℕ
ord_status_new = 48

abbrev pub ord_status_partial_fill : ℕ
ord_status_partial_fill = 49

abbrev pub ord_status_fill : ℕ
ord_status_fill = 50

abbrev pub ord_status_cancelled : ℕ
ord_status_cancelled = 52

abbrev pub ord_status_replace : ℕ
ord_status_replace = 53

abbrev pub ord_status_pending_cancel : ℕ
ord_status_pending_cancel = 54

abbrev pub ord_status_rejected : ℕ
ord_status_rejected = 56

abbrev pub ord_status_pending_new : ℕ
ord_status_pending_new = 65

abbrev pub ord_status_pending_replace : ℕ
ord_status_pending_replace = 69

-- A row of order_state, with the columns that are inserted; an original id that is not is NULL.
pub record OrderRow (F : Type 0) : Type 0 where
  pub strategy_id : Bytes
  pub cl_order_id : Bytes
  pub orig_cl_order_id : Option Bytes
  pub order_status : ℕ
  pub symbol : Bytes
  pub side : ℕ
  pub order_qty : F
  pub ord_type : ℕ
  pub price : F
  pub time_in_force : ℕ
  pub venue_id : ℕ
  pub account : Bytes
  pub current_time_timespec : ℕ

-- A row of trades.
pub record TradeRow (F : Type 0) : Type 0 where
  pub strategy_id : Bytes
  pub cl_order_id : Bytes
  pub orig_cl_order_id : Bytes
  pub exec_id : Bytes
  pub exec_trans_type : ℕ
  pub order_status : ℕ
  pub exec_type : ℕ
  pub symbol : Bytes
  pub security_type : Bytes
  pub side : ℕ
  pub order_qty : F
  pub ord_type : ℕ
  pub price : F
  pub last_shares : F
  pub last_price : F
  pub leaves_qty : F
  pub cum_qty : F
  pub avg_price : F
  pub time_in_force : ℕ
  pub transact_time : Bytes
  pub exec_inst : Bytes
  pub handl_inst : ℕ
  pub order_reject_reason : ℕ
  pub min_qty : F
  pub current_time_timespec : ℕ
  pub venue_id : ℕ
  pub account : Bytes

-- A statement that was executed and committed, or one that threw an SQLException: while it was
-- prepared, or later. What a later exception leaves is up to the database: where `commit` throws the
-- statement has been executed, and may be pending.
pub data Sql {ℓ} (A : Type ℓ) : Type ℓ where
  executed : A → Sql A
  unprepared : Sql A
  refused : A → Sql A

-- The three statements on the connection. An update says how many rows it has changed, with 0 where
-- this was not told before an exception.
pub record Connection (D F : Type 0) : Type 0 where
  pub insert_order : OrderRow F → D → Sql D
  pub update_status : (status : ℕ) (strategy_id cl_order_id : Bytes) → D → Sql (ℕ × D)
  pub insert_trade : TradeRow F → D → Sql D

-- handleOrders: the strategy id of the last message, the frames that have come and were not
-- received, and the database.
pub record Serializer (D : Type 0) : Type 0 where
  pub strategy_id : Bytes
  pub frames : List Frame
  pub database : D

-- A field that is not set has a default value.
unfoldable pub or_default {ℓ} : {A : Type ℓ} → A → Option A → A
or_default d none = d
or_default d (some a) = a

-- An exception is only logged.
unfoldable pub kept {ℓ} : {A : Type ℓ} → Sql A → A → A
kept (executed a) old = a
kept unprepared old = old
kept (refused a) old = a

unfoldable pub side_number : Side → ℕ
side_number bid = 1
side_number ask = 2

-- An int that was cast to char, as the bits of an int; a char is signed.
unfoldable pub char_int : ℕ → ℕ
char_int x = if ltb (x % 256) 128 then x % 256 else 2 ^ 32 - 256 + x % 256

-- `zero` is 0.0.
module _ {D F : Type 0} (sql : Connection D F) (u : UuidOps) (c : Codec F) (zero : F) where
  unfoldable pub insert_trade : (now : Timespec) (strategy_id : Bytes) (er : ExecReport F) → D → D
  unfolding or_default kept side_number char_int
  insert_trade now strategy_id er d =
      kept
        (sql.insert_trade
          (record {
            strategy_id = u.unparse strategy_id;
            cl_order_id = u.unparse (set_id (or_default [] er.cl_order_id));
            orig_cl_order_id = u.unparse (set_id (or_default [] er.orig_cl_order_id));
            exec_id = c_str (or_default [] er.exec_id);
            exec_trans_type = char_int (or_default 0 er.exec_trans_type);
            order_status = char_int (or_default 0 er.order_status);
            exec_type = char_int (or_default 0 er.exec_type);
            symbol = c_str (or_default [] er.symbol);
            security_type = c_str (or_default [] er.security_type);
            side = side_number (or_default bid er.side);
            order_qty = or_default zero er.order_qty;
            ord_type = or_default 0 er.ord_type;
            price = or_default zero er.price;
            last_shares = or_default zero er.last_shares;
            last_price = or_default zero er.last_price;
            leaves_qty = or_default zero er.leaves_qty;
            cum_qty = or_default zero er.cum_qty;
            avg_price = or_default zero er.avg_price;
            time_in_force = or_default 0 er.time_in_force;
            transact_time = c_str (or_default [] er.transact_time);
            exec_inst = c_str (or_default [] er.exec_inst);
            handl_inst = or_default 0 er.handl_inst;
            order_reject_reason = or_default 0 er.order_reject_reason;
            min_qty = or_default zero er.min_qty;
            current_time_timespec = timespec2int64 now;
            venue_id = er.venue_id;
            account = c_str (or_default [] er.account);
          })
          d)
        d

  -- `sql_prepared_statement` has no initial value, and is deleted whatever happens.
  unfoldable pub set_order_status :
      (strategy_id cl_order_id : Bytes) (ord_status : ℕ) → D → Turn (ℕ × D)
  set_order_status strategy_id cl_order_id ord_status d =
      elim (sql.update_status ord_status (u.unparse strategy_id) (u.unparse cl_order_id) d) [
        | executed (n, d') ↦ done (n, d')
        | unprepared ↦ fails
        | refused (n, d') ↦ done (n, d')
      ]

  -- The order that replaces another, from its report.
  unfoldable pub insert_replaced :
      (now : Timespec) (strategy_id : Bytes) (er : ExecReport F) → D → D
  unfolding or_default kept side_number
  insert_replaced now strategy_id er d =
      kept
        (sql.insert_order
          (record {
            strategy_id = u.unparse strategy_id;
            cl_order_id = u.unparse (set_id (or_default [] er.cl_order_id));
            orig_cl_order_id = some (u.unparse (set_id (or_default [] er.orig_cl_order_id)));
            order_status = ord_status_new;
            symbol = c_str (or_default [] er.symbol);
            side = side_number (or_default bid er.side);
            order_qty = or_default zero er.order_qty;
            ord_type = or_default 0 er.ord_type;
            price = or_default zero er.price;
            time_in_force = or_default 0 er.time_in_force;
            venue_id = er.venue_id;
            account = c_str (or_default [] er.account);
            current_time_timespec = timespec2int64 now;
          })
          d)
        d

  -- The row of a new order.
  unfoldable pub new_row : (now : Timespec) (strategy_id : Bytes) → NewOrder F → OrderRow F
  unfolding side_number
  new_row now strategy_id nos = record {
    strategy_id = u.unparse strategy_id;
    cl_order_id = u.unparse (set_id nos.cl_order_id);
    orig_cl_order_id = none;
    order_status = ord_status_new;
    symbol = c_str nos.symbol;
    side = side_number nos.side;
    order_qty = nos.order_qty;
    ord_type = nos.ord_type;
    price = nos.price;
    time_in_force = nos.time_in_force;
    venue_id = nos.venue_id;
    account = c_str nos.account;
    current_time_timespec = timespec2int64 now;
  }

  unfoldable pub insert_order : (now : Timespec) (strategy_id : Bytes) → NewOrder F → D → D
  unfolding new_row kept
  insert_order now strategy_id nos d = kept (sql.insert_order (new_row now strategy_id nos) d) d

  -- The number of rows that are changed is only logged.
  unfoldable pub update_order :
      (now : Timespec) (strategy_id : Bytes) (er : ExecReport F) → D → Turn D
  unfolding or_default insert_trade set_order_status insert_replaced
  update_order now strategy_id er d =
      let cl_order_id = set_id (or_default [] er.cl_order_id) in
      let orig_cl_order_id : Bytes = elim er.orig_cl_order_id [
        | none ↦ no_id
        | some id ↦ set_id id
      ] in
      let status = or_default 0 er.order_status in
      if (status == ord_status_new)
        || ((status == ord_status_pending_cancel)
            || ((status == ord_status_pending_replace) || (status == ord_status_pending_new)))
      then done d
      else if status == ord_status_replace
      then (do
        (n, d') ←
            set_order_status strategy_id orig_cl_order_id ord_status_cancelled
              (insert_replaced now strategy_id er d)
        done d')
      else if (status == ord_status_cancelled) || (status == ord_status_rejected)
      then (do (n, d') ← set_order_status strategy_id orig_cl_order_id status d; done d')
      else if status == ord_status_fill
      then (do
        (n, d') ← set_order_status strategy_id cl_order_id status d
        done (insert_trade now strategy_id er d'))
      else if status == ord_status_partial_fill
      then done (insert_trade now strategy_id er d)
      else done d

  -- An asserted parse.
  unfoldable pub parsed {ℓ} : {A : Type ℓ} → Option A → Turn A
  parsed none = fails
  parsed (some a) = done a

  -- A message: an id that is not set leaves that of the message before. The int that is read from
  -- a shorter frame is undefined.
  unfoldable pub handle_message : (now : Timespec) → Serializer D → Turn (Serializer D)
  unfolding insert_order update_order parsed
  handle_message now s = do
    (sidframe, fs) ← recv s.frames
    (msg_type, fs) ← recv fs
    (body, fs) ← recv fs
    let sid = if length sidframe.0 == uuid_len then sidframe.0 else s.strategy_id
    let s' = record s { strategy_id = sid; frames = fs }
    if ltb (length msg_type.0) size_of_type
        then fails
        else if type_of msg_type.0 == order_new
        then (do
          nos ← parsed (c.parse_new_order body.0)
          done (record s' { database = insert_order now sid nos s.database }))
        else if type_of msg_type.0 == exec_rpt
        then (do
          er ← parsed (c.parse_report body.0)
          d' ← update_order now sid er s.database
          done (record s' { database = d' }))
        else done s'

  -- Messages, with the time at each.
  unfoldable pub handle_orders : List Timespec → Serializer D → Turn (Serializer D)
  unfolding handle_message
  handle_orders [] s = done s
  handle_orders (now ∷ times) s = do s' ← handle_message now s; handle_orders times s'
