-- ===== src/OrderEntry/Sample.antt =====
-- order_entry/order-fix/application.cpp: an order, its report and a codec, for the examples.
use system_k_dev.Base.{ℕ, refl, true, some, none, [], ◌∷◌, replicate, arith}
use system_k_dev.Route.{Bytes}
use system_k_dev.OrderEntry.{
  FixOps, FixLaws, UuidOps, UuidLaws, ask, fok, NewOrder, OrderCancelReplace, Codec,
  ExecutionReport42, Application,
}

-- Prices and quantities are numbers, a time is its text.
abbrev pub fix : FixOps Bytes
fix = record {
  side_buy = 49;
  side_sell = 50;
  time_in_force_day = 48;
  time_in_force_ioc = 51;
  time_in_force_fok = 52;
  convert = λ t. t;
}

pub fix_laws : FixLaws fix
fix_laws = record {
  buy-sell = ground arith;
  day-ioc = ground arith;
  day-fok = ground arith;
  ioc-fok = ground arith;
}

-- The text of an id is the id.
abbrev pub uuid : UuidOps
uuid = record { unparse = λ id. id; parse = λ text. some text }

abbrev pub uuid_laws : UuidLaws uuid
uuid_laws = record { parse-unparse = λ id l. refl }

abbrev pub sid : Bytes
sid = replicate 16 3

abbrev pub oid : Bytes
oid = replicate 16 9

abbrev pub oid2 : Bytes
oid2 = replicate 16 8

abbrev pub sell : NewOrder ℕ
sell = record {
  cl_order_id = oid;
  strategy_id = sid;
  symbol = 69 ∷ 85 ∷ 82 ∷ 85 ∷ [];
  side = ask;
  order_qty = 2;
  ord_type = 2;
  price = 130;
  time_in_force = fok;
  account = [];
  venue_id = 7;
}

abbrev pub change : OrderCancelReplace ℕ
change = record {
  orig_order_id = oid;
  cl_order_id = oid2;
  symbol = 69 ∷ 85 ∷ 82 ∷ 85 ∷ [];
  side = ask;
  order_qty = 3;
  ord_type = 2;
  price = 131;
  time_in_force = fok;
}

-- Whatever comes is the order or the change.
abbrev pub codec : Codec ℕ
codec = record {
  parse_new_order = λ payload. some sell;
  parse_cancel = λ payload. none;
  parse_replace = λ payload. some change;
  parse_status = λ payload. none;
  parse_report = λ payload. none;
  write_new_order = λ nos. nos.cl_order_id;
  write_report = λ er. er.venue_id ∷ [];
  write_cancel_reject = λ ocr. [];
}

abbrev pub application : Application ℕ Bytes
application = record {
  config = record {
    version = 42;
    venue_id = 7;
    sender_comp_id = 75 ∷ [];
    target_comp_id = 86 ∷ [];
    account1 = [];
    handl_inst21 = 49;
    use_currency15 = true;
    limit_order_char40 = 70;
  };
  fix_out = [];
  serialization = [];
}

abbrev pub now : Bytes
now = 50 ∷ 48 ∷ []

abbrev pub report : ExecutionReport42 ℕ Bytes
report = record {
  cl_ord_id = some oid;
  orig_cl_ord_id = none;
  exec_id = some (49 ∷ []);
  exec_trans_type = some 48;
  ord_status = some 50;
  exec_type = some 50;
  symbol = some (69 ∷ 85 ∷ 82 ∷ 85 ∷ []);
  security_type = none;
  side = some 50;
  order_qty = some 2;
  ord_type = some 70;
  price = some 130;
  last_shares = some 2;
  last_px = some 130;
  leaves_qty = some 0;
  cum_qty = some 2;
  avg_px = some 130;
  time_in_force = some 52;
  transact_time = some now;
  exec_inst = none;
  handl_inst = none;
  ord_rej_reason = none;
  min_qty = none;
  account = none;
  exec_ref_id = none;
  exec_restatement_reason = none;
}
