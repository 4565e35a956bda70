-- ===== src/OrderEntry.antt =====
-- order_entry/order-fix/application.cpp: the interface to a venue over FIX 4.2. The FIX library, the
-- UUID library and the code that is generated from common/proto are parameters; a FIX message is
-- the fields that are set in it, a protobuf message what its getters return.
pub mod Orders
pub mod Reports
pub mod Echo
pub mod Routing
pub mod Sends
pub mod Sample
mod Tests
use system_k_dev.Base.{
  ℕ, ◌≡◌, ◌≢◌, Bool, Option, none, some, List, [], ◌∷◌, ◌==◌, if◌then◌else◌, length, replicate,
}
use system_k_dev.Route.{Bytes, uuid_len}
use system_k_dev.Broker.{Frame}

-- Of the FIX library: the characters of sides and of times in force, the current time, and how a
-- time is written.
pub record FixOps (T : Type 0) : Type 0 where
  pub side_buy : ℕ
  pub side_sell : ℕ
  pub time_in_force_day : ℕ
  pub time_in_force_ioc : ℕ
  pub time_in_force_fok : ℕ
  pub convert : T → Bytes

-- The characters differ, as the FIX protocol has it.
pub record FixLaws {T : Type 0} (o : FixOps T) : Type 0 where
  pub buy-sell : o.side_buy ≢ o.side_sell
  pub day-ioc : o.time_in_force_day ≢ o.time_in_force_ioc
  pub day-fok : o.time_in_force_day ≢ o.time_in_force_fok
  pub ioc-fok : o.time_in_force_ioc ≢ o.time_in_force_fok

-- uuid_unparse and uuid_parse; `none` where the latter does not return 0.
pub record UuidOps : Type 0 where
  pub unparse : Bytes → Bytes
  pub parse : Bytes → Option Bytes

pub record UuidLaws (u : UuidOps) : Type 0 where
  pub parse-unparse : (id : Bytes) → length id ≡ uuid_len → u.parse (u.unparse id) ≡ some id

pub data Side : Type 0 where
  bid ask : Side

-- The values of the enumerations of capk_globals.proto that the code names.
abbrev pub lim : ℕ
lim = 2

abbrev pub gfd : ℕ
gfd = 0

abbrev pub ioc : ℕ
ioc = 3

abbrev pub fok : ℕ
fok = 4

-- The messages of the strategies. A sfixed32 is its bits.
pub record NewOrder (F : Type 0) : Type 0 where
  pub cl_order_id : Bytes
  pub strategy_id : Bytes
  pub symbol : Bytes
  pub side : Side
  pub order_qty : F
  pub ord_type : ℕ
  pub price : F
  pub time_in_force : ℕ
  pub account : Bytes
  pub venue_id : ℕ

pub record OrderCancel (F : Type 0) : Type 0 where
  pub orig_order_id : Bytes
  pub cl_order_id : Bytes
  pub symbol : Bytes
  pub side : Side
  pub order_qty : F

pub record OrderCancelReplace (F : Type 0) : Type 0 where
  pub orig_order_id : Bytes
  pub cl_order_id : Bytes
  pub symbol : Bytes
  pub side : Side
  pub order_qty : F
  pub ord_type : ℕ
  pub price : F
  pub time_in_force : ℕ

pub record OrderStatus : Type 0 where
  pub order_id : Bytes
  pub cl_order_id : Bytes
  pub symbol : Bytes
  pub side : Side

-- execution_report.proto and order_cancel_reject.proto, with the fields that were set.
pub record ExecReport (F : Type 0) : Type 0 where
  pub cl_order_id : Option Bytes
  pub orig_cl_order_id : Option Bytes
  pub exec_id : Option Bytes
  pub exec_trans_type : Option ℕ
  pub order_status : Option ℕ
  pub exec_type : Option ℕ
  pub symbol : Option Bytes
  pub security_type : Option Bytes
  pub side : Option Side
  pub order_qty : Option F
  pub ord_type : Option ℕ
  pub price : Option F
  pub last_shares : Option F
  pub last_price : Option F
  pub leaves_qty : Option F
  pub cum_qty : Option F
  pub avg_price : Option F
  pub time_in_force : Option ℕ
  pub transact_time : Option Bytes
  pub exec_inst : Option Bytes
  pub handl_inst : Option ℕ
  pub order_reject_reason : Option ℕ
  pub min_qty : Option F
  pub account : Option Bytes
  pub exec_ref_id : Option Bytes
  pub exec_restatement_reason : Option ℕ
  pub venue_id : ℕ

pub record CancelReject : Type 0 where
  pub orig_cl_order_id : Option Bytes
  pub cl_order_id : Option Bytes
  pub order_status : Option ℕ
  pub cancel_reject_reason : Option ℕ
  pub cancel_reject_response_to : Option ℕ
  pub cancel_reject_text : Option Bytes

-- ParseFromArray and SerializeToArray of the generated classes.
pub record Codec (F : Type 0) : Type 0 where
  pub parse_new_order : Bytes → Option (NewOrder F)
  pub parse_cancel : Bytes → Option (OrderCancel F)
  pub parse_replace : Bytes → Option (OrderCancelReplace F)
  pub parse_status : Bytes → Option OrderStatus
  pub parse_report : Bytes → Option (ExecReport F)
  pub write_new_order : NewOrder F → Bytes
  pub write_report : ExecReport F → Bytes
  pub write_cancel_reject : CancelReject → Bytes

-- The messages to the venue. A side or a time in force that is `none` was left as the default
-- constructor makes it.
pub record NewOrderSingle42 (F T : Type 0) : Type 0 where
  pub cl_ord_id : Bytes
  pub handl_inst : ℕ
  pub symbol : Bytes
  pub side : ℕ
  pub transact_time : T
  pub ord_type : ℕ
  pub order_qty : F
  pub time_in_force : ℕ
  pub price : F
  pub account : Option Bytes
  pub currency : Option Bytes

pub record OrderCancelRequest42 (F T : Type 0) : Type 0 where
  pub orig_cl_ord_id : Bytes
  pub cl_ord_id : Bytes
  pub symbol : Bytes
  pub side : ℕ
  pub transact_time : T
  pub order_qty : F

pub record OrderCancelReplaceRequest42 (F T : Type 0) : Type 0 where
  pub orig_cl_ord_id : Bytes
  pub cl_ord_id : Bytes
  pub handl_inst : ℕ
  pub symbol : Bytes
  pub side : ℕ
  pub transact_time : T
  pub ord_type : ℕ
  pub time_in_force : Option ℕ
  pub order_qty : F
  pub price : F

pub record OrderStatusRequest42 : Type 0 where
  pub cl_ord_id : Bytes
  pub symbol : Bytes
  pub side : ℕ
  pub order_id : Bytes

pub data FixMessage (F T : Type 0) : Type 0 where
  new_order_single : NewOrderSingle42 F T → FixMessage F T
  order_cancel_request : OrderCancelRequest42 F T → FixMessage F T
  order_cancel_replace_request : OrderCancelReplaceRequest42 F T → FixMessage F T
  order_status_request : OrderStatusRequest42 → FixMessage F T

-- The messages of the venue, with the fields that are set.
pub record ExecutionReport42 (F T : Type 0) : Type 0 where
  pub cl_ord_id : Option Bytes
  pub orig_cl_ord_id : Option Bytes
  pub exec_id : Option Bytes
  pub exec_trans_type : Option ℕ
  pub ord_status : Option ℕ
  pub exec_type : Option ℕ
  pub symbol : Option Bytes
  pub security_type : Option Bytes
  pub side : Option ℕ
  pub order_qty : Option F
  pub ord_type : Option ℕ
  pub price : Option F
  pub last_shares : Option F
  pub last_px : Option F
  pub leaves_qty : Option F
  pub cum_qty : Option F
  pub avg_px : Option F
  pub time_in_force : Option ℕ
  pub transact_time : Option T
  pub exec_inst : Option Bytes
  pub handl_inst : Option ℕ
  pub ord_rej_reason : Option ℕ
  pub min_qty : Option F
  pub account : Option Bytes
  pub exec_ref_id : Option Bytes
  pub exec_restatement_reason : Option ℕ

pub record OrderCancelReject42 : Type 0 where
  pub orig_cl_ord_id : Option Bytes
  pub cl_ord_id : Option Bytes
  pub ord_status : Option ℕ
  pub cxl_rej_reason : Option ℕ
  pub cxl_rej_response_to : Option ℕ
  pub text : Option Bytes

-- The configuration, with what the setters of the application set; `handl_inst21` is a char.
pub record Config : Type 0 where
  pub version : ℕ
  pub venue_id : ℕ
  pub sender_comp_id : Bytes
  pub target_comp_id : Bytes
  pub account1 : Bytes
  pub handl_inst21 : ℕ
  pub use_currency15 : Bool
  pub limit_order_char40 : ℕ

-- `fix_out` are the messages that were handed to the FIX library, each with its sender and its
-- target, `serialization` the frames to the serialization service.
pub record Application (F T : Type 0) : Type 0 where
  pub config : Config
  pub fix_out : List (Bytes × Bytes × FixMessage F T)
  pub serialization : List Frame

-- An id that `set` was not given in sixteen bytes, or that `parse` has not read.
abbrev pub no_id : Bytes
no_id = replicate uuid_len 0
