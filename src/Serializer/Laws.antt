-- ===== src/Serializer/Laws.antt =====
-- trade_serializer/trade_serializer.cpp and schema.sql: what the database is documented to do for
-- the three statements.
use system_k_dev.Base.{ℕ, ◌≡◌, Bool, ◌&&◌, Option, none, some, List, [], ◌∷◌, ◌++◌, if◌then◌else◌}
use system_k_dev.Route.{Bytes, bytes_eq}
use system_k_dev.OrderEntry.{UuidOps}
use system_k_dev.Serializer.{OrderRow, TradeRow, executed, Connection}

-- The columns of a row that stand in the table as they were given, whatever the server is set to.
pub record Recorded (F : Type 0) : Type 0 where
  pub order_status : ℕ
  pub side : ℕ
  pub order_qty : F
  pub price : F

pub record Trade (F : Type 0) : Type 0 where
  pub order_status : ℕ
  pub last_shares : F
  pub last_price : F

abbrev pub recorded : {F : Type 0} → OrderRow F → Recorded F
recorded r = record {
  order_status = r.order_status;
  side = r.side;
  order_qty = r.order_qty;
  price = r.price;
}

abbrev pub trade_of : {F : Type 0} → TradeRow F → Trade F
trade_of r = record {
  order_status = r.order_status;
  last_shares = r.last_shares;
  last_price = r.last_price;
}

abbrev pub with_status : {F : Type 0} → ℕ → Option (Recorded F) → Option (Recorded F)
with_status st none = none
with_status st (some r) = some (record r { order_status = st })

-- The text of an id is compared byte by byte.
abbrev pub same_key : UuidOps → (sid oid s o : Bytes) → Bool
same_key u sid oid s o =
    bytes_eq (u.unparse sid) (u.unparse s) && bytes_eq (u.unparse oid) (u.unparse o)

-- `order_at` is the row of order_state with the texts of two ids as its primary key, `trades` are
-- the rows of trades in the order in which they were inserted.
pub record ConnectionLaws {D F : Type 0} (sql : Connection D F) (u : UuidOps) : Type 0 where
  pub order_at : D → (sid oid : Bytes) → Option (Recorded F)
  pub trades : D → List (Trade F)
  pub insert_order-at :
      (r : OrderRow F) (sid oid s o : Bytes) (d d' : D)
      → r.strategy_id ≡ u.unparse sid
      → r.cl_order_id ≡ u.unparse oid
      → sql.insert_order r d ≡ executed d'
      → order_at d' s o ≡ (if same_key u sid oid s o then some (recorded r) else order_at d s o)
  pub insert_order-trades :
      (r : OrderRow F) (d d' : D) → sql.insert_order r d ≡ executed d' → trades d' ≡ trades d
  pub update_status-at :
      (st n : ℕ) (sid oid s o : Bytes) (d d' : D)
      → sql.update_status st (u.unparse sid) (u.unparse oid) d ≡ executed (n, d')
      → order_at d' s o
        ≡ (if same_key u sid oid s o then with_status st (order_at d s o) else order_at d s o)
  pub update_status-trades :
      (st n : ℕ) (x y : Bytes) (d d' : D)
      → sql.update_status st x y d ≡ executed (n, d')
      → trades d' ≡ trades d
  pub insert_trade-at :
      (r : TradeRow F) (s o : Bytes) (d d' : D)
      → sql.insert_trade r d ≡ executed d'
      → order_at d' s o ≡ order_at d s o
  pub insert_trade-trades :
      (r : TradeRow F) (d d' : D)
      → sql.insert_trade r d ≡ executed d'
      → trades d' ≡ trades d ++ (trade_of r ∷ [])

-- No statement throws, but for the insertion of a key that is there.
pub record Answers {D F : Type 0} (sql : Connection D F) (u : UuidOps) (laws : ConnectionLaws sql u)
    : Type 0 where
  pub insert_order :
      (r : OrderRow F) (sid oid : Bytes) (d : D)
      → r.strategy_id ≡ u.unparse sid
      → r.cl_order_id ≡ u.unparse oid
      → laws.order_at d sid oid ≡ none
      → (d' : D) × (sql.insert_order r d ≡ executed d')
  pub update_status :
      (st : ℕ) (x y : Bytes) (d : D)
      → (n : ℕ) × (d' : D) × (sql.update_status st x y d ≡ executed (n, d'))
  pub insert_trade : (r : TradeRow F) (d : D) → (d' : D) × (sql.insert_trade r d ≡ executed d')
