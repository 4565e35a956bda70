-- ===== src/Message/Hotspot.antt =====
-- market_data/itch/msg/hotspotfx: the payload messages and how they are loaded.
pub mod Safe
pub mod Size
use system_k_dev.Base.{ℕ, ◌+◌, List, [], ◌∷◌, true}
use system_k_dev.Base.Int.{ℤ}
use system_k_dev.Packet.{
  TextOps, Reader, pure, ◌>>=◌, load_times, count_of, read_char, read_string, read_int, read_dbl,
  read_until_tlf,
}

pub record NewOrder (F : Type 0) : Type 0 where
  pub buy_or_sell : ℕ
  pub currency_pair : List ℕ
  pub order_id : List ℕ
  pub price : List ℕ
  pub amount : F
  pub min_qty : F
  pub lot_size : F

pub record ModifyOrder (F : Type 0) : Type 0 where
  pub currency_pair : List ℕ
  pub order_id : List ℕ
  pub amount : F
  pub min_qty : F
  pub lot_size : F

pub record CancelOrder : Type 0 where
  pub currency_pair : List ℕ
  pub order_id : List ℕ

pub record Ticker : Type 0 where
  pub buy_or_sell : ℕ
  pub currency_pair : List ℕ
  pub price : List ℕ
  pub transaction_date : List ℕ
  pub transaction_time : List ℕ

pub record Order (F : Type 0) : Type 0 where
  pub amount : F
  pub min_qty : F
  pub lot_size : F
  pub order_id : List ℕ

pub record BidOrOffer (F : Type 0) : Type 0 where
  pub bid_price : List ℕ
  pub orders : List (Order F)

pub record CurrencyPair (F : Type 0) : Type 0 where
  pub currency_pair : List ℕ
  pub bids : List (BidOrOffer F)
  pub offers : List (BidOrOffer F)

pub record MarketSnapshot (F : Type 0) : Type 0 where
  pub message_length : ℤ
  pub currency_pairs : List (CurrencyPair F)

-- The messages of the namespace, and the unsupported message.
pub data Payload (F : Type 0) : Type 0 where
  new_order_message : NewOrder F → Payload F
  modify_order_message : ModifyOrder F → Payload F
  cancel_order_message : CancelOrder → Payload F
  ticker_message : Ticker → Payload F
  market_snapshot_message : MarketSnapshot F → Payload F
  unsupported_payload : (type : ℕ) → (body : List ℕ) → Payload F

module _ {F : Type 0} (t : TextOps F) where
  pub load_new_order : Reader (NewOrder F)
  load_new_order = do
    buy_or_sell ← read_char
    currency_pair ← read_string t 7 true
    order_id ← read_string t 15 true
    price ← read_string t 10 true
    amount ← read_dbl t 16
    min_qty ← read_dbl t 16
    lot_size ← read_dbl t 16
    pure (record {
      buy_or_sell = buy_or_sell;
      currency_pair = currency_pair;
      order_id = order_id;
      price = price;
      amount = amount;
      min_qty = min_qty;
      lot_size = lot_size;
    })

  pub load_modify_order : Reader (ModifyOrder F)
  load_modify_order = do
    currency_pair ← read_string t 7 true
    order_id ← read_string t 15 true
    amount ← read_dbl t 16
    min_qty ← read_dbl t 16
    lot_size ← read_dbl t 16
    pure (record {
      currency_pair = currency_pair;
      order_id = order_id;
      amount = amount;
      min_qty = min_qty;
      lot_size = lot_size;
    })

  pub load_cancel_order : Reader CancelOrder
  load_cancel_order = do
    currency_pair ← read_string t 7 true
    order_id ← read_string t 15 true
    pure (record { currency_pair = currency_pair; order_id = order_id })

  pub load_ticker : Reader Ticker
  load_ticker = do
    buy_or_sell ← read_char
    currency_pair ← read_string t 7 true
    price ← read_string t 10 true
    transaction_date ← read_string t 8 true
    transaction_time ← read_string t 6 true
    pure (record {
      buy_or_sell = buy_or_sell;
      currency_pair = currency_pair;
      price = price;
      transaction_date = transaction_date;
      transaction_time = transaction_time;
    })

  unfoldable pub load_order : Reader (Order F)
  load_order = do
    amount ← read_dbl t 16
    min_qty ← read_dbl t 16
    lot_size ← read_dbl t 16
    order_id ← read_string t 15 true
    pure (record { amount = amount; min_qty = min_qty; lot_size = lot_size; order_id = order_id })

  unfoldable pub load_bid_or_offer : Reader (BidOrOffer F)
  load_bid_or_offer = do
    bid_price ← read_string t 10 true
    order_count ← read_int t 4
    orders ← load_times (count_of order_count) load_order
    pure (record { bid_price = bid_price; orders = orders })

  unfoldable pub load_currency_pair : Reader (CurrencyPair F)
  load_currency_pair = do
    currency_pair ← read_string t 7 true
    bids_count ← read_int t 4
    bids ← load_times (count_of bids_count) load_bid_or_offer
    offers_count ← read_int t 4
    offers ← load_times (count_of offers_count) load_bid_or_offer
    pure (record { currency_pair = currency_pair; bids = bids; offers = offers })

  unfoldable pub load_market_snapshot : Reader (MarketSnapshot F)
  load_market_snapshot = do
    message_length ← read_int t 6
    currency_pair_count ← read_int t 4
    currency_pairs ← load_times (count_of currency_pair_count) load_currency_pair
    pure (record { message_length = message_length; currency_pairs = currency_pairs })

  -- The loads that are registered in the namespace.
  pub hotspotfx_creators : List (ℕ × Reader (Payload F))
  hotspotfx_creators =
      (78, load_new_order >>= λ m. pure (new_order_message m))
      ∷ (77, load_modify_order >>= λ m. pure (modify_order_message m))
      ∷ (88, load_cancel_order >>= λ m. pure (cancel_order_message m))
      ∷ (84, load_ticker >>= λ m. pure (ticker_message m))
      ∷ (83, load_market_snapshot >>= λ m. pure (market_snapshot_message m))
      ∷ []

  pub load_unsupported_payload : ℕ → Reader (Payload F)
  load_unsupported_payload type = do body ← read_until_tlf; pure (unsupported_payload type body)
