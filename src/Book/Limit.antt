-- ===== src/Book/Limit.antt =====
-- order_book/order_book.v2/order.{h,cpp} and limit.{h,cpp}: an order, and the orders at one price.
use system_k_dev.Base.{
  ℕ, ◌+◌, ◌-◌, ◌%◌, ◌^◌, Option, none, some, List, [], ◌∷◌, ◌++◌, length, ◌==◌, ◌&&◌, if◌then◌else◌,
}
use system_k_dev.Double.{DoubleOps}

-- `Side`; NO_SIDE stands for every value but BID and ASK.
pub data Side : Type 0 where
  bid ask no_side : Side

pub record Timespec : Type 0 where
  pub tv_sec : ℕ
  pub tv_nsec : ℕ

pub record KOrder (F : Type 0) : Type 0 where
  pub order_id : ℕ
  pub buy_sell : Side
  pub size : F
  pub price : F

-- The orders that `new` has made, by address.
abbrev pub Heap : Type 0 → Type 0
Heap F = ℕ → KOrder F

abbrev pub update {ℓ} : {A : Type ℓ} → (ℕ → A) → ℕ → A → ℕ → A
update f i x j = if i == j then x else f j

-- `none` in a time is a value that has not been set.
pub record KLimit (F : Type 0) : Type 0 where
  pub orders : List ℕ
  pub price : F
  pub total_volume : ℕ
  pub time_updated : Option Timespec
  pub msg_sent_time : Option Timespec

module _ {F : Type 0} where
  unfoldable pub new_limit : F → ℕ → KLimit F
  new_limit price volume = record {
    orders = [];
    price = price;
    total_volume = volume;
    time_updated = none;
    msg_sent_time = none;
  }

  unfoldable pub set_update_time : KLimit F → Option Timespec → KLimit F
  set_update_time l t = record l { time_updated = t }

  pub set_msg_sent_time : KLimit F → Timespec → KLimit F
  set_msg_sent_time l t = record l { msg_sent_time = some t }

  unfoldable pub get_order_count : KLimit F → ℕ
  get_order_count l = length l.orders

  -- uint32_t arithmetic on the total.
  abbrev pub add_volume : KLimit F → ℕ → KLimit F
  add_volume l vol = record l { total_volume = (l.total_volume + vol) % 2 ^ 32 }

  abbrev pub remove_volume : KLimit F → ℕ → KLimit F
  remove_volume l vol = record l { total_volume = (l.total_volume + 2 ^ 32 - vol) % 2 ^ 32 }

  -- The address of the first order with the id.
  unfoldable pub find_order : Heap F → List ℕ → ℕ → Option ℕ
  find_order h [] id = none
  find_order h (a ∷ rest) id = if (h a).order_id == id then some a else find_order h rest id

  -- `_orders.erase(_findOrder(id))`.
  unfoldable pub erase_order : Heap F → List ℕ → ℕ → List ℕ
  erase_order h [] id = []
  erase_order h (a ∷ rest) id = if (h a).order_id == id then rest else a ∷ erase_order h rest id

  module _ (d : DoubleOps F) where
    -- In these three `none` is undefined behaviour: a size is converted that is out of range.
    unfoldable pub add_order : Heap F → KLimit F → ℕ → Option (ℕ × KLimit F)
    add_order h l a = elim (find_order h l.orders (h a).order_id) [
      | some _ ↦ some (0, l)
      | none ↦
          if d.in_range (h a).size
          then some
              (1, add_volume (record l { orders = l.orders ++ (a ∷ []) }) (d.to_u32 (h a).size))
          else none
    ]

    -- The order object is changed on the heap.
    unfoldable pub modify_order : Heap F → KLimit F → ℕ → F → Option (ℕ × KLimit F × Heap F)
    modify_order h l id size = elim (find_order h l.orders id) [
      | none ↦ some (0, l, h)
      | some a ↦
          if d.in_range (h a).size && d.in_range size
          then some (
            1,
            add_volume (remove_volume l (d.to_u32 (h a).size)) (d.to_u32 size),
            update h a (record (h a) { size = size }),
          )
          else none
    ]

    unfoldable pub remove_order : Heap F → KLimit F → ℕ → Option (ℕ × KLimit F)
    remove_order h l id =
        if length l.orders == 0 then some (1, l) else elim (find_order h l.orders id) [
          | none ↦ some (0, l)
          | some a ↦
              if d.in_range (h a).size
              then some (
                1,
                record (remove_volume l (d.to_u32 (h a).size)) {
                  orders = erase_order h l.orders id;
                },
              )
              else none
        ]
