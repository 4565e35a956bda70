-- ===== src/Aggregated/Tests.antt =====
-- Two venues and two instruments, with whole prices.
use system_k_dev.Base.{ℕ, ◌%◌, ◌^◌, ◌≡◌, refl, List, [], ◌∷◌, arith, ltb, replicate}
use system_k_dev.Base.Int.{ℤ, pos, negsuc}
use system_k_dev.Double.{DoubleOps, DoubleLaws}
use system_k_dev.Book.Limit.{Timespec}
use system_k_dev.Packet.{c_str}
use system_k_dev.Route.{bytes_eq}
use system_k_dev.Aggregated.{
  Venue, InstrumentInfo, InstrumentBbo, update_order_books, initialize_instrument_info,
}

-- Prices are whole numbers from 0 on.
abbrev ops : DoubleOps ℕ
ops = record {
  lt = ltb;
  in_range = λ x. ltb x (2 ^ 32);
  to_u32 = λ x. x % 2 ^ 32;
  of_int = λ i. whole i;
  of_u32 = λ x. x;
}
  where
    whole : ℤ → ℕ
    whole (pos n) = n
    whole (negsuc n) = 0

abbrev laws : DoubleLaws ops
laws = record { rank = λ x. x; lt_rank = λ x y. refl; to_u32_lt = λ x h. omega arith }

abbrev eurusd : List ℕ
eurusd = 69 ∷ 85 ∷ 82 ∷ 85 ∷ 83 ∷ 68 ∷ 0 ∷ 0 ∷ []

abbrev usdjpy : List ℕ
usdjpy = 85 ∷ 83 ∷ 68 ∷ 74 ∷ 80 ∷ 89 ∷ 0 ∷ 0 ∷ []

abbrev at_ten : Timespec
at_ten = record { tv_sec = 10; tv_nsec = 0 }

-- The second venue has quoted 100 to 103 a second ago, the first has not.
abbrev first : Venue ℕ
first = record {
  venue_id = 1;
  bid_price = 0;
  ask_price = 2147483647;
  bid_size = 0;
  ask_size = 0;
  last_update = record { tv_sec = 0; tv_nsec = 0 };
}

abbrev second : Venue ℕ
second = record {
  venue_id = 2;
  bid_price = 100;
  ask_price = 103;
  bid_size = 5;
  ask_size = 5;
  last_update = record { tv_sec = 9; tv_nsec = 0 };
}

abbrev euro : InstrumentInfo ℕ
euro = record { symbol = eurusd; venues = first ∷ second ∷ [] }

abbrev yen : InstrumentInfo ℕ
yen = record { symbol = usdjpy; venues = first ∷ [] }

-- The first venue quotes 101 to 104.
abbrev quote : InstrumentBbo ℕ
quote = record {
  symbol = eurusd;
  bid_venue_id = 1;
  bid_price = 101;
  bid_size = 7;
  ask_venue_id = 1;
  ask_price = 104;
  ask_size = 7;
}

started : initialize_instrument_info ops (1 ∷ []) (usdjpy ∷ []) ≡ yen ∷ []
unfolding initialize_instrument_info
started = refl

-- The bid of the first venue and the ask of the second.
picked :
    (update_order_books ops quote at_ten 4 (yen ∷ euro ∷ [])).0
    ≡ (
      record {
        symbol = replicate 8 0;
        bid_venue_id = 1;
        bid_price = 101;
        bid_size = 7;
        ask_venue_id = 2;
        ask_price = 103;
        ask_size = 5;
      },
      4,
    )
      ∷ []
unfolding update_order_books c_str bytes_eq
picked = refl
