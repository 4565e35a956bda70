-- ===== src/Aggregated.antt =====
-- aggregated_book/aggregated_book.cpp: the quotes of the venues and the best bid and offer over
-- them. The clock and the messages that go out are values; sockets and protocol buffers are left
-- out.
pub mod Best
pub mod Update
mod Tests
use system_k_dev.Base.{
  ℕ, ◌+◌, ◌*◌, ◌%◌, ◌^◌, Bool, true, false, not, ◌&&◌, ◌||◌, List, [], ◌∷◌, ◌++◌, ◌==◌, ltb,
  if◌then◌else◌, take, drop, replicate, map,
}
use system_k_dev.Base.Int.{ℤ, negsuc}
use system_k_dev.Double.{DoubleOps}
use system_k_dev.Book.Limit.{Timespec}
use system_k_dev.Book.{no_bid, no_ask}
use system_k_dev.Packet.{c_str}
use system_k_dev.Route.{bytes_eq}
use system_k_dev.Time.{timespec_delta_millis}

abbrev pub update_timeout_millis : ℕ
update_timeout_millis = 5000

abbrev pub symbol_len : ℕ
symbol_len = 8

abbrev pub null_venue_id : ℕ
null_venue_id = 0

-- SingleMarketBBO, the quote of a venue.
pub record Venue (F : Type 0) : Type 0 where
  pub venue_id : ℕ
  pub bid_price : F
  pub ask_price : F
  pub bid_size : F
  pub ask_size : F
  pub last_update : Timespec

-- `venues` are the first VENUE_COUNT of the array.
pub record InstrumentInfo (F : Type 0) : Type 0 where
  pub symbol : List ℕ
  pub venues : List (Venue F)

pub record InstrumentBbo (F : Type 0) : Type 0 where
  pub symbol : List ℕ
  pub bid_venue_id : ℕ
  pub bid_price : F
  pub bid_size : F
  pub ask_venue_id : ℕ
  pub ask_price : F
  pub ask_size : F

-- STRCMP8, and strncmp with 8 characters.
unfoldable pub strcmp8 : List ℕ → List ℕ → Bool
strcmp8 a b = bytes_eq (take symbol_len a) (take symbol_len b)

unfoldable pub strncmp8 : List ℕ → List ℕ → Bool
strncmp8 a b = bytes_eq (c_str (take symbol_len a)) (c_str (take symbol_len b))

-- `seq_num++` of a uint32_t.
abbrev pub next_seq : ℕ → ℕ
next_seq n = (n + 1) % 2 ^ 32

module _ {F : Type 0} where
  -- The quote of an update.
  unfoldable pub set_quote : InstrumentBbo F → (now : Timespec) → Venue F → Venue F
  set_quote bbo now v = record v {
    bid_price = bbo.bid_price;
    ask_price = bbo.ask_price;
    bid_size = bbo.bid_size;
    ask_size = bbo.ask_size;
    last_update = now;
  }

  -- Is the update of this venue?
  unfoldable pub is_venue : InstrumentBbo F → Venue F → Bool
  is_venue bbo v =
      not (v.venue_id == null_venue_id)
      && ((v.venue_id == bbo.bid_venue_id) && (v.venue_id == bbo.ask_venue_id))

  -- The loop over the venues, up to the first that matches; did it find one?
  unfoldable pub update_venues :
      InstrumentBbo F → (now : Timespec) → List (Venue F) → Bool × List (Venue F)
  unfolding set_quote is_venue
  update_venues bbo now [] = (false, [])
  update_venues bbo now (v ∷ vs) =
      let rest = update_venues bbo now vs in
      if is_venue bbo v then (true, set_quote bbo now v ∷ vs) else (rest.0, v ∷ rest.1)

  -- The loop over the instruments: did it find the symbol, and a venue of it?
  unfoldable pub update_instruments :
      InstrumentBbo F
      → (now : Timespec) → List (InstrumentInfo F)
      → Bool × Bool × List (InstrumentInfo F)
  unfolding update_venues strcmp8
  update_instruments bbo now [] = (false, false, [])
  update_instruments bbo now (i ∷ is) =
      let rest = update_instruments bbo now is in
      if strcmp8 bbo.symbol i.symbol
      then (
        true,
        (update_venues bbo now i.venues).0 || rest.1,
        record i { venues = (update_venues bbo now i.venues).1 } ∷ rest.2,
      )
      else (rest.0, rest.1, i ∷ rest.2)

module _ {F : Type 0} (d : DoubleOps F) where
  abbrev pub init_size : F
  init_size = d.of_int (negsuc 0)

  unfoldable pub instrument_bbo_init : InstrumentBbo F
  instrument_bbo_init = record {
    symbol = replicate symbol_len 0;
    bid_venue_id = null_venue_id;
    bid_price = d.of_int no_bid;
    bid_size = init_size;
    ask_venue_id = null_venue_id;
    ask_price = d.of_int no_ask;
    ask_size = init_size;
  }

  unfoldable pub instrument_reset : Venue F → Venue F
  instrument_reset v = record v {
    bid_price = d.of_int no_bid;
    ask_price = d.of_int no_ask;
    bid_size = init_size;
    ask_size = init_size;
  }

  -- One venue of `initialize_instrument_info`.
  unfoldable pub new_venue : ℕ → Venue F
  new_venue id = record {
    venue_id = id;
    bid_price = d.of_int no_bid;
    ask_price = d.of_int no_ask;
    bid_size = init_size;
    ask_size = init_size;
    last_update = record { tv_sec = 0; tv_nsec = 0 };
  }

  -- The instruments as they start, each with the venues of the configuration.
  unfoldable pub initialize_instrument_info :
      (venue_ids : List ℕ) (symbols : List (List ℕ)) → List (InstrumentInfo F)
  unfolding new_venue
  initialize_instrument_info venue_ids [] = []
  initialize_instrument_info venue_ids (s ∷ symbols) =
      record { symbol = take symbol_len s; venues = map new_venue venue_ids }
      ∷ initialize_instrument_info venue_ids symbols

  -- A quote that is too old is taken back.
  unfoldable pub expire : (now : Timespec) → Venue F → Venue F
  unfolding instrument_reset timespec_delta_millis
  expire now v =
      if not (v.venue_id == null_venue_id)
        && ltb update_timeout_millis (timespec_delta_millis v.last_update now)
      then instrument_reset v
      else v

  -- A venue's prices replace those that they better.
  unfoldable pub better_bid : Venue F → InstrumentBbo F → InstrumentBbo F
  better_bid v best =
      if d.lt best.bid_price v.bid_price
      then record best { bid_price = v.bid_price; bid_venue_id = v.venue_id; bid_size = v.bid_size }
      else best

  unfoldable pub better_ask : Venue F → InstrumentBbo F → InstrumentBbo F
  better_ask v best =
      if d.lt v.ask_price best.ask_price
      then record best { ask_price = v.ask_price; ask_venue_id = v.venue_id; ask_size = v.ask_size }
      else best

  -- The loop over the venues of an instrument.
  unfoldable pub pick_best :
      (now : Timespec) → InstrumentBbo F → List (Venue F) → InstrumentBbo F × List (Venue F)
  unfolding expire better_bid better_ask
  pick_best now best [] = (best, [])
  pick_best now best (v ∷ vs) =
      let v' = expire now v in
      let rest = pick_best now (better_ask v' (better_bid v' best)) vs in (rest.0, v' ∷ rest.1)

  -- The second loop over the instruments, with the best quotes so far.
  unfoldable pub broadcast_best :
      InstrumentBbo F
      → (now : Timespec) → InstrumentBbo F
      → (seq_num : ℕ) → List (InstrumentInfo F)
      → List (InstrumentBbo F × ℕ) × ℕ × List (InstrumentInfo F)
  unfolding pick_best strncmp8
  broadcast_best bbo now best seq_num [] = ([], seq_num, [])
  broadcast_best bbo now best seq_num (i ∷ is) = elim (strncmp8 bbo.symbol i.symbol) [
    | true ↦
        let (best', venues) = pick_best now best i.venues in
        let (out, seq', is') = broadcast_best bbo now best' (next_seq seq_num) is in
        ((best', seq_num) ∷ out, seq', record i { venues = venues } ∷ is')
    | false ↦ let (out, seq', is') = broadcast_best bbo now best seq_num is in (out, seq', i ∷ is')
  ]

  unfoldable pub update_order_books :
      InstrumentBbo F
      → (now : Timespec) → (seq_num : ℕ) → List (InstrumentInfo F)
      → List (InstrumentBbo F × ℕ) × ℕ × List (InstrumentInfo F)
  unfolding update_instruments broadcast_best instrument_bbo_init
  update_order_books bbo now seq_num is =
      let (found_symbol, found_venue, updated) = update_instruments bbo now is in
      if found_symbol && found_venue
      then broadcast_best bbo now instrument_bbo_init seq_num updated
      else ([], seq_num, updated)
