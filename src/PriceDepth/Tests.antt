-- ===== src/PriceDepth/Tests.antt =====
-- A book of two levels, with whole prices and times. Entries 1 to 4 are bids, 5 is an offer.
use system_k_dev.Base.{
  ℕ, ◌%◌, ◌^◌, ◌≡◌, refl, arith, true, false, none, some, [], ◌∷◌, ltb, ◌==◌, if◌then◌else◌,
}
use system_k_dev.Base.Int.{ℤ, pos, negsuc}
use system_k_dev.Double.{DoubleOps, DoubleLaws}
use system_k_dev.PriceDepth.{
  FixOps, PriceDepthEntry, PriceDepthOrderBook, new_price_depth_book, add, remove, replace,
  change_size, find_entry_by_id, has_price, has_id, has_bid_price, walk_to_bid_level, num_bids,
  walk_to_offer_level, walk_to_bid_price, walk_to_offer_price,
}
use system_k_dev.PriceDepth.Maps.{find, has, assign, erase, pop_last, string_lt}
use system_k_dev.PriceDepth.Undo.{remove-add, undone}
use system_k_dev.PriceDepth.Sorted.{add-IsBest, IsBest}

abbrev ops : DoubleOps ℕ
ops = record {
  lt = ltb;
  in_range = λ x. ltb x (2 ^ 32);
  to_u32 = λ x. x % 2 ^ 32;
  of_int = λ i. whole i;
  of_u32 = λ x. x;
}
  where
    whole : ℤ → ℕ
    whole (pos n) = n
    whole (negsuc n) = 0

abbrev laws : DoubleLaws ops
laws = record { rank = λ x. x; lt_rank = λ x y. refl; to_u32_lt = λ x h. omega arith }

abbrev fix : FixOps ℕ
fix = record { before = ltb; midnight = 0; entry_type_bid = 48; entry_type_offer = 49 }

abbrev entry : (type name price time : ℕ) → PriceDepthEntry ℕ ℕ
entry type name price time = record {
  created = time;
  modified = time;
  type = type;
  id = name ∷ [];
  price = price;
  size = 10;
}

abbrev entries : ℕ → PriceDepthEntry ℕ ℕ
entries a =
    if a == 1
    then entry 48 97 100 1
    else if a == 2
    then entry 48 98 101 2
    else if a == 3
    then entry 48 99 99 3
    else if a == 4
    then entry 48 100 100 4
    else if a == 5
    then entry 49 97 105 5
    else entry 0 122 0 0

abbrev empty : PriceDepthOrderBook ℕ ℕ
empty = new_price_depth_book ops fix (69 ∷ []) 2 entries

abbrev after : ℕ → PriceDepthOrderBook ℕ ℕ → PriceDepthOrderBook ℕ ℕ
after a b = elim (add ops fix (some a) b) [ none ↦ b | some r ↦ r.1 ]

abbrev one_bid : PriceDepthOrderBook ℕ ℕ
one_bid = (after 1 empty)

abbrev two_bids : PriceDepthOrderBook ℕ ℕ
two_bids = (after 2 one_bid)

-- The higher bid is first; a third one that is lower is destroyed at once.
two_bids_sorted : two_bids.bid_prices ≡ ((101, 2) ∷ ((100, 1) ∷ []))
unfolding new_price_depth_book add find has assign erase pop_last string_lt
two_bids_sorted = refl

third_destroyed : (after 3 two_bids) ≡ record two_bids { deleted = 3 ∷ []; last_update_time = 3 }
unfolding new_price_depth_book add find has assign erase pop_last string_lt
third_destroyed = refl

wrong_type : add ops fix (some 6) empty ≡ some (false, empty)
unfolding new_price_depth_book add find has assign erase pop_last string_lt
wrong_type = refl

resized :
    ((change_size ops fix (98 ∷ []) 7 9 two_bids).1.heap 2)
    ≡ record (entry 48 98 101 2) { size = 7; modified = 9 }
unfolding new_price_depth_book add change_size find has assign erase pop_last string_lt
resized = refl

no_entry :
    change_size ops fix (120 ∷ []) 7 9 two_bids ≡ (false, record two_bids { last_update_time = 9 })
unfolding new_price_depth_book add change_size find has assign erase pop_last string_lt
no_entry = refl

-- An entry replaced by one at another price leaves its own price in the book.
replaced_twice :
    let b = (replace ops fix (97 ∷ []) (some 3) one_bid).1 in
    (b.bid_prices ≡ ((100, 1) ∷ ((99, 3) ∷ [])))
    × (b.bid_ids ≡ ((97 ∷ [], 3) ∷ []))
    × (num_bids ops fix b ≡ none)
unfolding new_price_depth_book add replace num_bids find has assign erase pop_last string_lt
replaced_twice = (refl, refl, refl)

-- With two levels too many, a further entry has an erased iterator decremented.
overfull :
    let b = (replace ops fix (97 ∷ []) (some 3) two_bids).1 in
    add ops fix (some 4) (replace ops fix (98 ∷ []) (some 6) b).1 ≡ none
unfolding new_price_depth_book add replace find has assign erase pop_last string_lt
overfull = refl

-- Two entries at one price: the first stays under its id.
same_price :
    let b = (after 4 one_bid) in
    (b.bid_prices ≡ ((100, 4) ∷ [])) × (b.bid_ids ≡ ((97 ∷ [], 1) ∷ ((100 ∷ [], 4) ∷ [])))
unfolding new_price_depth_book add find has assign erase pop_last string_lt
same_price = (refl, refl)

levels :
    (walk_to_bid_level ops fix 0 two_bids ≡ some 2)
    × (walk_to_bid_level ops fix 1 two_bids ≡ some 1)
    × (walk_to_bid_level ops fix 2 two_bids ≡ none)
    × (walk_to_offer_level ops fix 0 two_bids ≡ none)
unfolding new_price_depth_book add walk_to_bid_level walk_to_offer_level find has assign erase
    pop_last string_lt
levels = (refl, refl, refl, refl)

-- The walk to a price below the best bid stays at the best bid.
bid_prices_walked :
    (walk_to_bid_price ops fix 100 two_bids ≡ some 2)
    × (walk_to_bid_price ops fix 101 two_bids ≡ some 2)
    × (walk_to_bid_price ops fix 102 two_bids ≡ none)
    × (walk_to_offer_price ops fix 105 (after 5 empty) ≡ some 5)
unfolding new_price_depth_book add walk_to_bid_price walk_to_offer_price find has assign erase
    pop_last string_lt
bid_prices_walked = (refl, refl, refl, refl)

known :
    (find_entry_by_id ops fix (97 ∷ []) two_bids ≡ some 1) × (has_price ops fix 101 two_bids ≡ true)
unfolding new_price_depth_book add find_entry_by_id has_price find has assign erase pop_last
    string_lt
known = (refl, refl)

remove-add_example :
    (c : PriceDepthOrderBook ℕ ℕ) × (add ops fix (some 2) one_bid ≡ some (true, c))
    × (remove ops fix (98 ∷ []) 9 true c ≡ (true, undone ops fix 2 9 one_bid))
unfolding new_price_depth_book add has_id has_bid_price find has assign erase pop_last string_lt
remove-add_example = remove-add ops fix 2 9 one_bid refl refl refl refl (omega arith)

add-IsBest_example :
    (b' : PriceDepthOrderBook ℕ ℕ) × (add ops fix (some 3) two_bids ≡ some (true, b'))
    × IsBest ops fix laws true 3 two_bids b'
unfolding new_price_depth_book add find has assign erase pop_last string_lt
add-IsBest_example = add-IsBest ops fix laws 3 two_bids refl (omega arith) ((refl, tt), (tt, tt))
