-- ===== src/Book/Tests.antt =====
-- Runs of a book whose prices and sizes are natural numbers, and the theorems at such books.
use system_k_dev.Base.{
  ℕ, ◌%◌, ◌^◌, ◌<◌, ◌≡◌, ◌≢◌, refl, ap, sym, subst, Option, ◌==◌, ◌&&◌, if◌then◌else◌, some, none,
  List, [], ◌∷◌, ◌++◌, arith, ltb,
}
use system_k_dev.Base.Int.{ℤ, pos, negsuc}
use system_k_dev.Double.{DoubleOps, DoubleLaws}
use system_k_dev.Book.Insert.{same_side}
use system_k_dev.Book.Limit.{
  add_order, find_order, set_update_time, new_limit, Side, bid, ask, no_side, Timespec, Heap,
}
use system_k_dev.Book.{
  KBook, new_book, add, add_bid, add_ask, add_to_tree, find_limit, put_limit, insert_limit,
  erase_limit, get_order, remove, remove_from_tree, modify, modify_limit, get_total_volume_at_limit,
  get_order_count_at_limit, best_price, no_bid, no_ask, clear,
}
use system_k_dev.Book.Orders.{drop_id, find_id}
use system_k_dev.Book.Valid.{IsValid, level, new_book-IsValid}
use system_k_dev.Book.Add.{order, add-IsValid, add-level}
use system_k_dev.Book.Remove.{Removed, remove_present}
use system_k_dev.Book.Modify.{Modified, modify_present}
use system_k_dev.Book.Best.{IsBest, best_price-bid}
use system_k_dev.Book.Calls.{
  Call, add_call, remove_call, modify_call, run, run_orders, AllFit, apply_orders,
}
use system_k_dev.Book.Run.{Refines, new_book-Refines, run-run_orders}

abbrev ops : DoubleOps ℕ
ops = record {
  lt = ltb;
  in_range = λ x. ltb x (2 ^ 32);
  to_u32 = λ x. x % 2 ^ 32;
  of_int = λ i. whole i;
  of_u32 = λ x. x;
}
  where
    whole : ℤ → ℕ
    whole (pos n) = n
    whole (negsuc n) = 0

abbrev laws : DoubleLaws ops
laws = record { rank = λ x. x; lt_rank = λ x y. refl; to_u32_lt = λ x h. omega arith }

abbrev t1 : Timespec
t1 = record { tv_sec = 1; tv_nsec = 0 }

abbrev t2 : Timespec
t2 = record { tv_sec = 2; tv_nsec = 0 }

abbrev blank : Heap ℕ
blank _ = record { order_id = 0; buy_sell = no_side; size = 0; price = 0 }

abbrev empty : KBook ℕ
empty = new_book blank none 5

abbrev book_of : Option (ℕ × KBook ℕ) → KBook ℕ
book_of none = empty
book_of (some r) = r.1

-- A bid of 5 at 100 and another of 7.
abbrev one : KBook ℕ
one = book_of (add ops empty 1 bid 5 100 t1 t1)

abbrev two : KBook ℕ
two = book_of (add ops one 2 bid 7 100 t1 t1)

real_bid : bid ≢ no_side
real_bid e = cc

empty-IsValid : IsValid laws empty
empty-IsValid = new_book-IsValid laws blank none 5

new_one : empty.order_map 1 ≡ none
unfolding new_book
new_one = refl

one-IsValid : IsValid laws one
one-IsValid =
    let (b, e, v) = add-IsValid laws empty 1 bid 5 100 t1 t1 empty-IsValid new_one real_bid refl in
    subst (IsValid laws) (sym (ap book_of e)) v

new_two : one.order_map 2 ≡ none
unfolding new_book add add_bid add_to_tree find_limit add_order find_order set_update_time new_limit
    insert_limit
new_two = refl

two-IsValid : IsValid laws two
two-IsValid =
    let (b, e, v) = add-IsValid laws one 2 bid 7 100 t1 t1 one-IsValid new_two real_bid refl in
    subst (IsValid laws) (sym (ap book_of e)) v

first_of_two : get_order two 1 ≡ some (order 1 bid 5 100)
unfolding new_book add add_bid get_order add_to_tree find_limit add_order find_order set_update_time
    new_limit insert_limit
first_of_two = refl

-- A crossed sequence of calls, with its best prices and volumes.
abbrev session : List (Call ℕ)
session =
    add_call 1 bid 5 100 t1 t1
    ∷ add_call 2 bid 7 100 t1 t1
    ∷ add_call 3 ask 4 103 t1 t1
    ∷ modify_call 1 9 t2 t2
    ∷ remove_call 2 t2 t2
    ∷ remove_call 2 t2 t2
    ∷ []

session_codes :
    (run_orders [] session)
    ≡ (1 ∷ 1 ∷ 1 ∷ 1 ∷ 1 ∷ 0 ∷ [], order 1 bid 9 100 ∷ order 3 ask 4 103 ∷ [])
unfolding run_orders apply_orders find_id drop_id system_k_dev.Book.Orders.resize_id
session_codes = refl

session-AllFit : AllFit ops [] session
unfolding AllFit apply_orders find_id
session-AllFit = (
  (refl, λ e. cc, refl),
  ((refl, λ e. cc, refl), ((refl, λ e. cc, refl), (refl, (tt, (tt, tt))))),
)

add-IsValid_example :
    (b' : KBook ℕ) × (add ops one 2 bid 7 100 t1 t1 ≡ some (1, b')) × IsValid laws b'
add-IsValid_example = add-IsValid laws one 2 bid 7 100 t1 t1 one-IsValid new_two real_bid refl

add-level_example :
    (b' : KBook ℕ) × (add ops one 2 bid 7 100 t1 t1 ≡ some (1, b'))
    × ((s : Side) (k : ℕ)
        → level laws b' s k ≡ (
            if same_side bid s && (100 == k)
            then level laws one s k ++ (order 2 bid 7 100 ∷ [])
            else level laws one s k))
    × ((j : ℕ) → get_order b' j ≡ (if 2 == j then some (order 2 bid 7 100) else get_order one j))
add-level_example = add-level laws one 2 bid 7 100 t1 t1 one-IsValid new_two real_bid refl

-- A size out of range.
out_of_range : add ops one 2 bid (2 ^ 32) 100 t1 t1 ≡ none
unfolding new_book add add_bid add_to_tree find_limit add_order find_order set_update_time new_limit
    insert_limit
out_of_range = refl

remove_present_example :
    (b' : KBook ℕ) × (remove ops two 1 t2 t2 ≡ some (1, b'))
    × Removed laws two 1 (order 1 bid 5 100) b'
remove_present_example =
    remove_present laws two 1 (order 1 bid 5 100) t2 t2 two-IsValid first_of_two

modify_present_example :
    (b' : KBook ℕ) × (modify ops two 1 9 t2 t2 ≡ some (1, b'))
    × Modified laws two 1 (order 1 bid 5 100) 9 b'
modify_present_example =
    modify_present laws two 1 (order 1 bid 5 100) 9 t2 t2 two-IsValid first_of_two refl

best_price-bid_example : IsBest laws two bid 0 (best_price ops two bid) (λ k best. best < k)
best_price-bid_example = best_price-bid laws two two-IsValid

run-run_orders_example :
    (b' : KBook ℕ) × (run ops empty session ≡ some ((run_orders [] session).0, b'))
    × Refines laws b' (run_orders [] session).1
run-run_orders_example =
    run-run_orders laws session empty [] (new_book-Refines laws blank none 5) session-AllFit
