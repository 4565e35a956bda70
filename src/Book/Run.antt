-- ===== src/Book/Run.antt =====
-- Sequences of calls to a book, against the list of the orders at rest.
use system_k_dev.Base.{
  true, ℕ, ◌≡◌, refl, ◌∙◌, sym, Option, none, some, List, [], ◌∷◌, arith, Option-cases, inl, inr,
}
use system_k_dev.Double.{DoubleOps, DoubleLaws}
use system_k_dev.Book.Limit.{Side, bid, ask, no_side, KOrder, Timespec, Heap}
use system_k_dev.Book.{KBook, clear, get_order, new_book}
use system_k_dev.Book.Tree.{limit_at}
use system_k_dev.Book.Orders.{find_id}
use system_k_dev.Book.Valid.{IsValid, level, clear-IsValid, new_book-IsValid}
use system_k_dev.Book.Add.{order, add-Added}
use system_k_dev.Book.Remove.{remove_present, remove_absent}
use system_k_dev.Book.Modify.{modify_present, modify_absent}
use system_k_dev.Book.Spec.{
  DistinctIds, part, part-append, part-drop_id, part-resize_id, find_id-append, find_id-drop_id,
  find_id-resize_id, DistinctIds-append, DistinctIds-drop_id, DistinctIds-resize_id,
}
use system_k_dev.Book.Calls.{
  Call, add_call, remove_call, modify_call, clear_call, apply_orders, run_orders, Fits, AllFit,
  apply, run,
}

module _ {F : Type 0} {d : DoubleOps F} (laws : DoubleLaws d) where
  open laws use {rank}

  -- The book holds just these orders.
  pub record Refines (b : KBook F) (os : List (KOrder F)) : Type 0 where
    pub valid : IsValid laws b
    pub levels : (s : Side) (k : ℕ) → level laws b s k ≡ part rank s k os
    pub orders : (id : ℕ) → get_order b id ≡ find_id id os
    pub distinct : DistinctIds os

  -- A call does to the book what it does to the list.
  Follows : KBook F → List (KOrder F) → Call F → Type 0
  Follows b os c =
      (b' : KBook F) × (apply d b c ≡ some ((apply_orders os c).0, b'))
      × Refines b' (apply_orders os c).1

  no_entry : (b : KBook F) (id : ℕ) → get_order b id ≡ none → b.order_map id ≡ none
  unfolding get_order
  no_entry b id e = elim (Option-cases (b.order_map id)) [
    | inl t ↦ t
    | inr (a, t) ↦ ground (arith, t)
  ]

  module _ (b : KBook F) (os : List (KOrder F)) (r : Refines b os) where
    add-Follows :
        (id : ℕ) (side : Side) (size price : F) (evt exch : Timespec)
        → Fits d os (add_call id side size price evt exch)
        → Follows b os (add_call id side size price evt exch)
    unfolding Follows apply apply_orders
    add-Follows id side size price evt exch (new, real, in_range) =
        let o = order id side size price in
        let absent = no_entry b id (r.orders id ∙ new) in
        let (b', done, after) =
          add-Added laws b id side size price evt exch r.valid absent real in_range in
        (
          b',
          done,
          record {
            valid = after.valid;
            levels = λ s k. after.levels s k ∙ rw (r.levels s k) (sym (part-append rank s k os o));
            orders = λ j. after.orders j ∙ rw (r.orders j) (sym (find_id-append os o j new));
            distinct = DistinctIds-append os o new r.distinct;
          },
        )

    -- The send time is no part of what a book holds.
    sent : (exch : Timespec) → Refines (record b { exch_snd_time = some exch }) os
    unfolding get_order
    sent exch = record {
      valid = record {
        bids = r.valid.bids;
        asks = r.valid.asks;
        lists = λ id a e.
            let l = r.valid.lists id a e in
            record { old = l.old; has_id = l.has_id; found = l.found };
      };
      levels = r.levels;
      orders = r.orders;
      distinct = r.distinct;
    }

    remove-Follows : (id : ℕ) (evt exch : Timespec) → Follows b os (remove_call id evt exch)
    unfolding Follows apply apply_orders
    remove-Follows id evt exch = elim (Option-cases (find_id id os)) [
      | inl e ↦
          rw (e, apply_orders)
            (
              record b { exch_snd_time = some exch },
              remove_absent laws b id evt exch (no_entry b id (r.orders id ∙ e)),
              sent exch,
            )
      | inr (o, e) ↦
          let (b', done, after) = remove_present laws b id o evt exch r.valid (r.orders id ∙ e) in
          rw (e, apply_orders)
            (
              b',
              done,
              record {
                valid = after.valid;
                levels = λ s k.
                    after.levels s k ∙ rw (r.levels s k) (sym (part-drop_id rank s k os id o e));
                orders = λ j.
                    after.orders j ∙ rw (r.orders j) (sym (find_id-drop_id os id j r.distinct));
                distinct = DistinctIds-drop_id os id r.distinct;
              },
            )
    ]

    modify-Follows :
        (id : ℕ) (size : F) (evt exch : Timespec)
        → d.in_range size ≡ true
        → Follows b os (modify_call id size evt exch)
    unfolding Follows apply apply_orders
    modify-Follows id size evt exch in_range = elim (Option-cases (find_id id os)) [
      | inl e ↦
          rw (e, apply_orders)
            (
              record b { exch_snd_time = some exch },
              modify_absent laws b id size evt exch (no_entry b id (r.orders id ∙ e)),
              sent exch,
            )
      | inr (o, e) ↦
          let (b', done, after) =
            modify_present laws b id o size evt exch r.valid (r.orders id ∙ e) in_range in
          rw (e, apply_orders)
            (
              b',
              done,
              record {
                valid = after.valid;
                levels = λ s k.
                    after.levels s k
                    ∙ rw (r.levels s k) (sym (part-resize_id rank s k os id size o e));
                orders = λ j.
                    after.orders j ∙ rw (r.orders j) (sym (find_id-resize_id os id size o j e));
                distinct = DistinctIds-resize_id os id size r.distinct;
              },
            )
    ]

  nothing_at : (b : KBook F) (s : Side) (k : ℕ) → level laws (clear b) s k ≡ []
  unfolding clear limit_at
  nothing_at b bid k = refl
  nothing_at b ask k = refl
  nothing_at b no_side k = refl

  empty_book : (b : KBook F) → Refines (clear b) []
  unfolding clear get_order part find_id
  empty_book b = record {
    valid = clear-IsValid laws b;
    levels = nothing_at b;
    orders = λ id. refl;
    distinct = tt;
  }

  apply-apply_orders :
      (b : KBook F) (os : List (KOrder F)) (c : Call F)
      → Refines b os
      → Fits d os c
      → Follows b os c
  unfolding Follows apply apply_orders
  apply-apply_orders b os (add_call id side size price evt exch) r fit =
      add-Follows b os r id side size price evt exch fit
  apply-apply_orders b os (remove_call id evt exch) r fit = remove-Follows b os r id evt exch
  apply-apply_orders b os (modify_call id size evt exch) r fit =
      modify-Follows b os r id size evt exch fit
  apply-apply_orders b os clear_call r fit = (clear b, refl, empty_book b)

  -- From a book that holds just the orders of a list, any sequence of calls that adds orders with
  -- a side and a new id only, and gives only sizes that can be converted to uint32_t, meets no undefined behaviour and no failed assertion, returns what
  -- the list says for each call, and ends in a book that holds just the orders that the list
  -- ends with: valid, each level the part of the list at its side and price in the order of
  -- arrival, and each id standing for the order of the list with it.
  pub run-run_orders :
      (cs : List (Call F)) (b : KBook F) (os : List (KOrder F))
      → Refines b os
      → AllFit d os cs
      → (b' : KBook F) × (run d b cs ≡ some ((run_orders os cs).0, b'))
        × Refines b' (run_orders os cs).1
  unfolding run run_orders AllFit Follows
  run-run_orders [] b os r fit = (b, refl, r)
  run-run_orders (c ∷ cs) b os r fit =
      let (b', done, r') = apply-apply_orders b os c r fit.0 in
      let (last, rest, r'') = run-run_orders cs b' (apply_orders os c).1 r' fit.1 in
      (last, rw (done, rest) refl, r'')

  pub new_book-Refines :
      (h : Heap F) (name : Option (List ℕ)) (depth : ℕ) → Refines (new_book h name depth) []
  unfolding new_book get_order part find_id limit_at
  new_book-Refines h name depth = record {
    valid = new_book-IsValid laws h name depth;
    levels = λ s k. elim s as (λ i. level laws (new_book h name depth) i k ≡ []) [
      | bid ↦ refl
      | ask ↦ refl
      | no_side ↦ refl
    ];
    orders = λ id. refl;
    distinct = tt;
  }
