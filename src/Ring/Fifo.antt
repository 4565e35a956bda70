-- ===== src/Ring/Fifo.antt =====
-- The ring buffer as the first-in first-out queue of its bytes.
use system_k_dev.Base.{
  ℕ, ◌+◌, ◌≤◌, ◌≡◌, refl, sym, ◌∙◌, ap, inl, List, [], ◌∷◌, ◌++◌, Option, none, some, arith, length,
  take, drop,
}
use system_k_dev.Ring.{Block, RingBuffer, write_data, read_data}
use system_k_dev.Ring.Valid.{IsValid, contents, length-contents}
use system_k_dev.Ring.Expand.{write_data-append}
use system_k_dev.Ring.Read.{read_data-take, read_data-buffer_length}

-- What the socket asks of its buffer.
pub data Op : Type 0 where
  put : List ℕ → Op
  get : ℕ → Op

-- The bytes that the reads of a sequence of calls return; `none` if an assertion fails.
unfoldable pub run : Block → RingBuffer → List Op → Option (List (List ℕ))
run junk r [] = some []
run junk r (put xs ∷ ops) = elim (write_data junk r xs) [ none ↦ none | some r' ↦ run junk r' ops ]
run junk r (get n ∷ ops) =
    let (out, r') = read_data r n in
    elim (run junk r' ops) [ none ↦ none | some outs ↦ some (out ∷ outs) ]

-- The same calls on a queue.
unfoldable pub run_queue : List ℕ → List Op → List (List ℕ)
run_queue q [] = []
run_queue q (put xs ∷ ops) = run_queue (q ++ xs) ops
run_queue q (get n ∷ ops) = take n q ∷ run_queue (drop n q) ops

-- No write makes the queue longer than `capacity`.
abbrev pub Fits : ℕ → List ℕ → List Op → Type 0
Fits capacity q [] = Unit {0}
Fits capacity q (put xs ∷ ops) = (length q + length xs ≤ capacity) × Fits capacity (q ++ xs) ops
Fits capacity q (get n ∷ ops) = Fits capacity (drop n q) ops

run_from :
    (junk : Block) (capacity : ℕ) (ops : List Op) (q : List ℕ) (r : RingBuffer)
    → IsValid r
    → contents r ≡ q
    → capacity ≤ r.buffer_length
    → Fits capacity q ops
    → run junk r ops ≡ some (run_queue q ops)
unfolding run run_queue
run_from junk capacity [] q r v e c f = refl
run_from junk capacity (put xs ∷ ops) q r v e c f =
    let safe : r.data_length + length xs ≤ r.buffer_length =
      omega (arith, f.0, sym (length-contents r) ∙ ap length e) in
    let (r', w, v', same, size) = write_data-append junk r xs v (inl safe) in
    rw (w, run)
      (run_from junk capacity ops (q ++ xs) r' v' (same ∙ ap (λ p. p ++ xs) e) (omega arith) f.1)
run_from junk capacity (get n ∷ ops) q r v e c f =
    let (out, left, v') = read_data-take r n v in
    let rest =
      run_from junk capacity ops (drop n q) (read_data r n).1 v' (left ∙ ap (drop n) e)
        (rw (read_data-buffer_length r n) c) f in
    rw (rest, run, out, e)

-- As long as no write exceeds the block that a valid buffer has, every sequence of writes and
-- reads passes the assertions and returns what the queue of the buffer's bytes returns.
pub run-run_queue :
    (junk : Block) (ops : List Op) (r : RingBuffer)
    → IsValid r
    → Fits r.buffer_length (contents r) ops
    → run junk r ops ≡ some (run_queue (contents r) ops)
run-run_queue junk ops r v f =
    run_from junk r.buffer_length ops (contents r) r v refl (omega arith) f
