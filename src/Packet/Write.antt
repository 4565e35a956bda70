-- ===== src/Packet/Write.antt =====
-- What is written is read back.
use system_k_dev.Base.{
  ℕ, ◌+◌, ◌-◌, ◌≤◌, ◌<◌, ◌≡◌, refl, sym, ◌∙◌, ap, true, false, none, some, List, ◌++◌, length, take,
  drop, replicate, length-append, length-replicate, drop-append, take_all, arith, ltb,
}
use system_k_dev.Packet.{PacketBase, TextOps, ok, read_string, write_string, c_str}

module _ {F : Type 0} (t : TextOps F) (p : PacketBase) (s : List ℕ) (n : ℕ) where
  padded : List ℕ
  padded = s ++ replicate (n - length s) 32

  length-padded : length s ≤ n → length padded ≡ n
  unfolding padded
  length-padded h = omega (
    arith,
    length-append s (replicate (n - length s) 32),
    length-replicate {A = ℕ} (n - length s) 32,
  )

  -- A string without a NUL that fits in its field, and that trimming gives back once it is padded
  -- with spaces, is written to the end of the packet as `n` characters; they are read back at the
  -- place where the packet ended before as the string.
  pub read_string-write_string :
      c_str s ≡ s
      → length s ≤ n
      → ((k : ℕ) → t.trim_right (s ++ replicate k 32) ≡ s)
      → (q : PacketBase) × (write_string t s n p ≡ some q)
        × (length q.buffer ≡ length p.buffer + n)
        × (read_string t n true (record q { position = length p.buffer }) ≡ ok s q)
  unfolding write_string read_string padded
  read_string-write_string plain h trims =
      let grown = p.buffer ++ padded in
      let size : length grown ≡ length p.buffer + n =
        length-append p.buffer padded ∙ ap (λ k. length p.buffer + k) (length-padded h) in
      let q : PacketBase = record { buffer = grown; position = length grown } in
      let fits : ltb n (length s) ≡ false = ground arith in
      let inside : ltb (length grown) (length p.buffer + n) ≡ false = ground (arith, size) in
      let field : take n (drop (length p.buffer) grown) ≡ padded =
        ap (take n) (drop-append p.buffer padded)
        ∙ take_all n padded (omega (arith, length-padded h)) in
      (
        q,
        rw (write_string, plain, fits) refl,
        size,
        rw (read_string, inside, field, trims (n - length s), sym size) refl,
      )

  -- A string that is longer than its field is refused.
  pub write_string_long : n < length (c_str s) → write_string t s n p ≡ none
  unfolding write_string
  write_string_long h = ground arith
