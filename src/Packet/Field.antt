-- ===== src/Packet/Field.antt =====
-- Fields of a packet: reading one at its place, and what writing appends.
use system_k_dev.Base.{
  ℕ, suc, ◌+◌, ◌-◌, ◌≤◌, ◌≡◌, refl, sym, ◌∙◌, ap, true, false, some, List, [], ◌∷◌, ◌++◌, length,
  take, drop, replicate, get_or, length-append, length-replicate, drop-append, take-append, arith,
  ltb, leb,
}
use system_k_dev.Base.Int.{ℤ}
use system_k_dev.Packet.{
  PacketBase, TextOps, ok, read_char, read_string, write_char, write_string, write_long, c_str,
}

-- The packet with more characters at its end, and the position behind them.
abbrev pub extended : PacketBase → List ℕ → PacketBase
extended p s = let grown = p.buffer ++ s in record { buffer = grown; position = length grown }

-- A string padded on the right, and one padded on the left.
abbrev pub pad_right : List ℕ → ℕ → List ℕ
pad_right s n = s ++ replicate (n - length s) 32

abbrev pub pad_left : List ℕ → ℕ → List ℕ
pad_left s n = replicate (n - length s) 32 ++ s

pub length-pad_right : (s : List ℕ) (n : ℕ) → length s ≤ n → length (pad_right s n) ≡ n
length-pad_right s n h = omega (
  arith,
  length-append s (replicate (n - length s) 32),
  length-replicate {A = ℕ} (n - length s) 32,
)

pub write_char-extended : (c : ℕ) (p : PacketBase) → write_char c p ≡ extended p (c ∷ [])
unfolding write_char
write_char-extended c p = refl

module _ {F : Type 0} (t : TextOps F) where
  pub write_string-extended :
      (s : List ℕ) (n : ℕ) (p : PacketBase)
      → c_str s ≡ s
      → length s ≤ n
      → write_string t s n p ≡ some (extended p (pad_right s n))
  unfolding write_string
  write_string-extended s n p plain h =
      let fits : ltb n (length s) ≡ false = ground arith in rw (write_string, plain, fits) refl

  pub write_long-extended :
      (i : ℤ) (n : ℕ) (p : PacketBase)
      → length (t.decimal i) ≤ n
      → write_long t i n p ≡ some (extended p (pad_left (t.decimal i) n))
  unfolding write_long
  write_long-extended i n p h =
      let fits : ltb n (length (t.decimal i)) ≡ false = ground arith in rw (write_long, fits) refl

  pub read_string-field :
      (p : PacketBase) (pre f post : List ℕ) (n : ℕ)
      → p.buffer ≡ pre ++ (f ++ post)
      → p.position ≡ length pre
      → length f ≡ n
      → read_string t n true p ≡ ok (t.trim_right f) (record p { position = p.position + n })
  unfolding read_string
  read_string-field p pre f post n e at len =
      let size : length p.buffer ≡ length pre + (length f + length post) =
        ap (λ (x : List ℕ). length x) e
        ∙ length-append pre (f ++ post)
        ∙ ap (λ k. length pre + k) (length-append f post) in
      let inside : ltb (length p.buffer) (p.position + n) ≡ false = ground (arith, size) in
      let text : take n (drop p.position p.buffer) ≡ f =
        rw (e, at, drop-append pre (f ++ post), sym len) (take-append f post) in
      rw (read_string, inside, text) refl

pub read_char-field :
    (p : PacketBase) (pre post : List ℕ) (c : ℕ)
    → p.buffer ≡ pre ++ (c ∷ post)
    → p.position ≡ length pre
    → read_char p ≡ ok c (record p { position = suc p.position })
unfolding read_char
read_char-field p pre post c e at =
    let size : length p.buffer ≡ length pre + suc (length post) =
      ap (λ (x : List ℕ). length x) e ∙ length-append pre (c ∷ post) in
    let inside : leb (length p.buffer) p.position ≡ false = ground (arith, size) in
    let char : get_or p.buffer p.position 0 ≡ c = rw (e, at) (get_or_there pre post c) in
    rw (read_char, inside, char) refl
  where
    get_or_there : (pre post : List ℕ) (c : ℕ) → get_or (pre ++ (c ∷ post)) (length pre) 0 ≡ c
    get_or_there [] post c = refl
    get_or_there (x ∷ pre) post c = get_or_there pre post c
