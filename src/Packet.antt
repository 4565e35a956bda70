-- ===== src/Packet.antt =====
-- market_data/itch/msg/PacketBase.{h,cpp}: a packet and the reads and writes at its position.
pub mod Safe
pub mod Write
pub mod Size
pub mod Field
use system_k_dev.Base.{
  ℕ, zero, suc, ◌+◌, ◌-◌, ◌%◌, ◌^◌, Bool, true, false, not, ◌||◌, Option, none, some, List, [], ◌∷◌,
  ◌++◌, ◌==◌, if◌then◌else◌, ltb, leb, length, get_or, take, drop, replicate,
}
use system_k_dev.Base.Int.{ℤ, pos, negsuc}

-- Characters are their codes.
pub record PacketBase : Type 0 where
  pub buffer : List ℕ
  pub position : ℕ

-- What the code uses of the C library and of boost: std::string trimmed on the right; strtol and
-- strtod, which return a value, what is left of the string and whether errno is set; and a long
-- printed in decimal.
pub record TextOps (F : Type 0) : Type 0 where
  pub trim_right : List ℕ → List ℕ
  pub strtol : List ℕ → ℤ × List ℕ × Bool
  pub strtod : List ℕ → F × List ℕ × Bool
  pub decimal : ℤ → List ℕ

-- A read that returns true with its value or false, and the packet after it; `lost` is the
-- position -1, which `ReadUntilTLF` leaves in an empty packet.
pub data Outcome (A : Type 0) : Type 0 where
  ok : A → PacketBase → Outcome A
  fail : PacketBase → Outcome A
  lost : Outcome A

abbrev pub Reader : Type 0 → Type 0
Reader A = PacketBase → Outcome A

abbrev pub pure : {A : Type 0} → A → Reader A
pure a p = ok a p

infixl 5 ◌>>=◌
unfoldable pub ◌>>=◌ : {A B : Type 0} → Reader A → (A → Reader B) → Reader B
(r >>= f) p = elim (r p) [ ok a q ↦ f a q | fail q ↦ fail q | lost ↦ lost ]

-- `while (--n >= 0)` around a load, into a list.
unfoldable pub load_times : {A : Type 0} → ℕ → Reader A → Reader (List A)
load_times zero r = pure []
load_times (suc n) r = do a ← r; as' ← load_times n r; pure (a ∷ as')

abbrev pub count_of : ℤ → ℕ
count_of (pos n) = n
count_of (negsuc n) = 0

-- The characters before the first NUL.
unfoldable pub c_str : List ℕ → List ℕ
c_str [] = []
c_str (c ∷ cs) = if c == 0 then [] else c ∷ c_str cs

abbrev pub packet : List ℕ → PacketBase
packet s = record { buffer = s; position = 0 }

pub peek_char : PacketBase → ℕ
peek_char p = if leb (length p.buffer) p.position then 0 else get_or p.buffer p.position 0

unfoldable pub read_char : Reader ℕ
read_char p =
    if leb (length p.buffer) p.position
    then fail p
    else ok (get_or p.buffer p.position 0) (record p { position = suc p.position })

-- Two's complement of 32 bits.
abbrev pub signed : ℕ → ℤ
signed m = if ltb m (2 ^ 31) then pos m else negsuc (2 ^ 32 - 1 - m)

unfoldable pub to_int : ℤ → ℤ
to_int (pos n) = signed (n % 2 ^ 32)
to_int (negsuc n) = signed (2 ^ 32 - 1 - n % 2 ^ 32)

module _ {F : Type 0} (t : TextOps F) where
  unfoldable pub read_string : ℕ → (trim : Bool) → Reader (List ℕ)
  read_string n trim p =
      let s = take n (drop p.position p.buffer) in
      if ltb (length p.buffer) (p.position + n)
      then fail p
      else ok (if trim then t.trim_right s else s) (record p { position = p.position + n })

  -- The tests on what strtol and strtod return.
  unfoldable pub converted : {A : Type 0} → A × List ℕ × Bool → Reader A
  converted (value, rest, errno) p = if not (length rest == 0) || errno then fail p else ok value p

  unfoldable pub read_long : ℕ → Reader ℤ
  read_long n = do s ← read_string n true; converted (t.strtol (c_str s))

  unfoldable pub read_int : ℕ → Reader ℤ
  read_int n = do value ← read_long n; pure (to_int value)

  unfoldable pub read_dbl : ℕ → Reader F
  read_dbl n = do s ← read_string n true; converted (t.strtod (c_str s))

  pub write_string : List ℕ → ℕ → PacketBase → Option PacketBase
  write_string s n p =
      let text = c_str s in
      let grown = p.buffer ++ (text ++ replicate (n - length text) 32) in
      if ltb n (length text)
      then none
      else some (record { buffer = grown; position = length grown })

  pub write_long : ℤ → ℕ → PacketBase → Option PacketBase
  write_long num n p =
      let digits = t.decimal num in
      let grown = p.buffer ++ (replicate (n - length digits) 32 ++ digits) in
      if ltb n (length digits)
      then none
      else some (record { buffer = grown; position = length grown })

unfoldable pub write_char : ℕ → PacketBase → PacketBase
write_char c p =
    let grown = p.buffer ++ (c ∷ []) in record { buffer = grown; position = length grown }

-- The size less one is a size_t: on an empty packet it is the largest, and the position that is
-- set to it, an int, becomes -1.
pub read_until_tlf : Reader (List ℕ)
read_until_tlf p =
    let last = length p.buffer - 1 in
    if length p.buffer == 0
    then lost
    else if leb last p.position
    then fail p
    else ok (take (last - p.position) (drop p.position p.buffer)) (record p { position = last })

pub reset_read_position : ℤ → PacketBase → Option PacketBase
reset_read_position (negsuc n) p = none
reset_read_position (pos n) p =
    if ltb (length p.buffer) n then none else some (record p { position = n })
