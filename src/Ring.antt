-- ===== src/Ring.antt =====
-- market_data/itch/ExpandableRingBuffer.{h,cpp}: the receive buffer of the ITCH client.
-- A block of memory is a function from addresses to bytes, so a read past the end of the block
-- sees whatever lies there; `int` quantities are unbounded here. What realloc leaves
-- uninitialised is the parameter `junk`. `none` is a failed assertion.
pub mod Valid
pub mod Write
pub mod Expand
pub mod Read
pub mod Search
pub mod Until
pub mod Refill
pub mod Loss
pub mod Fifo
mod Tests
use system_k_dev.Base.{
  ℕ, zero, suc, ◌+◌, ◌-◌, ◌*◌, ◌/◌, ◌%◌, Bool, true, false, ◌||◌, not, Option, none, some, List, [],
  ◌∷◌, ◌++◌, length, get_or, tabulate, ltb, leb, ◌==◌, if◌then◌else◌,
}
use system_k_dev.Base.Int.{ℤ, pos, negsuc, sub_ℕ}

abbrev pub Block : Type 0
Block = ℕ → ℕ

pub record RingBuffer : Type 0 where
  pub block_size : ℕ
  pub allocated : Bool
  pub mem : Block
  pub buffer_length : ℕ
  pub data_offset : ℕ
  pub data_length : ℕ

abbrev pub default_ringbuffer_blocksize : ℕ
default_ringbuffer_blocksize = 8192

-- The constructor.
pub init : ℤ → RingBuffer
init block = record {
  block_size = elim block [
    | pos n ↦ if n == 0 then default_ringbuffer_blocksize else n
    | negsuc _ ↦ default_ringbuffer_blocksize
  ];
  allocated = false;
  mem = λ _. 0;
  buffer_length = 0;
  data_offset = 0;
  data_length = 0;
}

-- memcpy and memmove of `n` bytes to address `dst`.
abbrev pub copy : Block → ℕ → ℕ → (ℕ → ℕ) → Block
copy m dst n src i = if ltb i dst then m i else if ltb i (dst + n) then src (i - dst) else m i

-- realloc of a block of `old` bytes to at least as many.
abbrev pub realloc : Block → Block → ℕ → Block
realloc junk m old i = if ltb i old then m i else junk i

abbrev pub round_up : ℕ → ℕ → ℕ
round_up n block = (n + block - 1) / block * block

-- The bytes of the caller's buffer.
abbrev pub source : List ℕ → ℕ → ℕ
source xs i = get_or xs i 0

-- The address behind the last data byte.
abbrev pub data_end : RingBuffer → ℕ
data_end r = (r.data_offset + r.data_length) % r.buffer_length

module _ (junk : Block) where
  -- `WriteData` on a buffer with no data.
  pub write_first : RingBuffer → List ℕ → Option RingBuffer
  write_first r xs =
      let new = round_up (length xs) r.block_size in
      let grown = ltb r.buffer_length new in
      let mem = if grown then realloc junk r.mem r.buffer_length else r.mem in
      if r.data_offset == 0
      then some (record r {
        allocated = if grown then true else r.allocated;
        buffer_length = if grown then new else r.buffer_length;
        mem = copy mem 0 (length xs) (source xs);
        data_length = length xs;
      })
      else none

  -- The part of `WriteData` that moves wrapped data in a block that has grown from `old` to `new`.
  pub unwrap : Block → (offset end old new : ℕ) → Block
  unwrap m offset end old new =
      let move = if ltb end (new - old) then end else new - old in
      let moved = copy m old move m in
      if ltb end offset
      then (if ltb move end then copy moved move (end - move) moved else moved)
      else m

  -- The part of `WriteData` that enlarges the block when `n` more bytes do not fit.
  pub expand : RingBuffer → ℕ → RingBuffer
  expand r n =
      let new = round_up (r.data_length + n) r.block_size in
      let mem = realloc junk r.mem r.buffer_length in
      if ltb (r.buffer_length - r.data_length) n
      then record r {
        mem =
            if ltb 0 r.data_length
            then unwrap mem r.data_offset (data_end r) r.buffer_length new
            else mem;
        buffer_length = new;
      }
      else r

-- The part of `WriteData` that copies the bytes in, once there is room.
pub store : RingBuffer → List ℕ → Option RingBuffer
store r xs =
    let end = data_end r in
    let trailing = r.buffer_length - end in
    let move = if ltb trailing (length xs) then trailing else length xs in
    let tail = copy r.mem end move (source xs) in
    let done = λ (m : Block). record r { mem = m; data_length = r.data_length + length xs } in
    if ltb r.data_offset end
    then (if ltb 0 trailing
        then some (
            done (
              if ltb move (length xs)
              then copy tail 0 (length xs - move) (λ i. source xs (move + i))
              else tail))
        else none)
    else some (done (copy r.mem end (length xs) (source xs)))

pub write_data : Block → RingBuffer → List ℕ → Option RingBuffer
write_data junk r xs =
    if length xs == 0
    then some r
    else if not r.allocated || r.data_length == 0
    then write_first junk r xs
    else store (expand junk r (length xs)) xs

pub peek_byte : RingBuffer → ℕ
peek_byte r = if not r.allocated || r.data_length == 0 then 0 else r.mem r.data_offset

-- The bytes that `ReadData` copies out, and the buffer after it.
pub read_some : RingBuffer → ℕ → List ℕ × RingBuffer
read_some r n =
    let move = r.buffer_length - r.data_offset in
    let left = r.data_length - n in
    (
      if ltb r.buffer_length (r.data_offset + n)
          then tabulate r.mem r.data_offset move ++ tabulate r.mem 0 (n - move)
          else tabulate r.mem r.data_offset n,
      record r {
        data_length = left;
        data_offset = if left == 0 then 0 else (r.data_offset + n) % r.buffer_length;
      },
    )

-- The value returned is the length of the list.
pub read_data : RingBuffer → ℕ → List ℕ × RingBuffer
read_data r n =
    if not r.allocated || r.data_length == 0
    then ([], r)
    else read_some r (if ltb r.data_length n then r.data_length else n)

-- memchr: the distance from `i` to the first `c` among `n` bytes.
abbrev pub memchr : Block → ℕ → ℕ → ℕ → Option ℕ
memchr m i c zero = none
memchr m i c (suc n) =
    if m i == c then some 0 else elim (memchr m (suc i) c n) [ none ↦ none | some k ↦ some (suc k) ]

-- The search starts `data_length` bytes into the block, as the code has it.
pub offset_wrapped : RingBuffer → ℕ → ℤ
offset_wrapped r c =
    let trailing = r.buffer_length - r.data_offset in
    elim (memchr r.mem r.data_length c trailing) [
      | some k ↦ sub_ℕ (r.data_length + k) r.data_offset
      | none ↦ elim (memchr r.mem 0 c (r.data_length - trailing)) [
        | some k ↦ pos (k + trailing)
        | none ↦ negsuc 0
      ]
    ]

pub offset_of_byte : RingBuffer → ℕ → ℤ
offset_of_byte r c =
    if not r.allocated || r.data_length == 0
    then negsuc 0
    else if ltb r.buffer_length (r.data_offset + r.data_length)
    then offset_wrapped r c
    else elim (memchr r.mem r.data_offset c r.data_length) [ some k ↦ pos k | none ↦ negsuc 0 ]

pub contains_byte : RingBuffer → ℕ → Bool
contains_byte r c = elim (offset_of_byte r c) [ pos _ ↦ true | negsuc _ ↦ false ]

-- How many bytes `ReadDataUtilByte` asks for.
abbrev pub until_length : RingBuffer → ℤ → ℕ → Bool → ℕ
until_length r at max inclusive =
    let stop : ℕ = elim at [ negsuc _ ↦ r.data_length | pos k ↦ if inclusive then k + 1 else k ] in
    if ltb stop max then stop else max

pub read_data_util_byte : RingBuffer → ℕ → ℕ → Bool → List ℕ × RingBuffer
read_data_util_byte r max c inclusive =
    if not r.allocated || r.data_length == 0
    then ([], r)
    else read_data r (until_length r (offset_of_byte r c) max inclusive)
