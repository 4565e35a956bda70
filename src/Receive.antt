-- ===== src/Receive.antt =====
-- market_data/itch/Socket.cpp: how `RecvPacket` takes a packet out of the receive buffer. What
-- `recv` returns is a parameter, the list of the chunks to come.
mod Tests
use mathlib.Core.List.{append_assoc}
use system_k_dev.Base.{
  ℕ, suc, ◌+◌, ◌-◌, ◌≤◌, ◌<◌, ◌≡◌, refl, sym, ◌∙◌, ap, Bool, true, false, ◌||◌, Option, none, some,
  List, [], ◌∷◌, ◌++◌, ◌==◌, if◌then◌else◌, length, take, take_all, length-append, arith, inl, inr,
  Bool-cases, subst,
}
use system_k_dev.Ring.{Block, RingBuffer, read_data_util_byte, write_data}
use system_k_dev.Ring.Valid.{IsValid, IsContiguous, contents, length-contents}
use system_k_dev.Ring.Expand.{write_data-append}
use system_k_dev.Ring.Search.{IsSearchable}
use system_k_dev.Ring.Until.{upto, read_data_util_byte-upto}
use system_k_dev.Ring.Refill.{write_data-IsContiguous}

-- Is the last byte TLF?
unfoldable pub ends_tlf : List ℕ → Bool
ends_tlf [] = false
ends_tlf (c ∷ []) = c == 10
ends_tlf (c ∷ d ∷ cs) = ends_tlf (d ∷ cs)

-- The packet, the buffer and the chunks after it; `none` when it waits for more than the chunks,
-- or an assertion of the buffer fails.
unfoldable pub recv_packet :
    Block → RingBuffer → List ℕ → List (List ℕ) → Option (List ℕ × RingBuffer × List (List ℕ))
recv_packet junk r str [] =
    let (out, r') = read_data_util_byte r 2048 10 true in
    if ends_tlf out then some (str ++ out, r', []) else none
recv_packet junk r str (chunk ∷ chunks) =
    let (out, r') = read_data_util_byte r 2048 10 true in
    elim (ends_tlf out) [
      | true ↦ some (str ++ out, r', chunk ∷ chunks)
      | false ↦ elim (write_data junk r' chunk) [
        | none ↦ none
        | some r'' ↦ recv_packet junk r'' (str ++ out) chunks
      ]
    ]

unfoldable pub has_tlf : List ℕ → Bool
has_tlf [] = false
has_tlf (c ∷ cs) = (c == 10) || has_tlf cs

unfoldable pub join : List (List ℕ) → List ℕ
join [] = []
join (c ∷ cs) = c ++ join cs

-- Every chunk fits in the buffer of the call of `recv`.
abbrev pub AllFit : List (List ℕ) → Type 0
AllFit [] = Unit {0}
AllFit (c ∷ cs) = (length c ≤ 2048) × AllFit cs

ends_tlf-cons : (c : ℕ) (cs : List ℕ) → (c == 10) ≡ false → ends_tlf (c ∷ cs) ≡ ends_tlf cs
unfolding ends_tlf
ends_tlf-cons c [] e = e
ends_tlf-cons c (d ∷ cs) e = refl

ends_tlf-upto : (d : List ℕ) → ends_tlf (upto 10 true d) ≡ has_tlf d
unfolding ends_tlf has_tlf upto
ends_tlf-upto [] = refl
ends_tlf-upto (c ∷ d) = elim (Bool-cases (c == 10)) [
  | inl e ↦ rw (e, e) refl
  | inr e ↦ rw e (ends_tlf-cons c (upto 10 true d) e ∙ ends_tlf-upto d)
]

upto_none : (d : List ℕ) → has_tlf d ≡ false → upto 10 true d ≡ d
unfolding has_tlf upto
upto_none [] e = refl
upto_none (c ∷ d) e = ground (arith, upto_none d)

upto-append : (d e : List ℕ) → has_tlf d ≡ true → upto 10 true (d ++ e) ≡ upto 10 true d
unfolding has_tlf upto
upto-append [] e h = cc
upto-append (c ∷ d) e h = ground (arith, upto-append d e)

upto-append_none : (d e : List ℕ) → has_tlf d ≡ false → upto 10 true (d ++ e) ≡ d ++ upto 10 true e
unfolding has_tlf upto
upto-append_none [] e h = refl
upto-append_none (c ∷ d) e h = ground (arith, upto-append_none d e)

has_tlf-append : (d e : List ℕ) → has_tlf (d ++ e) ≡ (has_tlf d || has_tlf e)
unfolding has_tlf
has_tlf-append [] e = refl
has_tlf-append (c ∷ d) e = ground (arith, has_tlf-append d e)

length-upto : (d : List ℕ) → length (upto 10 true d) ≤ length d
unfolding upto
length-upto [] = omega arith
length-upto (c ∷ d) = ground (arith, length-upto d)

-- What one read leaves, with all the data within the caller's buffer.
one_read :
    (r : RingBuffer)
    → IsValid r
    → IsSearchable r
    → r.data_length ≤ 2048
    → let (out, r') = read_data_util_byte r 2048 10 true in
      (out ≡ upto 10 true (contents r)) × (contents r ≡ out ++ contents r') × IsValid r'
one_read r v s small =
    let (out, left, v') = read_data_util_byte-upto r 2048 10 true v s in
    (
      out
          ∙ take_all 2048 (upto 10 true (contents r))
              (omega (arith, length-upto (contents r), length-contents r)),
      left,
      v',
    )

-- A read that takes everything empties the buffer.
emptied :
    (r : RingBuffer) (d : List ℕ)
    → IsValid r
    → d ≡ d ++ contents r
    → (r.data_length ≡ 0) × IsContiguous r × (contents r ≡ [])
emptied r d v e =
    let none_left : r.data_length ≡ 0 =
      omega
        (arith, ap (λ (x : List ℕ). length x) e, length-append d (contents r), length-contents r) in
    (none_left, ground (arith, none_left), rw none_left refl)

abbrev Received : Block → RingBuffer → List ℕ → List (List ℕ) → List ℕ → Type 0
Received junk r str chunks all =
    (r' : RingBuffer) × (rest : List (List ℕ)) × (recv_packet junk r str chunks
      ≡ some (str ++ upto 10 true all, r', rest))
    × IsValid r'
    × (all ≡ upto 10 true all ++ (contents r' ++ join rest))

-- The packet is in the buffer.
at_once :
    (junk : Block) (chunks : List (List ℕ)) (r : RingBuffer) (str : List ℕ)
    → IsValid r
    → IsSearchable r
    → r.data_length ≤ 2048
    → has_tlf (contents r) ≡ true
    → Received junk r str chunks (contents r ++ join chunks)
unfolding recv_packet join
at_once junk chunks r str v s small h =
    let r1 = (read_data_util_byte r 2048 10 true).1 in
    let (out, left, v') = one_read r v s small in
    let ends : ends_tlf (read_data_util_byte r 2048 10 true).0 ≡ true =
      rw out (ends_tlf-upto (contents r)) ∙ h in
    (
      (read_data_util_byte r 2048 10 true).1,
      chunks,
      found chunks ends (upto-append (contents r) (join chunks) h) out,
      v',
      ap (λ x. x ++ join chunks) (left ∙ ap (λ x. x ++ contents r1) out)
          ∙ append_assoc (upto 10 true (contents r)) (contents r1) (join chunks)
          ∙ ap (λ x. x ++ (contents r1 ++ join chunks))
              (sym (upto-append (contents r) (join chunks) h)),
    )
  where
    found :
        (cs : List (List ℕ))
        → ends_tlf (read_data_util_byte r 2048 10 true).0 ≡ true
        → upto 10 true (contents r ++ join chunks) ≡ upto 10 true (contents r)
        → (read_data_util_byte r 2048 10 true).0 ≡ upto 10 true (contents r)
        → recv_packet junk r str cs
          ≡ some (
            str ++ upto 10 true (contents r ++ join chunks),
            (read_data_util_byte r 2048 10 true).1,
            cs,
          )
    found [] ends e out = rw (recv_packet, ends, e, out) refl
    found (c ∷ cs) ends e out = rw (recv_packet, ends, e, out) refl

next_chunk :
    (junk : Block) (c : List ℕ) (cs : List (List ℕ)) (r r2 : RingBuffer) (str d : List ℕ)
    → (read_data_util_byte r 2048 10 true).0 ≡ d
    → ends_tlf (read_data_util_byte r 2048 10 true).0 ≡ false
    → write_data junk (read_data_util_byte r 2048 10 true).1 c ≡ some r2
    → recv_packet junk r str (c ∷ cs) ≡ recv_packet junk r2 (str ++ d) cs
unfolding recv_packet
next_chunk junk c cs r r2 str d out ends w =
    rw (recv_packet, ends, w) (ap (λ x. recv_packet junk r2 (str ++ x) cs) out)

-- The packet is not in the buffer yet: its data and the next chunk come first.
later :
    (junk : Block) (c : List ℕ) (cs : List (List ℕ)) (r : RingBuffer) (str : List ℕ)
    → IsValid r
    → IsSearchable r
    → r.data_length ≤ 2048
    → has_tlf (contents r) ≡ false
    → ((r2 : RingBuffer)
        → IsValid r2
        → IsSearchable r2
        → contents r2 ≡ c
        → Received junk r2 (str ++ contents r) cs (c ++ join cs))
    → Received junk r str (c ∷ cs) (contents r ++ (c ++ join cs))
later junk c cs r str v s small h next =
    let read = read_data_util_byte r 2048 10 true in
    let (out, left, v') = one_read r v s small in
    let all_of_it : read.0 ≡ contents r = out ∙ upto_none (contents r) h in
    let ends : ends_tlf read.0 ≡ false = rw out (ends_tlf-upto (contents r)) ∙ h in
    let (empty, contiguous, nothing) =
      emptied read.1 (contents r) v' (left ∙ ap (λ x. x ++ contents read.1) all_of_it) in
    let (r2, w, v2, c2, _) = write_data-append junk read.1 c v' (inr (inl contiguous)) in
    let fresh = write_data-IsContiguous junk read.1 r2 c v' empty w in
    let (r', rest, done, v3, split) = next r2 v2 (inl fresh) (c2 ∙ ap (λ x. x ++ c) nothing) in
    let stop : upto 10 true (contents r ++ (c ++ join cs))
        ≡ contents r ++ upto 10 true (c ++ join cs) =
      upto-append_none (contents r) (c ++ join cs) h in
    (
      r',
      rest,
      next_chunk junk c cs r r2 str (contents r) all_of_it ends w
          ∙ done
          ∙ ap (λ x. some (x, r', rest))
              (append_assoc str (contents r) (upto 10 true (c ++ join cs)))
          ∙ ap (λ x. some (str ++ x, r', rest)) (sym stop),
      v3,
      ap (λ x. contents r ++ x) split
          ∙ sym (append_assoc (contents r) (upto 10 true (c ++ join cs)) (contents r' ++ join rest))
          ∙ ap (λ x. x ++ (contents r' ++ join rest)) (sym stop),
    )

-- When the buffer and the chunks to come have a TLF among them, the buffer has at most 2048 bytes
-- and searches its data correctly, and no chunk is longer than 2048 bytes, `RecvPacket` returns.
-- The packet is the bytes up to the first TLF, with it, behind what it has already; what follows
-- is left, in order, in a valid buffer and the chunks not yet received.
pub recv_packet-upto :
    (junk : Block) (chunks : List (List ℕ)) (r : RingBuffer) (str : List ℕ)
    → IsValid r
    → IsSearchable r
    → r.data_length ≤ 2048
    → AllFit chunks
    → has_tlf (contents r ++ join chunks) ≡ true
    → (r' : RingBuffer) × (rest : List (List ℕ)) × (recv_packet junk r str chunks
        ≡ some (str ++ upto 10 true (contents r ++ join chunks), r', rest))
      × IsValid r'
      × (contents r ++ join chunks
          ≡ upto 10 true (contents r ++ join chunks) ++ (contents r' ++ join rest))
unfolding join has_tlf
recv_packet-upto junk [] r str v s small fit h = elim (Bool-cases (has_tlf (contents r))) [
  | inl e ↦ at_once junk [] r str v s small e
  | inr e ↦ absurd (ground (arith, has_tlf-append (contents r) [], e, h))
]
recv_packet-upto junk (c ∷ cs) r str v s small fit h = elim (Bool-cases (has_tlf (contents r))) [
  | inl e ↦ at_once junk (c ∷ cs) r str v s small e
  | inr e ↦ later junk c cs r str v s small e λ r2 v2 s2 same.
      let there : has_tlf (c ++ join cs) ≡ true =
        ground (arith, has_tlf-append (contents r) (c ++ join cs), e, h) in
      subst (λ x. Received junk r2 (str ++ contents r) cs (x ++ join cs)) same
        (recv_packet-upto junk cs r2 (str ++ contents r) v2 s2
          (omega (arith, fit.0, length-contents r2, ap (λ (x : List ℕ). length x) same)) fit.1
          (rw same there))
]
