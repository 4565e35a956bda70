-- ===== src/Ring/Until.antt =====
-- `ReadDataUtilByte`: reading up to a delimiter.
use native.Mathlib.Decide.{dec_lt}
use system_k_dev.Base.{
  ℕ, suc, zero, ◌<◌, ◌≡◌, refl, sym, ◌∙◌, ap, Bool, List, [], ◌∷◌, ◌++◌, Option, none, some, arith,
  ◌==◌, if◌then◌else◌, length, take, min, take-take, take-append-drop,
}
use system_k_dev.Ring.{RingBuffer, read_data, offset_of_byte, until_length, read_data_util_byte}
use system_k_dev.Ring.Valid.{IsValid, contents, length-contents}
use system_k_dev.Ring.Read.{read_data-take}
use system_k_dev.Ring.Search.{
  index_of, reported, IsSearchable, offset_of_byte-index_of, contents_empty,
}

-- The bytes up to the first `c`, with it or without.
unfoldable pub upto : ℕ → Bool → List ℕ → List ℕ
upto c inclusive [] = []
upto c inclusive (x ∷ xs) =
    if x == c then (if inclusive then x ∷ [] else []) else x ∷ upto c inclusive xs

-- How many bytes `ReadDataUtilByte` takes for a position that the search reports.
abbrev stop_length : Option ℕ → ℕ → Bool → ℕ
stop_length none n inclusive = n
stop_length (some k) n inclusive = if inclusive then suc k else k

take-stop_length :
    (c : ℕ) (inclusive : Bool) (xs : List ℕ)
    → take (stop_length (index_of c xs) (length xs) inclusive) xs ≡ upto c inclusive xs
unfolding index_of upto
take-stop_length c inclusive [] = ground arith
take-stop_length c inclusive (x ∷ xs) = ground (arith, take-stop_length c inclusive xs)

until_length-stop_length :
    (r : RingBuffer) (o : Option ℕ) (max : ℕ) (inclusive : Bool)
    → until_length r (reported o) max inclusive ≡ min (stop_length o r.data_length inclusive) max
until_length-stop_length r none max inclusive = ground arith
until_length-stop_length r (some k) max inclusive = ground arith

read_data_util_byte_some :
    (r : RingBuffer) (max c : ℕ) (inclusive : Bool)
    → IsValid r
    → 0 < r.data_length
    → read_data_util_byte r max c inclusive
      ≡ read_data r (until_length r (offset_of_byte r c) max inclusive)
unfolding read_data_util_byte
read_data_util_byte_some r max c inclusive v d = ground arith

read_data_util_byte_none :
    (r : RingBuffer) (max c : ℕ) (inclusive : Bool)
    → r.data_length ≡ 0
    → read_data_util_byte r max c inclusive ≡ ([], r)
unfolding read_data_util_byte
read_data_util_byte_none r max c inclusive e = ground arith

take-until_length :
    (r : RingBuffer) (max c : ℕ) (inclusive : Bool)
    → IsValid r
    → IsSearchable r
    → take (until_length r (offset_of_byte r c) max inclusive) (contents r)
      ≡ take max (upto c inclusive (contents r))
take-until_length r max c inclusive v s =
    let o = index_of c (contents r) in
    rw (offset_of_byte-index_of r c v s, until_length-stop_length r o max inclusive, ← take-take)
      (ap (take max) (
        ap (λ n. take (stop_length o n inclusive) (contents r)) (sym (length-contents r))
        ∙ take-stop_length c inclusive (contents r)))

upto_empty : (c : ℕ) (inclusive : Bool) (max : ℕ) → take max (upto c inclusive []) ≡ []
unfolding upto
upto_empty c inclusive zero = refl
upto_empty c inclusive (suc max) = refl

-- In a valid buffer whose data do not wrap, or start as far into the block as there are data,
-- `ReadDataUtilByte` returns the bytes up to the first delimiter, with it where
-- that is asked for, cut at the caller's limit; the bytes that it returns are taken off the data,
-- and the invariant is kept.
pub read_data_util_byte-upto :
    (r : RingBuffer) (max c : ℕ) (inclusive : Bool)
    → IsValid r
    → IsSearchable r
    → let (out, r') = read_data_util_byte r max c inclusive in
      (out ≡ take max (upto c inclusive (contents r)))
      × (contents r ≡ out ++ contents r')
      × IsValid r'
read_data_util_byte-upto r max c inclusive v s = elim (dec_lt 0 r.data_length) [
  | no h ↦
      let c' = contents_empty r c v (omega arith) in
      rw (read_data_util_byte_none r max c inclusive (omega arith), c')
        (sym (upto_empty c inclusive max), refl, v)
  | yes d ↦
      let n = until_length r (offset_of_byte r c) max inclusive in
      let (out, left, v') = read_data-take r n v in
      rw (read_data_util_byte_some r max c inclusive v d) (
        out ∙ take-until_length r max c inclusive v s,
        sym (rw (out, left) (take-append-drop n (contents r))),
        v',
      )
]
