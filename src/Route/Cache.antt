-- ===== src/Route/Cache.antt =====
-- order_entry/order-fix/msg_cache.h: how the two caches write their entries to a file and read them
-- back. The hash map and its own part of the file are not here; a file is its bytes, as an x86-64
-- writes them, and a write succeeds.
use mathlib.Core.List.{append_assoc}
use native.Mathlib.Nat.{pow-suc}
use system_k_dev.Base.{
  ℕ, zero, suc, ◌+◌, ◌*◌, ◌/◌, ◌%◌, ◌^◌, ◌≤◌, ◌<◌, ◌≡◌, refl, ◌∙◌, ap, subst, Option, none, some,
  [], ◌∷◌, ◌++◌, leb, length, take, drop, arith, take-append, drop-append, length-append,
  if◌then◌else◌, ◌>>=◌,
}
use system_k_dev.Route.{Bytes, Route, uuid_len, nodes_size}

-- fread of one item of `n` bytes, and what is left of the file.
unfoldable pub fread : (n : ℕ) → (file : Bytes) → Option (Bytes × Bytes)
fread n file = if leb n (length file) then some (take n file, drop n file) else none

-- An unsigned integer of `w` bytes, the lowest first.
unfoldable pub le_bytes : (w n : ℕ) → Bytes
le_bytes zero n = []
le_bytes (suc w) n = (n % 256) ∷ le_bytes w (n / 256)

unfoldable pub of_le_bytes : Bytes → ℕ
of_le_bytes [] = 0
of_le_bytes (b ∷ bs) = b + 256 * of_le_bytes bs

-- The sizes of size_t and of OrderStatus_t.
abbrev size_of_size : ℕ
size_of_size = 8

abbrev size_of_status : ℕ
size_of_status = 4

-- An entry of the strategy cache.
pub record StrategyEntry : Type 0 where
  pub sid : Bytes
  pub route : Route

unfoldable pub write_strategy : StrategyEntry → Bytes
write_strategy v = v.sid ++ (le_bytes size_of_size v.route.num_nodes ++ v.route.nodes)

unfoldable pub read_strategy : (file : Bytes) → Option (StrategyEntry × Bytes)
read_strategy file = do
  (sid, file) ← fread uuid_len file
  (num_nodes, file) ← fread size_of_size file
  (nodes, file) ← fread nodes_size file
  some (
    record { sid = sid; route = record { num_nodes = of_le_bytes num_nodes; nodes = nodes } },
    file,
  )

-- An entry of the order cache, with the order that it points to.
pub record OrderEntry : Type 0 where
  pub key : Bytes
  pub oid : Bytes
  pub sid : Bytes
  pub status : ℕ

unfoldable pub write_order : OrderEntry → Bytes
write_order v = v.key ++ (v.oid ++ (v.sid ++ le_bytes size_of_status v.status))

unfoldable pub read_order : (file : Bytes) → Option (OrderEntry × Bytes)
read_order file = do
  (key, file) ← fread uuid_len file
  (oid, file) ← fread uuid_len file
  (sid, file) ← fread uuid_len file
  (status, file) ← fread size_of_status file
  some (record { key = key; oid = oid; sid = sid; status = of_le_bytes status }, file)

pub length-le_bytes : (w n : ℕ) → length (le_bytes w n) ≡ w
unfolding le_bytes
length-le_bytes zero n = refl
length-le_bytes (suc w) n = ap suc (length-le_bytes w (n / 256))

pub of_le_bytes-le_bytes : (w n : ℕ) → n < 256 ^ w → of_le_bytes (le_bytes w n) ≡ n
unfolding le_bytes of_le_bytes
of_le_bytes-le_bytes zero n h = omega arith
of_le_bytes-le_bytes (suc w) n h =
    let wide : n < 256 ^ w * 256 = subst (λ k. n < k) (pow-suc 256 w) h in
    let small : n / 256 < 256 ^ w = omega arith in
    omega (arith, of_le_bytes-le_bytes w (n / 256) small)

fread-append : (n : ℕ) (a rest : Bytes) → length a ≡ n → fread n (a ++ rest) ≡ some (a, rest)
unfolding fread
fread-append n a rest e =
    let fits : n ≤ length (a ++ rest) = omega (arith, length-append {0} a rest) in
    ground (
      arith,
      fits,
      subst (λ k. take k (a ++ rest) ≡ a) e (take-append a rest),
      subst (λ k. drop k (a ++ rest) ≡ rest) e (drop-append a rest),
    )

-- What a chain of reads does with bytes that begin with those of its first read.
then_read :
    {A : Type 0} (n : ℕ) (a rest : Bytes) (f : Bytes × Bytes → Option A)
    → length a ≡ n
    → (fread n (a ++ rest) >>= f) ≡ f (a, rest)
then_read n a rest f e = ap (λ r. r >>= f) (fread-append n a rest e)

-- An entry of the strategy cache whose id has 16 bytes, whose array of addresses has its 68 bytes
-- and whose number of addresses fits in 64 bits is read back as it was written, and the rest of
-- the file is left.
pub read_strategy-write_strategy :
    (v : StrategyEntry) (rest : Bytes)
    → length v.sid ≡ uuid_len
    → length v.route.nodes ≡ nodes_size
    → v.route.num_nodes < 256 ^ size_of_size
    → read_strategy (write_strategy v ++ rest) ≡ some (v, rest)
unfolding read_strategy write_strategy
read_strategy-write_strategy v rest sid nodes small =
    let count = le_bytes size_of_size v.route.num_nodes in
    ap read_strategy (
      append_assoc v.sid (count ++ v.route.nodes) rest
      ∙ ap (λ x. v.sid ++ x) (append_assoc count v.route.nodes rest))
    ∙ then_read uuid_len v.sid (count ++ (v.route.nodes ++ rest)) _ sid
    ∙ then_read size_of_size count (v.route.nodes ++ rest) _
        (length-le_bytes size_of_size v.route.num_nodes)
    ∙ then_read nodes_size v.route.nodes rest _ nodes
    ∙ ap (λ n. some (record v { route = record v.route { num_nodes = n } }, rest))
        (of_le_bytes-le_bytes size_of_size v.route.num_nodes small)

-- An entry of the order cache whose three ids have 16 bytes and whose status fits in 32 bits is
-- read back as it was written, and the rest of the file is left.
pub read_order-write_order :
    (v : OrderEntry) (rest : Bytes)
    → length v.key ≡ uuid_len
    → length v.oid ≡ uuid_len
    → length v.sid ≡ uuid_len
    → v.status < 256 ^ size_of_status
    → read_order (write_order v ++ rest) ≡ some (v, rest)
unfolding read_order write_order
read_order-write_order v rest key oid sid small =
    let status = le_bytes size_of_status v.status in
    ap read_order (
      append_assoc v.key (v.oid ++ (v.sid ++ status)) rest
      ∙ ap (λ x. v.key ++ x) (append_assoc v.oid (v.sid ++ status) rest)
      ∙ ap (λ x. v.key ++ (v.oid ++ x)) (append_assoc v.sid status rest))
    ∙ then_read uuid_len v.key (v.oid ++ (v.sid ++ (status ++ rest))) _ key
    ∙ then_read uuid_len v.oid (v.sid ++ (status ++ rest)) _ oid
    ∙ then_read uuid_len v.sid (status ++ rest) _ sid
    ∙ then_read size_of_status status rest _ (length-le_bytes size_of_status v.status)
    ∙ ap (λ n. some (record v { status = n }, rest))
        (of_le_bytes-le_bytes size_of_status v.status small)
