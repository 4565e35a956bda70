-- ===== src/Broker/Maps.antt =====
-- order_entry/order-fix/msg_cache.h: google::dense_hash_map from ids to values, as the caches use it.
-- The map is a parameter, and so is what its documentation says of it.
use system_k_dev.Base.{
  ℕ, ◌≡◌, Bool, true, not, ◌&&◌, Option, none, some, ◌++◌, ◌==◌, if◌then◌else◌, length, replicate,
}
use system_k_dev.Route.{Bytes, uuid_len, bytes_eq}

pub record MapOps (M V : Type 0) : Type 0 where
  -- A map with its two reserved keys set.
  pub new : (empty_key deleted_key : Bytes) → M
  pub find : Bytes → M → Option V
  -- map[key] = value
  pub insert : Bytes → V → M → M
  -- The file that `serialize` writes with a serialiser of the pairs, and the map that
  -- `unserialize` makes of one and of the map before it, with its result.
  pub serialize : (Bytes × V → Bytes) → M → Bytes
  pub unserialize : (Bytes → Option ((Bytes × V) × Bytes)) → Bytes → M → Bool × M

-- The key that is set for the empty places is all zero; the other reserved key is made of `c`.
unfoldable pub is_id : (c : ℕ) → Bytes → Bool
is_id c k =
    (length k == uuid_len)
    && (not (bytes_eq k (replicate uuid_len 0)) && not (bytes_eq k (replicate uuid_len c)))

-- A map with the reserved keys of zeros and of `c`s. `legal` holds of the maps to which no reserved
-- key was given: what is inserted or erased in them is found or not found, and when one was
-- serialised, and the reading serialiser undoes the writing one on the pairs in it, the map comes
-- back with the same pairs.
pub record MapLaws {M V : Type 0} (ops : MapOps M V) (c : ℕ) : Type 0 where
  pub legal : M → Bool
  pub legal-new : legal (ops.new (replicate uuid_len 0) (replicate uuid_len c)) ≡ true
  pub legal-insert :
      (k : Bytes) (v : V) (m : M)
      → legal m ≡ true
      → is_id c k ≡ true
      → legal (ops.insert k v m) ≡ true
  pub find-new :
      (k : Bytes)
      → is_id c k ≡ true
      → ops.find k (ops.new (replicate uuid_len 0) (replicate uuid_len c)) ≡ none
  pub find-insert :
      (k j : Bytes) (v : V) (m : M)
      → legal m ≡ true
      → is_id c k ≡ true
      → is_id c j ≡ true
      → ops.find j (ops.insert k v m) ≡ (if bytes_eq k j then some v else ops.find j m)
  pub unserialize-serialize :
      (w : Bytes × V → Bytes) (r : Bytes → Option ((Bytes × V) × Bytes)) (m m' : M)
      → legal m ≡ true
      → ((k : Bytes) (v : V) (rest : Bytes)
          → is_id c k ≡ true
          → ops.find k m ≡ some v
          → r (w (k, v) ++ rest) ≡ some ((k, v), rest))
      → (legal (ops.unserialize r (ops.serialize w m) m').1 ≡ true)
        × ((k : Bytes)
            → is_id c k ≡ true
            → ops.find k (ops.unserialize r (ops.serialize w m) m').1 ≡ ops.find k m)
