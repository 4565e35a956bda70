-- ===== src/Socket.antt =====
-- market_data/itch/Socket.cpp: connecting, closing and sending. What `getaddrinfo`, `socket`,
-- `connect`, `send` and `select` return, and the time, are parameters.
pub mod Send
pub mod Poll
mod Tests
use system_k_dev.Base.{
  ℕ, zero, suc, Bool, true, false, not, ◌||◌, Option, none, some, List, [], ◌∷◌, ◌++◌, ◌==◌,
  if◌then◌else◌, take, drop, ◌>>=◌,
}
use system_k_dev.Base.Int.{ℤ, pos, negsuc, sub_ℕ}
use system_k_dev.Packet.{PacketBase}
use system_k_dev.Receive.{ends_tlf}

-- A time is 0 when it has not been set. `wire` is what the network has accepted, in order.
pub record Socket : Type 0 where
  pub is_connected : Bool
  pub time_connected : ℕ
  pub time_disconnected : ℕ
  pub wire : List ℕ

abbrev pub unconnected : Socket
unconnected = record { is_connected = false; time_connected = 0; time_disconnected = 0; wire = [] }

pub data Connecting : Type 0 where
  no_socket refused connects : Connecting

-- The loop over the addresses, of which only `socket` failing leads to the next.
pub connect_first : List Connecting → Bool
connect_first [] = false
connect_first (no_socket ∷ rest) = connect_first rest
connect_first (refused ∷ rest) = false
connect_first (connects ∷ rest) = true

-- The constructor: `none` for a hostname that is NULL, or addresses that are not found.
unfoldable pub connect :
    (host : Option (List ℕ)) (port : ℤ) (addresses : Option (List Connecting)) (now : ℕ) → Socket
unfolding connect_first
connect none port addresses now = unconnected
connect (some host) (negsuc n) addresses now = unconnected
connect (some host) (pos n) none now = unconnected
connect (some host) (pos n) (some addresses) now =
    if (n == 0) || not (connect_first addresses)
    then unconnected
    else record unconnected { is_connected = true; time_connected = now }

unfoldable pub close : (now : ℕ) → Socket → Socket
close now s = record s { is_connected = false; time_disconnected = now }

unfoldable pub get_uptime_seconds : (now : ℕ) → Socket → ℤ
get_uptime_seconds now s =
    if s.time_connected == 0
    then pos 0
    else if s.time_disconnected == 0
    then sub_ℕ now s.time_connected
    else sub_ℕ s.time_disconnected s.time_connected

abbrev pub is_empty {ℓ} : {A : Type ℓ} → List A → Bool
is_empty [] = true
is_empty (x ∷ xs) = false

abbrev pub is_positive : ℤ → Bool
is_positive (pos zero) = false
is_positive (pos (suc n)) = true
is_positive (negsuc n) = false

-- A call of `send`, and of the `select` that follows it when nothing was sent: their results.
abbrev pub Attempt : Type 0
Attempt = ℤ × ℤ

-- `send` accepts no more than it is given. `none`: the calls to come are more than `attempts`.
unfoldable pub send_all :
    (attempts : List Attempt) (bytes : List ℕ) (now : ℕ)
    → Socket
    → Option (Bool × Socket × List Attempt)
unfolding close
send_all [] bytes now s = none
send_all ((negsuc n, selected) ∷ attempts) bytes now s = some (false, close now s, attempts)
send_all ((pos n, selected) ∷ attempts) bytes now s =
    let left = drop n bytes in
    let s' = record s { wire = s.wire ++ take n bytes } in
    elim (is_empty left) [
      | true ↦ some (true, s', attempts)
      | false ↦ elim (not (n == 0) || is_positive selected) [
        | true ↦ send_all attempts left now s'
        | false ↦ some (false, close now s', attempts)
      ]
    ]

-- The terminator that `Save` leaves out.
unfoldable pub send_tlf :
    (attempts : List Attempt) (now : ℕ) → Socket → Option (Bool × Socket × List Attempt)
unfolding close
send_tlf [] now s = none
send_tlf ((negsuc n, selected) ∷ attempts) now s = some (false, close now s, attempts)
send_tlf ((pos n, selected) ∷ attempts) now s =
    some (true, record s { wire = s.wire ++ take n (10 ∷ []) }, attempts)

-- After the packet: the terminator, unless sending has failed or the packet has one.
unfoldable pub finish :
    (ended : Bool) (now : ℕ) → Bool × Socket × List Attempt → Option (Bool × Socket × List Attempt)
unfolding send_tlf
finish ended now (false, s, attempts) = some (false, s, attempts)
finish true now (true, s, attempts) = some (true, s, attempts)
finish false now (true, s, attempts) = send_tlf attempts now s

unfoldable pub send_packet :
    (attempts : List Attempt) (now : ℕ)
    → PacketBase
    → Socket
    → Option (Bool × Socket × List Attempt)
unfolding send_all finish
send_packet attempts now p s =
    if not s.is_connected
    then some (false, s, attempts)
    else if is_empty p.buffer
    then some (true, s, attempts)
    else (do sent ← send_all attempts p.buffer now s; finish (ends_tlf p.buffer) now sent)
