-- ===== src/Message/Tests.antt =====
-- Parsing of concrete packets, with a text library that trims spaces and reads digits.
use system_k_dev.Base.{
  ℕ, zero, suc, ◌+◌, ◌*◌, ◌-◌, ◌≡◌, refl, true, false, ◌&&◌, some, List, [], ◌∷◌, ◌++◌, length,
  ◌==◌, if◌then◌else◌, leb, arith, replicate,
}
use system_k_dev.Base.Int.{pos}
use system_k_dev.Packet.{
  PacketBase, TextOps, ok, packet, read_string, c_str, read_int, read_long, read_dbl, converted,
  load_times, ◌>>=◌, to_int,
}
use system_k_dev.Packet.Safe.{Stays}
use system_k_dev.Message.Hotspot.{
  MarketSnapshot, load_market_snapshot, load_currency_pair, load_bid_or_offer, load_order,
}
use system_k_dev.Message.{Message, parse_server_message}
use system_k_dev.Message.Client.{login, save}
use system_k_dev.Message.Client.Login.{FitsField, read_login, read_login-save}
use system_k_dev.Message.Total.{parse_server_message-Stays}

-- Drops the spaces at the end.
abbrev trim : List ℕ → List ℕ
trim [] = []
trim (c ∷ cs) = let rest = trim cs in if (c == 32) && (length rest == 0) then [] else c ∷ rest

abbrev digits : ℕ → List ℕ → ℕ × List ℕ
digits n [] = (n, [])
digits n (c ∷ cs) =
    let rest = digits (10 * n + (c - 48)) cs in if leb 48 c && leb c 57 then rest else (n, c ∷ cs)

abbrev text : TextOps ℕ
text = record {
  trim_right = trim;
  strtol = λ s. let (n, rest) = digits 0 s in (pos n, rest, false);
  strtod = λ s. let (n, rest) = digits 0 s in (n, rest, false);
  decimal = λ _. 48 ∷ [];
}

-- "ZAB", of no known type.
abbrev strange : List ℕ
strange = 90 ∷ 65 ∷ 66 ∷ []

-- A character in a field.
abbrev field : ℕ → ℕ → List ℕ
field c n = c ∷ replicate n 32

-- The numbers 0 and 1 in four digits.
abbrev none_of : List ℕ
none_of = 48 ∷ 48 ∷ 48 ∷ 48 ∷ []

abbrev one_of : List ℕ
one_of = 48 ∷ 48 ∷ 48 ∷ 49 ∷ []

-- A snapshot of one currency pair with one bid of one order.
abbrev one_pair : PacketBase
one_pair = packet (
    (field 57 5 ++ one_of)
    ++ ((field 69 6 ++ one_of)
        ++ ((field 53 9 ++ one_of)
            ++ (field 49 15 ++ (field 50 15 ++ (field 51 15 ++ (field 65 14 ++ none_of)))))))

abbrev one_pair_snapshot : MarketSnapshot ℕ
one_pair_snapshot = record {
  message_length = pos 9;
  currency_pairs =
      record {
        currency_pair = 69 ∷ [];
        bids =
            record {
              bid_price = 53 ∷ [];
              orders = record { amount = 1; min_qty = 2; lot_size = 3; order_id = 65 ∷ [] } ∷ [];
            }
            ∷ [];
        offers = [];
      }
      ∷ [];
}

parse_server_message-Stays_example :
    Stays (packet strange) (parse_server_message text (packet strange))
parse_server_message-Stays_example =
    parse_server_message-Stays text (packet strange) (omega arith) (omega arith)

trim_spaces : (k : ℕ) → trim (replicate k 32) ≡ []
trim_spaces zero = refl
trim_spaces (suc k) = rw (trim_spaces k) refl

trim_padded : (k : ℕ) → trim ((65 ∷ 66 ∷ []) ++ replicate k 32) ≡ 65 ∷ 66 ∷ []
trim_padded k = rw (trim_spaces k) refl

loaded :
    load_market_snapshot text one_pair ≡ ok one_pair_snapshot (record one_pair { position = 102 })
unfolding load_market_snapshot load_currency_pair load_bid_or_offer load_order load_times read_int
    read_long read_dbl read_string converted c_str ◌>>=◌ to_int
loaded = refl

trim_letter : (k : ℕ) → trim ((65 ∷ []) ++ replicate k 32) ≡ 65 ∷ []
trim_letter k = rw (trim_spaces k) refl

letter-FitsField : FitsField text 40 (65 ∷ [])
unfolding c_str
letter-FitsField = record { no_nul = refl; fits = omega arith; trims = trim_letter }

read_login-save_example :
    (q : PacketBase) × (save text (login (65 ∷ []) (65 ∷ []) true) (packet []) ≡ some q)
    × (length q.buffer ≡ 91)
    × (read_login text (packet q.buffer)
        ≡ ok
            (record { type = 76; username = 65 ∷ []; password = 65 ∷ []; flag = 84 })
            (record { buffer = q.buffer; position = 82 }))
read_login-save_example =
    read_login-save text (65 ∷ []) (65 ∷ []) true letter-FitsField letter-FitsField (omega arith)
