-- ===== src/Message/Client.antt =====
-- market_data/itch/msg/client: the messages to the server and how they are saved.
pub mod Login
use system_k_dev.Base.{ℕ, Bool, true, if◌then◌else◌, Option, none, some, List, ◌>>=◌}
use system_k_dev.Base.Int.{pos}
use system_k_dev.Packet.{PacketBase, TextOps, write_char, write_string, write_long}

-- A message of its type only, one with a currency pair, and the login.
pub data ClientMessage : Type 0 where
  plain : (type : ℕ) → ClientMessage
  currency_pair_message : (type : ℕ) → (currency_pair : List ℕ) → ClientMessage
  login : (username password : List ℕ) → (market_data_unsubscribe : Bool) → ClientMessage

module _ {F : Type 0} (t : TextOps F) where
  unfoldable pub save : ClientMessage → PacketBase → Option PacketBase
  save (plain type) p = some (write_char type p)
  save (currency_pair_message type currency_pair) p =
      write_string t currency_pair 7 (write_char type p)
  save (login username password market_data_unsubscribe) p = do
    named ← write_string t username 40 (write_char 76 p)
    secret ← write_string t password 40 named
    write_long t (pos 0) 9 (write_char (if market_data_unsubscribe then 84 else 70) secret)
