-- ===== src/Session/Tests.antt =====
-- A session with concrete messages.
use system_k_dev.Base.{ℕ, ◌≡◌, refl, none, true, false, some, List, [], ◌∷◌, arith, replicate}
use system_k_dev.Base.Int.{pos}
use system_k_dev.Packet.{
  PacketBase, TextOps, ok, fail, packet, ◌>>=◌, read_int, read_long, read_string,
}
use system_k_dev.Message.{
  Message, login_accepted, unsupported, parse_server_message, load_login_accepted, create_message,
  server_creators,
}
use system_k_dev.Message.Cram.{fields}
use system_k_dev.Socket.{Socket, Attempt}
use system_k_dev.Session.Log.{Date, Environment, new_log}
use system_k_dev.Session.{Session, dispatch_server_message}
use system_k_dev.Session.Workers.{take_message}
use system_k_dev.Session.Route.{route, miscast, has_case}
use system_k_dev.Session.Miscast.{parse_server_message-miscast}
use system_k_dev.Session.Dispatch.{
  System, Reach, started, here, next, server_test, server_receives, takes, waiting, busy, testing,
  over, AllEnded,
}
use system_k_dev.Session.Dispatch.Queue.{deliverable}
use system_k_dev.Session.Dispatch.Once.{IsExact, Reach-started-IsExact}
use system_k_dev.Session.Dispatch.Left.{message_left}

-- A library that converts nothing.
abbrev text : TextOps ℕ
text = record {
  trim_right = λ s. s;
  strtol = λ s. (pos 0, s, false);
  strtod = λ s. (0, s, false);
  decimal = λ _. [];
}

abbrev ninth : Date
ninth = record { year = 2012; mon = 3; mday = 9 }

abbrev world : Environment
world = record { now = record { tv_sec = 100; tv_nsec = 0 }; today = ninth; opens = true }

abbrev peer : Socket
peer = record { is_connected = true; time_connected = 5; time_disconnected = 0; wire = [] }

abbrev open_session : Session ℕ
open_session = record {
  socket = some peer;
  log = new_log true;
  messages_received = 0;
  messages_sent = 0;
  shutdown = false;
  server_worker = true;
  client_worker = true;
  dispatch_pool = 8;
  last_client_message = record { tv_sec = 99; tv_nsec = 5 };
  heartbeat_delay = pos 1;
  server_timeout = pos 2;
  dispatch_queue = [];
}

abbrev bytewise : List Attempt
bytewise = (pos 1, pos 0) ∷ (pos 1, pos 0) ∷ []

-- "A" and no room for a sequence number.
has_login : has_case 65 ≡ true
unfolding has_case
has_login = refl

registered : create_message (server_creators text) 65 ≡ some (load_login_accepted text)
unfolding create_message server_creators
registered = refl

too_short :
    load_login_accepted text (fields text 65 (48 ∷ 10 ∷ [])) ≡ fail (fields text 65 (48 ∷ 10 ∷ []))
unfolding load_login_accepted ◌>>=◌ read_int read_long read_string
too_short = refl

parse_server_message-miscast_example :
    (body : List ℕ) × (r : PacketBase) × (parse_server_message text (packet (65 ∷ 48 ∷ 10 ∷ []))
      ≡ ok (unsupported 65 body) r)
    × (route {F = ℕ} (unsupported 65 body) ≡ miscast)
parse_server_message-miscast_example =
    parse_server_message-miscast text 65 (48 ∷ 10 ∷ []) (load_login_accepted text)
      (fields text 65 (48 ∷ 10 ∷ [])) (omega arith) has_login registered too_short

-- A login is accepted, and taken by the first thread of the pool.
abbrev accepted : Message ℕ
accepted = login_accepted (pos 1)

abbrev told : Session ℕ
told = dispatch_server_message world accepted open_session

told_queue : take_message told ≡ some (accepted, record told { dispatch_queue = [] })
unfolding dispatch_server_message take_message
told_queue = refl

abbrev taking : System ℕ
taking = record {
  session = record told { dispatch_queue = [] };
  server = testing;
  pool = busy accepted ∷ replicate 7 waiting;
  arrived = accepted ∷ [];
  taken = accepted ∷ [];
  handled = [];
}

taking-Reach : Reach (started open_session) taking
unfolding started
taking-Reach =
    next (next (next here (server_test refl refl)) (server_receives world accepted refl)) (
      takes [] (replicate 7 waiting) accepted (record told { dispatch_queue = [] }) refl told_queue)

Reach-started-IsExact_example : IsExact taking
Reach-started-IsExact_example = Reach-started-IsExact open_session taking refl taking-Reach

one_deliverable : deliverable (accepted ∷ []) ≡ accepted ∷ []
unfolding deliverable
one_deliverable = refl

message_left_example :
    (y : System ℕ) × Reach (started open_session) y
    × (y.server ≡ over)
    × AllEnded y.pool
    × (y.session.socket ≡ none)
    × (y.handled ≡ [])
    × (y.session.dispatch_queue ≡ accepted ∷ [])
message_left_example = message_left open_session world accepted refl refl one_deliverable
