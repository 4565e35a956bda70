-- ===== src/Replay.antt =====
-- replay_server/msg_pump.cpp: the pump that hands the lines of a file from one thread to another.
-- A step goes from one lock to the next. The file's name and its opening are parameters.
pub mod Order
pub mod Dispatcher
mod Tests
use system_k_dev.Base.{
  ℕ, zero, suc, ◌+◌, ◌≡◌, ◌≢◌, Bool, true, false, not, ◌||◌, List, [], ◌∷◌, ◌++◌, if◌then◌else◌,
}

pub data MsgRet : Type 0 where
  msg_ok msg_not_ready msg_eof msg_error : MsgRet

-- A line is a list of characters.
abbrev pub Line : Type 0
Line = List ℕ

-- `lines` is what is left of the file; behind them the stream ends, or with `is_bad` fails without
-- being at its end. `threads` counts the threads that `start` has made.
pub record Pump : Type 0 where
  pub in_file : Line
  pub is_open : Bool
  pub lines : List Line
  pub is_bad : Bool
  pub is_started : Bool
  pub stop_requested : Bool
  pub msg_code : MsgRet
  pub is_read : Bool
  pub is_consumed : Bool
  pub str_msg : Line
  pub threads : ℕ

unfoldable pub new_pump : (in_file : Line) → Pump
new_pump in_file = record {
  in_file = in_file;
  is_open = false;
  lines = [];
  is_bad = false;
  is_started = false;
  stop_requested = false;
  msg_code = msg_not_ready;
  is_read = false;
  is_consumed = true;
  str_msg = [];
  threads = 0;
}

unfoldable pub set_input_file : Line → Pump → Bool × Pump
set_input_file in_file p = if p.is_open then (false, p) else (true, record p { in_file = in_file })

-- `opens` says whether the file can be opened, `lines` and `is_bad` what it has.
unfoldable pub open_file : (opens : Bool) (lines : List Line) (is_bad : Bool) → Pump → Bool × Pump
open_file opens lines is_bad p =
    if p.is_open
    then (false, p)
    else (opens, record p { is_open = opens; lines = lines; is_bad = is_bad })

-- `start` does not set `_isStarted`.
unfoldable pub start : Pump → Pump
start p = if p.is_started || p.stop_requested then p else record p { threads = p.threads + 1 }

-- `stop`, up to its `join`.
unfoldable pub request_stop : Pump → Pump
request_stop p = record p { is_started = false; stop_requested = true }

abbrev pub is_eof : MsgRet → Bool
is_eof msg_ok = false
is_eof msg_not_ready = false
is_eof msg_eof = true
is_eof msg_error = false

-- The test of the loop in `run`.
unfoldable pub goes_on : Pump → Bool
goes_on p = not (p.stop_requested || is_eof p.msg_code)

-- `read`, from its wait to its unlock. Where the stream fails without being at its end, the line and
-- the code of the read before stay.
unfoldable pub read : Pump → Pump
read p = elim p.lines [
  | [] ↦
      if p.is_bad
      then record p { is_read = true; is_consumed = false }
      else record p { msg_code = msg_eof; is_read = true; is_consumed = false }
  | l ∷ rest ↦ record p {
    str_msg = l;
    lines = rest;
    msg_code = msg_ok;
    is_read = true;
    is_consumed = false;
  }
]

-- `getMsg`, from its wait to its unlock.
unfoldable pub get_msg : Pump → Line × MsgRet × Pump
get_msg p = (p.str_msg, p.msg_code, record p { is_consumed = true; is_read = false })

-- The reading thread: at the test of its loop, in `read`, or at its end.
pub data Reader : Type 0 where
  testing reading ended : Reader

-- `received` is what the calls of `getMsg` have returned, in order.
pub record System : Type 0 where
  pub pump : Pump
  pub reader : Reader
  pub received : List (Line × MsgRet)

pub data Step (x : System) : System → Type 0 where
  tests : x.reader ≡ testing → goes_on x.pump ≡ true → Step x (record x { reader = reading })
  ends : x.reader ≡ testing → goes_on x.pump ≡ false → Step x (record x { reader = ended })
  reads :
      x.reader ≡ reading
      → x.pump.is_consumed ≡ true
      → Step x (record x { pump = read x.pump; reader = testing })
  gets :
      x.pump.is_read ≡ true
      → Step x (
          let (l, c, p) = get_msg x.pump in
          record x { pump = p; received = x.received ++ ((l, c) ∷ []) })
  stops : Step x (record x { pump = request_stop x.pump })

pub data Reach (x : System) : System → Type 0 where
  here : Reach x x
  next : {y z : System} → Reach x y → Step y z → Reach x z

-- The reading thread on an open file.
unfoldable pub running : Pump → System
running p = record { pump = p; reader = testing; received = [] }
