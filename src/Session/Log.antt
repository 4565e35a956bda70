-- ===== src/Session/Log.antt =====
-- market_data/itch/Session.cpp: the session's log file. The time and whether `fopen` succeeds are
-- parameters; the directory of the file and the text of a line are left out.
pub mod Bounds
use system_k_dev.Base.{
  ℕ, ◌+◌, Bool, false, not, Option, none, some, List, [], ◌∷◌, ◌++◌, ◌==◌, leb, if◌then◌else◌,
}
use system_k_dev.Book.Limit.{Timespec}

pub record Date : Type 0 where
  pub year : ℕ
  pub mon : ℕ
  pub mday : ℕ

-- What a call reads of the world: the clock, and whether the log file can be opened.
pub record Environment : Type 0 where
  pub now : Timespec
  pub today : Date
  pub opens : Bool

-- `file_date` is the date in the name of the current file, `none` for no name yet; its `mday` is
-- `m_nLogLastDay`. `lines` is what has been written: the date of the file, and whether the message
-- went to the server.
pub record LogFile : Type 0 where
  pub has_path : Bool
  pub file_date : Option Date
  pub is_open : Bool
  pub entries : ℕ
  pub lines : List (Date × Bool)

abbrev pub new_log : Bool → LogFile
new_log has_path = record {
  has_path = has_path;
  file_date = none;
  is_open = false;
  entries = 0;
  lines = [];
}

abbrev pub max_entries : ℕ
max_entries = 100

-- The file of the day: the test looks at the day of the month only.
unfoldable pub roll : Date → LogFile → LogFile
roll today f = elim f.file_date [
  | none ↦ record f { file_date = some today; is_open = false }
  | some d ↦
      if d.mday == today.mday then f else record f { file_date = some today; is_open = false }
]

unfoldable pub reopen : Bool → LogFile → LogFile
reopen opens f = if f.is_open then f else record f { is_open = opens; entries = 0 }

-- A line goes to the open file, which is closed with its hundredth line.
unfoldable pub put_line : Date → Bool → LogFile → LogFile
put_line today to_server f =
    if f.is_open
    then record f {
      is_open = not (leb max_entries (f.entries + 1));
      entries = f.entries + 1;
      lines = f.lines ++ ((elim f.file_date [ none ↦ today | some d ↦ d ], to_server) ∷ []);
    }
    else f

unfoldable pub log_line : Environment → Bool → LogFile → LogFile
unfolding roll reopen put_line
log_line e to_server f =
    if f.has_path then put_line e.today to_server (reopen e.opens (roll e.today f)) else f

unfoldable pub close_log : LogFile → LogFile
close_log f = record f { is_open = false }
