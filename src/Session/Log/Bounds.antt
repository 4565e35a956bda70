-- ===== src/Session/Log/Bounds.antt =====
-- market_data/itch/Session.cpp: how many lines a log file that stays open has, and their days.
use system_k_dev.Base.{
  ◌≤◌, ◌<◌, ◌≡◌, Bool, true, some, [], ◌∷◌, ◌++◌, arith, ◌==◌, ==_iff, ap, ◌∙◌, if◌then◌else◌,
}
use system_k_dev.Session.Log.{Date, Environment, LogFile, log_line, roll, reopen, put_line}

-- The file is closed with its hundredth line.
pub record IsBounded (f : LogFile) : Type 0 where
  pub within : f.entries ≤ 100
  pub room : f.is_open ≡ true → f.entries < 100

-- On a day of the month that is that of the open file, in any later month, the line still goes to
-- that file.
pub log_line-old_month :
    (e : Environment) (to_server : Bool) (f : LogFile) (d : Date)
    → f.has_path ≡ true
    → f.is_open ≡ true
    → f.file_date ≡ some d
    → d.mday ≡ e.today.mday
    → (log_line e to_server f).lines ≡ f.lines ++ ((d, to_server) ∷ [])
unfolding log_line
log_line-old_month e to_server f d path is_open at same =
    ap (λ b. (if b then put_line e.today to_server (reopen e.opens (roll e.today f)) else f).lines)
      path
    ∙ ap (λ g. (put_line e.today to_server (reopen e.opens g)).lines) (kept ((==_iff _ _).1 same))
    ∙ added
  where
    kept : (d.mday == e.today.mday) ≡ true → roll e.today f ≡ f
    kept h = ground (arith, at, h)

    added : (put_line e.today to_server (reopen e.opens f)).lines ≡ f.lines ++ ((d, to_server) ∷ [])
    added = ground (arith, at, is_open)
