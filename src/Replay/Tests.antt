-- ===== src/Replay/Tests.antt =====
-- A file of three lines.
use system_k_dev.Base.{
  ◌==◌, if◌then◌else◌, none, Option, List, ◌≡◌, refl, true, false, some, [], ◌∷◌, ◌++◌,
}
use system_k_dev.Base.Int.{pos}
use system_k_dev.Replay.{
  Pump, msg_ok, msg_eof, Line, System, testing, Reach, here, next, tests, reads, gets, new_pump,
  open_file, running, read, get_msg, goes_on, start,
}
use system_k_dev.Replay.Order.{ok_lines, has_eof, pending, Reach-lines}
use system_k_dev.Replay.Dispatcher.{
  FixOps, send_to_target, sleep, incremental_refresh, dispatcher_run, sent, results_of,
}

abbrev first : Line
first = 65 ∷ []

abbrev opened : Pump
opened = (open_file true (first ∷ []) false (new_pump [])).1

-- The line and the end are read and got in turn.
abbrev one_read : Pump
one_read = read opened

abbrev one_got : Pump
one_got = (get_msg one_read).2

abbrev end_read : Pump
end_read = read one_got

abbrev at_end : System
at_end = record {
  pump = (get_msg end_read).2;
  reader = testing;
  received = (first, msg_ok) ∷ (first, msg_eof) ∷ [];
}

at_end-Reach : Reach (running opened) at_end
unfolding running open_file new_pump read get_msg goes_on
at_end-Reach =
    next
      (next
        (next (next (next (next here (tests refl refl)) (reads refl refl)) (gets refl))
          (tests refl refl))
        (reads refl refl))
      (gets refl)

fresh : (opened.is_read ≡ false) × (opened.is_consumed ≡ true)
unfolding open_file new_pump
fresh = (refl, refl)

-- Each call of `start` makes a thread.
two_threads : (start (start opened)).threads ≡ 2
unfolding start open_file new_pump
two_threads = refl

Reach-lines_example :
    (ok_lines at_end.received ++ (pending at_end.pump ++ at_end.pump.lines) ≡ opened.lines)
    × (has_eof at_end.received ≡ true → ok_lines at_end.received ≡ opened.lines)
unfolding open_file new_pump
Reach-lines_example = Reach-lines opened at_end refl refl refl refl at_end-Reach

-- A stream in which messages end with a 10, and every message is one to send.
abbrev whole : Line → Option Line × Line
whole [] = (none, [])
whole (c ∷ cs) =
    let (found, rest) = whole cs in
    if c == 10
    then (some (c ∷ []), cs)
    else elim found [ none ↦ (none, c ∷ cs) | some m ↦ (some (c ∷ m), rest) ]

abbrev fix : FixOps Line Line
fix = record {
  add_to_stream = λ l p. p ++ l;
  read_fix_message = whole;
  set_string = λ l. l;
  msg_type = λ m. incremental_refresh;
  is_fix42 = λ m. true;
  time_delta = λ m1 m2. some (pos 10);
  divide = λ d. d;
}

abbrev line : Line
line = 65 ∷ 10 ∷ []

abbrev three : List Line
three = line ∷ (66 ∷ 10 ∷ []) ∷ line ∷ []

three_lines :
    dispatcher_run fix [] [] [] (pos 0) (results_of fix three first)
    ≡ send_to_target line ∷ sleep (pos 10) ∷ send_to_target (66 ∷ 10 ∷ []) ∷ []
unfolding dispatcher_run
three_lines = refl

-- A line that is no whole message has the text of the round before sent again.
sent_again :
    sent fix
      (dispatcher_run fix [] [] [] (pos 0) (results_of fix (line ∷ line ∷ first ∷ line ∷ []) first))
    ≡ line ∷ line ∷ line ∷ (65 ∷ line) ∷ []
unfolding dispatcher_run sent
sent_again = refl
