-- ===== src/Replay/Order.antt =====
-- replay_server/msg_pump.cpp: what the consumer of the pump gets.
use mathlib.Core.List.{append_assoc, append-nil}
use system_k_dev.Base.{
  ◌≡◌, refl, sym, ◌∙◌, ap, subst, Bool, true, false, not, ◌||◌, List, [], ◌∷◌, ◌++◌, arith,
  if◌then◌else◌, inl, inr, List-cases, Bool-cases,
}
use system_k_dev.Replay.{
  Pump, MsgRet, msg_ok, msg_not_ready, msg_eof, msg_error, Line, System, reading, Step, tests, ends,
  reads, gets, stops, Reach, here, next, read, get_msg, goes_on, is_eof, request_stop, running,
}

-- The lines among the results.
unfoldable pub ok_lines : List (Line × MsgRet) → List Line
ok_lines [] = []
ok_lines ((l, msg_ok) ∷ rs) = l ∷ ok_lines rs
ok_lines ((l, msg_not_ready) ∷ rs) = ok_lines rs
ok_lines ((l, msg_eof) ∷ rs) = ok_lines rs
ok_lines ((l, msg_error) ∷ rs) = ok_lines rs

-- Is the end of the file among the results?
unfoldable pub has_eof : List (Line × MsgRet) → Bool
has_eof [] = false
has_eof ((l, c) ∷ rs) = is_eof c || has_eof rs

-- What has been read and not yet been got.
abbrev pub pending : Pump → List Line
pending p = if p.is_read then ok_lines ((p.str_msg, p.msg_code) ∷ []) else []

-- The lines got, the one in the pump and those left in the file are `all`, in order; the pump
-- has a line or its end exactly when it is not consumed, and knows the end only when there is
-- nothing left; then no read is made. Once the end is got, the pump is empty. The stream does not
-- fail before its end.
pub record IsInOrder (all : List Line) (x : System) : Type 0 where
  pub in_order : ok_lines x.received ++ (pending x.pump ++ x.pump.lines) ≡ all
  pub sound : x.pump.is_bad ≡ false
  pub handshake : x.pump.is_read ≡ not x.pump.is_consumed
  pub at_end : x.pump.msg_code ≡ msg_eof → x.pump.lines ≡ []
  pub quiet : x.pump.msg_code ≡ msg_eof → x.reader ≡ reading → ⊥
  pub closed : has_eof x.received ≡ true → (x.pump.msg_code ≡ msg_eof) × (x.pump.is_read ≡ false)

ok_lines-append : (a b : List (Line × MsgRet)) → ok_lines (a ++ b) ≡ ok_lines a ++ ok_lines b
unfolding ok_lines
ok_lines-append [] b = refl
ok_lines-append ((l, msg_ok) ∷ a) b = ap (◌∷◌ l) (ok_lines-append a b)
ok_lines-append ((l, msg_not_ready) ∷ a) b = ok_lines-append a b
ok_lines-append ((l, msg_eof) ∷ a) b = ok_lines-append a b
ok_lines-append ((l, msg_error) ∷ a) b = ok_lines-append a b

has_eof-append : (a b : List (Line × MsgRet)) → has_eof (a ++ b) ≡ (has_eof a || has_eof b)
unfolding has_eof
has_eof-append [] b = refl
has_eof-append ((l, c) ∷ a) b = ground (arith, has_eof-append a b)

is_eof-eq : (c : MsgRet) → is_eof c ≡ true → c ≡ msg_eof
is_eof-eq msg_ok h = cc
is_eof-eq msg_not_ready h = cc
is_eof-eq msg_eof h = refl
is_eof-eq msg_error h = cc

goes_on-ne : (p : Pump) → goes_on p ≡ true → p.msg_code ≡ msg_eof → ⊥
unfolding goes_on
goes_on-ne p go e = ground (arith, go, e)

-- With nothing in the pump, a read moves the first line left into it.
read-kept :
    (p : Pump)
    → p.is_bad ≡ false
    → p.is_read ≡ false
    → pending (read p) ++ (read p).lines ≡ pending p ++ p.lines
unfolding read ok_lines
read-kept p good free = elim (List-cases p.lines) [
  | inl e ↦ rw (read, e, good, free) e
  | inr (l, rest, e) ↦ rw (read, e, free) refl
]

-- What a read leaves in the pump.
read_flags :
    (p : Pump)
    → p.is_bad ≡ false
    → ((read p).is_read ≡ not (read p).is_consumed)
      × ((read p).msg_code ≡ msg_eof → (read p).lines ≡ [])
      × ((read p).is_bad ≡ false)
unfolding read
read_flags p good = elim (List-cases p.lines) [
  | inl e ↦ (rw (read, e, good) refl, λ h. rw (read, e, good) e, ground (arith, e, good))
  | inr (l, rest, e) ↦ (rw (read, e) refl, λ h. ground (arith, e, h), ground (arith, e, good))
]

module _ {all : List Line} where
  last_code :
      (x : System)
      → IsInOrder all x
      → has_eof (x.received ++ ((x.pump.str_msg, x.pump.msg_code) ∷ [])) ≡ true
      → x.pump.msg_code ≡ msg_eof
  unfolding has_eof
  last_code x v h = elim (Bool-cases (is_eof x.pump.msg_code)) [
    | inl e ↦ is_eof-eq x.pump.msg_code e
    | inr e ↦
        (v.closed (
          ground
            (arith, has_eof-append x.received ((x.pump.str_msg, x.pump.msg_code) ∷ []), h, e))).0
  ]

  Step-IsInOrder : {x y : System} → Step x y → IsInOrder all x → IsInOrder all y
  unfolding get_msg request_stop
  Step-IsInOrder {x} {y} (tests at go) v = record {
    in_order = v.in_order;
    handshake = v.handshake;
    sound = v.sound;
    at_end = v.at_end;
    quiet = λ e r. goes_on-ne x.pump go e;
    closed = v.closed;
  }
  Step-IsInOrder {x} {y} (ends at go) v = record {
    in_order = v.in_order;
    handshake = v.handshake;
    sound = v.sound;
    at_end = v.at_end;
    quiet = λ e r. cc r;
    closed = v.closed;
  }
  Step-IsInOrder {x} {y} (reads at free) v = record {
    in_order =
        ap (λ r. ok_lines x.received ++ r)
          (read-kept x.pump v.sound (ground (arith, v.handshake, free)))
        ∙ v.in_order;
    handshake = (read_flags x.pump v.sound).0;
    at_end = (read_flags x.pump v.sound).1;
    sound = (read_flags x.pump v.sound).2;
    quiet = λ e r. cc r;
    closed = λ h. absurd (v.quiet (v.closed h).0 at);
  }
  Step-IsInOrder {x} {y} (gets ready) v =
      let r : List (Line × MsgRet) = (x.pump.str_msg, x.pump.msg_code) ∷ [] in
      record {
        in_order =
            ap (λ o. o ++ x.pump.lines) (ok_lines-append x.received r)
            ∙ append_assoc (ok_lines x.received) (ok_lines r) x.pump.lines
            ∙ ap (λ b. ok_lines x.received ++ ((if b then ok_lines r else []) ++ x.pump.lines))
                (sym ready)
            ∙ v.in_order;
        handshake = refl;
        sound = v.sound;
        at_end = v.at_end;
        quiet = v.quiet;
        closed = λ h. (last_code x v h, refl);
      }
  Step-IsInOrder {x} {y} stops v = record {
    in_order = v.in_order;
    handshake = v.handshake;
    sound = v.sound;
    at_end = v.at_end;
    quiet = v.quiet;
    closed = v.closed;
  }

  Reach-IsInOrder : {x y : System} → Reach x y → IsInOrder all x → IsInOrder all y
  Reach-IsInOrder here v = v
  Reach-IsInOrder (next r st) v = Step-IsInOrder st (Reach-IsInOrder r v)

started-IsInOrder :
    (p : Pump)
    → p.is_bad ≡ false
    → p.is_read ≡ false
    → p.is_consumed ≡ true
    → p.msg_code ≡ msg_not_ready
    → IsInOrder p.lines (running p)
unfolding running ok_lines has_eof
started-IsInOrder p good free done fresh = record {
  in_order = ap (λ b. (if b then ok_lines ((p.str_msg, p.msg_code) ∷ []) else []) ++ p.lines) free;
  sound = good;
  handshake = free ∙ ap not (sym done);
  at_end = λ e. cc (sym fresh ∙ e);
  quiet = λ e r. cc r;
  closed = λ h. cc h;
}

-- With the end got, what has been received is complete.
complete :
    (all : List Line) (x : System)
    → IsInOrder all x
    → has_eof x.received ≡ true
    → ok_lines x.received ≡ all
complete all x v h =
    let (code, empty) = v.closed h in
    sym (append-nil (ok_lines x.received))
    ∙ ap (λ l. ok_lines x.received ++ l) (sym (v.at_end code))
    ∙ ap
        (λ b.
          ok_lines x.received
          ++ ((if b then ok_lines ((x.pump.str_msg, x.pump.msg_code) ∷ []) else [])
              ++ x.pump.lines))
        (sym empty)
    ∙ v.in_order

-- Whatever the order in which the thread of the pump and its consumer take their steps, from an
-- open file of which nothing has been read, and that does not fail before its end: the lines that the consumer has got, the one that
-- waits in the pump and those left in the file are the lines of the file, in order. When the
-- consumer gets the end of the file, it has got every line, each once.
pub Reach-lines :
    (p : Pump) (y : System)
    → p.is_bad ≡ false
    → p.is_read ≡ false
    → p.is_consumed ≡ true
    → p.msg_code ≡ msg_not_ready
    → Reach (running p) y
    → (ok_lines y.received ++ (pending y.pump ++ y.pump.lines) ≡ p.lines)
      × (has_eof y.received ≡ true → ok_lines y.received ≡ p.lines)
Reach-lines p y good free done fresh r =
    let v = Reach-IsInOrder r (started-IsInOrder p good free done fresh) in
    (v.in_order, complete p.lines y v)

-- Nothing is got from the empty pump.
Step-stuck :
    {all : List Line} {x y : System}
    → Step x y
    → IsInOrder all x
    → has_eof x.received ≡ true
    → y.received ≡ x.received
Step-stuck (tests at go) v h = refl
Step-stuck (ends at go) v h = refl
Step-stuck (reads at free) v h = refl
Step-stuck (gets ready) v h = cc (sym (v.closed h).1 ∙ ready)
Step-stuck stops v h = refl

stuck :
    {all : List Line} {y z : System}
    → IsInOrder all y
    → has_eof y.received ≡ true
    → Reach y z
    → z.received ≡ y.received
stuck v h here = refl
stuck {all} {y} {z} v h (next {y = w} q st) =
    let same = stuck v h q in
    Step-stuck st (Reach-IsInOrder q v) (subst (λ r. has_eof r ≡ true) (sym same) h) ∙ same

-- With a file that does not fail before its end: once the consumer has got the end, a further call of `getMsg` never returns,
-- whatever steps follow.
pub Reach-after_eof :
    (p : Pump) (y z : System)
    → p.is_bad ≡ false
    → p.is_read ≡ false
    → p.is_consumed ≡ true
    → p.msg_code ≡ msg_not_ready
    → Reach (running p) y
    → has_eof y.received ≡ true
    → Reach y z
    → z.received ≡ y.received
Reach-after_eof p y z good free done fresh r eof q =
    stuck (Reach-IsInOrder r (started-IsInOrder p good free done fresh)) eof q
