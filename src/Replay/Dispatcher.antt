-- ===== src/Replay/Dispatcher.antt =====
-- replay_server/msg_dispatcher.cpp: the loop that sends the pump's messages on, with the delays
-- between them. The FIX library's parser with its stream, the difference of two sending times, the division of a
-- delay by the speed factor, and the library's calls to send, are parameters.
use system_k_dev.Base.{◌≡◌, Bool, Option, none, some, List, [], ◌∷◌, ◌++◌, if◌then◌else◌}
use system_k_dev.Base.Int.{ℤ}
use system_k_dev.Replay.{Line, MsgRet, msg_ok, msg_eof}

pub data MsgType : Type 0 where
  snapshot_full_refresh incremental_refresh other : MsgType

-- `P` is the state of the parser: a stream, to which `add_to_stream` adds a line and from which
-- `read_fix_message` takes the next message, if there is a whole one. `set_string` is the message of
-- a text, and `is_fix42` the test of BeginString.
pub record FixOps (P M : Type 0) : Type 0 where
  pub add_to_stream : Line → P → P
  pub read_fix_message : P → Option Line × P
  pub set_string : Line → M
  pub msg_type : M → MsgType
  pub is_fix42 : M → Bool
  pub time_delta : M → M → Option ℤ
  pub divide : ℤ → ℤ

pub data Action (M : Type 0) : Type 0 where
  send_to_target : M → Action M
  sleep : ℤ → Action M

module _ {P M : Type 0} (f : FixOps P M) where
  unfoldable pub dispatch : M → List (Action M)
  dispatch m = elim (f.msg_type m) [
    | snapshot_full_refresh ↦ if f.is_fix42 m then send_to_target m ∷ [] else []
    | incremental_refresh ↦ send_to_target m ∷ []
    | other ↦ []
  ]

  -- A difference that cannot be told leaves the delay of the pair before, which is divided again.
  unfoldable pub next_delay : (delta : ℤ) → M → M → ℤ
  next_delay delta m1 m2 = elim (f.time_delta m1 m2) [ none ↦ f.divide delta | some d ↦ f.divide d ]

  -- The text of the next message in the stream. That there is none is not looked at: the text of the
  -- round before stays.
  unfoldable pub parse : (raw mtext : Line) → P → Line × P
  parse raw mtext p =
      let (found, p') = f.read_fix_message (f.add_to_stream raw p) in
      (elim found [ none ↦ mtext | some text ↦ text ], p')

  -- What `getMsg` returns, call by call, while no stop is requested: two messages in a round, and
  -- the end of the loop where one is missing.
  unfoldable pub dispatcher_run :
      (parser : P) (mtext1 mtext2 : Line) (delta : ℤ) (results : List (Line × MsgRet))
      → List (Action M)
  unfolding dispatch next_delay parse
  dispatcher_run p mtext1 mtext2 delta ((raw1, msg_ok) ∷ (raw2, msg_ok) ∷ rest) =
      let (text1, p1) = parse raw1 mtext1 p in
      let (text2, p2) = parse raw2 mtext2 p1 in
      let m1 = f.set_string text1 in
      let m2 = f.set_string text2 in
      let delay = next_delay delta m1 m2 in
      dispatch m1 ++ (sleep delay ∷ (dispatch m2 ++ dispatcher_run p2 text1 text2 delay rest))
  dispatcher_run p mtext1 mtext2 delta results = []

  -- The messages that are sent, without the delays.
  unfoldable pub sent : List (Action M) → List M
  sent [] = []
  sent (send_to_target m ∷ as') = m ∷ sent as'
  sent (sleep d ∷ as') = sent as'

  -- All that the messages of the texts `text l`, `l` a line, would have sent.
  abbrev pub sent_for : (text : Line → Line) → List Line → List M
  sent_for text [] = []
  sent_for text (l ∷ ls) = sent (dispatch (f.set_string (text l))) ++ sent_for text ls

  abbrev pub results_of : List Line → Line → List (Line × MsgRet)
  results_of [] last = (last, msg_eof) ∷ []
  results_of (l ∷ ls) last = (l, msg_ok) ∷ results_of ls last

  -- A parser whose stream is in `fresh` between the lines finds in each of these one whole message,
  -- whose text is that of the line, maybe without what stands before it.
  abbrev pub IsWhole : (fresh : P) (text : Line → Line) → List Line → Type 0
  IsWhole fresh text [] = Unit {0}
  IsWhole fresh text (l ∷ ls) =
      (f.read_fix_message (f.add_to_stream l fresh) ≡ (some (text l), fresh))
      × IsWhole fresh text ls
