-- ===== src/Socket/Send.antt =====
-- market_data/itch/Socket.cpp: what a call of `SendPacket` puts on the wire.
use mathlib.Core.List.{append_assoc, append-nil}
use system_k_dev.Base.{
  ℕ, zero, suc, ◌+◌, ◌≤◌, ◌<◌, ◌≡◌, refl, sym, ◌∙◌, ap, subst, Bool, true, false, not, ◌||◌, ◌==◌,
  Option, some, List, [], ◌∷◌, ◌++◌, length, take, drop, take-append-drop, length-drop, arith, inl,
  inr, Bool-cases, ◌>>=◌, if◌then◌else◌,
}
use system_k_dev.Base.Int.{ℤ, pos, negsuc}
use system_k_dev.Packet.{PacketBase}
use system_k_dev.Receive.{ends_tlf}
use system_k_dev.Socket.{
  Socket, Attempt, is_empty, is_positive, close, send_all, send_tlf, finish, send_packet,
}

-- Every call of `send` fails, or accepts a byte at least.
abbrev pub IsLive : List Attempt → Type 0
IsLive [] = Unit {0}
IsLive ((pos zero, w) ∷ as') = ⊥
IsLive ((pos (suc n), w) ∷ as') = IsLive as'
IsLive ((negsuc n, w) ∷ as') = IsLive as'

-- The packet and the terminator that it lacks.
abbrev pub frame : List ℕ → List ℕ
frame bytes = bytes ++ (if ends_tlf bytes then [] else 10 ∷ [])

-- The result of sending `bytes` from `s`: what went out is the first part of them, all of them
-- exactly when the call has succeeded, and the socket stays connected only then.
pub record Sends (bytes : List ℕ) (s : Socket) (ok : Bool) (s' : Socket) : Type 0 where
  pub out : List ℕ
  pub missing : List ℕ
  pub split : bytes ≡ out ++ missing
  pub sent : s'.wire ≡ s.wire ++ out
  pub whole : ok ≡ true → missing ≡ []
  pub open_still : s'.is_connected ≡ ok

abbrev Sent : Option (Bool × Socket × List Attempt) → List ℕ → Socket → ℕ → Type 0
Sent r bytes s spare =
    (ok : Bool) × (s' : Socket) × (rest : List Attempt) × (r ≡ some (ok, s', rest))
    × Sends bytes s ok s'
    × IsLive rest
    × (spare ≤ length rest)

one_more :
    (n : ℕ) (bytes : List ℕ) (s : Socket) (ok : Bool) (s' : Socket)
    → Sends (drop n bytes) (record s { wire = s.wire ++ take n bytes }) ok s'
    → Sends bytes s ok s'
one_more n bytes s ok s' r = record {
  out = take n bytes ++ r.out;
  missing = r.missing;
  split =
      sym (take-append-drop n bytes)
      ∙ ap (λ x. take n bytes ++ x) r.split
      ∙ sym (append_assoc (take n bytes) r.out r.missing);
  sent = r.sent ∙ append_assoc s.wire (take n bytes) r.out;
  whole = r.whole;
  open_still = r.open_still;
}

is_empty-eq : (xs : List ℕ) → is_empty xs ≡ true → xs ≡ []
is_empty-eq [] e = refl
is_empty-eq (x ∷ xs) e = cc

is_empty-lt : (xs : List ℕ) → is_empty xs ≡ false → 0 < length xs
is_empty-lt [] e = cc
is_empty-lt (x ∷ xs) e = omega arith

goes_on : (n : ℕ) (w : ℤ) → (not (suc n == 0) || is_positive w) ≡ true
goes_on n w = ground arith

take_one : (n : ℕ) → ◌≡◌ {A = List ℕ} (10 ∷ []) (take (suc n) (10 ∷ []) ++ [])
take_one zero = refl
take_one (suc n) = refl

send_all-Sends :
    (attempts : List Attempt) (bytes : List ℕ) (now : ℕ) (s : Socket) (spare : ℕ)
    → s.is_connected ≡ true
    → IsLive attempts
    → 0 < length bytes
    → length bytes + spare ≤ length attempts
    → Sent (send_all attempts bytes now s) bytes s spare
unfolding send_all close
send_all-Sends [] bytes now s spare on live some_bytes enough = absurd (omega arith)
send_all-Sends ((negsuc n, w) ∷ rest) bytes now s spare on live some_bytes enough = (
  false,
  close now s,
  rest,
  refl,
  record {
    out = [];
    missing = bytes;
    split = refl;
    sent = sym (append-nil s.wire);
    whole = λ e. cc;
    open_still = refl;
  },
  live,
  omega arith,
)
send_all-Sends ((pos zero, w) ∷ rest) bytes now s spare on live some_bytes enough = absurd live
send_all-Sends ((pos (suc n), w) ∷ rest) bytes now s spare on live some_bytes enough =
    let left = drop (suc n) bytes in
    let s1 = record s { wire = s.wire ++ take (suc n) bytes } in
    elim (Bool-cases (is_empty left)) [
      | inl e ↦ (
        true,
        s1,
        rest,
        rw (send_all, e),
        record {
          out = take (suc n) bytes;
          missing = [];
          split =
              sym (take-append-drop (suc n) bytes)
              ∙ ap (λ x. take (suc n) bytes ++ x) (is_empty-eq left e);
          sent = refl;
          whole = λ e. refl;
          open_still = on;
        },
        live,
        omega arith,
      )
      | inr e ↦
          let (ok, s', rest', run, sends, live', spare') =
            send_all-Sends rest left now s1 spare on live (is_empty-lt left e)
              (omega (arith, length-drop (suc n) bytes)) in
          (
            ok,
            s',
            rest',
            rw (send_all, e, goes_on n w) run,
            one_more (suc n) bytes s ok s' sends,
            live',
            spare',
          )
    ]

send_tlf-Sends :
    (attempts : List Attempt) (now : ℕ) (s : Socket)
    → s.is_connected ≡ true
    → IsLive attempts
    → 1 ≤ length attempts
    → Sent (send_tlf attempts now s) (10 ∷ []) s 0
unfolding send_tlf close
send_tlf-Sends [] now s on live enough = absurd (omega arith)
send_tlf-Sends ((negsuc n, w) ∷ rest) now s on live enough = (
  false,
  close now s,
  rest,
  refl,
  record {
    out = [];
    missing = 10 ∷ [];
    split = refl;
    sent = sym (append-nil s.wire);
    whole = λ e. cc;
    open_still = refl;
  },
  live,
  omega arith,
)
send_tlf-Sends ((pos zero, w) ∷ rest) now s on live enough = absurd live
send_tlf-Sends ((pos (suc n), w) ∷ rest) now s on live enough = (
  true,
  record s { wire = s.wire ++ take (suc n) (10 ∷ []) },
  rest,
  refl,
  record {
    out = take (suc n) (10 ∷ []);
    missing = [];
    split = take_one n;
    sent = refl;
    whole = λ e. refl;
    open_still = on;
  },
  live,
  omega arith,
)

-- A first part that has failed, and one that is followed by another.
Sends-more : (a b : List ℕ) (s t : Socket) → Sends a s false t → Sends (a ++ b) s false t
Sends-more a b s t r = record {
  out = r.out;
  missing = r.missing ++ b;
  split = ap (λ x. x ++ b) r.split ∙ append_assoc r.out r.missing b;
  sent = r.sent;
  whole = λ e. cc;
  open_still = r.open_still;
}

Sends-append :
    (a b : List ℕ) (s t u : Socket) (ok : Bool)
    → Sends a s true t
    → Sends b t ok u
    → Sends (a ++ b) s ok u
Sends-append a b s t u ok p q = record {
  out = a ++ q.out;
  missing = q.missing;
  split = ap (λ x. a ++ x) q.split ∙ sym (append_assoc a q.out q.missing);
  sent =
      q.sent
      ∙ ap (λ x. x ++ q.out) (p.sent ∙ ap (λ x. s.wire ++ x) all_out)
      ∙ append_assoc s.wire a q.out;
  whole = q.whole;
  open_still = q.open_still;
}
  where
    all_out : p.out ≡ a
    all_out = sym (p.split ∙ ap (λ x. p.out ++ x) (p.whole refl) ∙ append-nil p.out)

finish-Sends :
    (ok ended : Bool) (now : ℕ) (bytes : List ℕ) (s t : Socket) (rest : List Attempt)
    → Sends bytes s ok t
    → IsLive rest
    → 1 ≤ length rest
    → (ok' : Bool) × (u : Socket) × (rest' : List Attempt) × (finish ended now (ok, t, rest)
        ≡ some (ok', u, rest'))
      × Sends (bytes ++ (if ended then [] else 10 ∷ [])) s ok' u
unfolding finish
finish-Sends false ended now bytes s t rest sends live spare =
    (false, t, rest, refl, Sends-more bytes (if ended then [] else 10 ∷ []) s t sends)
finish-Sends true true now bytes s t rest sends live spare =
    (true, t, rest, refl, subst (λ b. Sends b s true t) (sym (append-nil bytes)) sends)
finish-Sends true false now bytes s t rest sends live spare =
    let (ok, u, rest', run, more, _, _) = send_tlf-Sends rest now t sends.open_still live spare in
    (ok, u, rest', run, Sends-append bytes (10 ∷ []) s t u ok sends more)

-- On a connected socket, with a packet that is not empty and calls of `send` that each fail or
-- accept a byte at least, as many as the packet has bytes and one more: `SendPacket` returns, and
-- what it has put on the wire is a first part of the packet with a TLF appended when it has none.
-- It is all of that, and the socket is still connected, exactly when `SendPacket` returns true.
pub send_packet-Sends :
    (attempts : List Attempt) (now : ℕ) (p : PacketBase) (s : Socket)
    → s.is_connected ≡ true
    → 0 < length p.buffer
    → IsLive attempts
    → length p.buffer + 1 ≤ length attempts
    → (ok : Bool) × (s' : Socket) × (rest : List Attempt) × (send_packet attempts now p s
        ≡ some (ok, s', rest))
      × Sends (frame p.buffer) s ok s'
unfolding send_packet
send_packet-Sends attempts now p s on some_bytes live enough =
    let (ok, t, rest, run, sends, live', spare) =
      send_all-Sends attempts p.buffer now s 1 on live some_bytes enough in
    let (ok', u, rest', done, all) =
      finish-Sends ok (ends_tlf p.buffer) now p.buffer s t rest sends live' spare in
    (
      ok',
      u,
      rest',
      opened (not_empty p.buffer some_bytes)
          ∙ ap (λ r. r >>= λ sent. finish (ends_tlf p.buffer) now sent) run
          ∙ done,
      all,
    )
  where
    not_empty : (b : List ℕ) → 0 < length b → is_empty b ≡ false
    not_empty [] h = absurd (omega arith)
    not_empty (x ∷ b) h = refl

    opened :
        is_empty p.buffer ≡ false
        → send_packet attempts now p s
          ≡ (send_all attempts p.buffer now s >>= λ sent. finish (ends_tlf p.buffer) now sent)
    opened e = ground (arith, on, e)
