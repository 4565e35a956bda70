-- ===== src/Message/Cram.antt =====
-- market_data/itch/msg/MessageFactory.cpp: a message that its own class could not load.
use system_k_dev.Base.{ℕ, ◌<◌, ◌≡◌, sym, ◌∙◌, subst, some, List, ◌∷◌, length, arith}
use system_k_dev.Packet.{
  PacketBase, TextOps, Outcome, ok, fail, lost, Reader, packet, read_char, read_until_tlf,
}
use system_k_dev.Packet.Safe.{Stays, bind-ok, read_until_tlf-ok}
use system_k_dev.Message.{
  Message, unsupported, create_message, load_or_cram, load_typed, parse_message, load_unsupported,
  server_creators, parse_server_message,
}
use system_k_dev.Message.Parse.{create_message-Safe, reset-first}
use system_k_dev.Message.Total.{server_creators-AllSafe}

module _ {F : Type 0} (t : TextOps F) where
  -- The fields of a packet start behind its type.
  abbrev pub fields : ℕ → List ℕ → PacketBase
  fields c cs = record (packet (c ∷ cs)) { position = 1 }

  same_buffer :
      (p q : PacketBase) (o : Outcome (Message F)) → o ≡ fail q → Stays p o → q.buffer ≡ p.buffer
  unfolding Stays
  same_buffer p q (ok m r) e s = cc
  same_buffer p q (fail r) e s = ground (arith, e, s.same)
  same_buffer p q lost e s = absurd s

  pub parse_server_message-unsupported :
      (c : ℕ) (cs : List ℕ) (load : Reader (Message F)) (q : PacketBase)
      → 1 < length cs
      → create_message (server_creators t) c ≡ some load
      → load (fields c cs) ≡ fail q
      → (body : List ℕ) × (r : PacketBase) × (parse_server_message t (packet (c ∷ cs))
          ≡ ok (unsupported c body) r)
  unfolding parse_server_message parse_message load_typed load_or_cram load_unsupported read_char
  parse_server_message-unsupported c cs load q long registered failed =
      let safe =
        create_message-Safe (server_creators t) c load (server_creators-AllSafe t) registered in
      let kept : q.buffer ≡ c ∷ cs =
        same_buffer (fields c cs) q (load (fields c cs)) failed
          (safe (fields c cs) (record { not_empty = omega arith; in_bounds = omega arith })) in
      let back = record q { position = 1 } in
      let room : 2 < length q.buffer = subst (λ b. 2 < length b) (sym kept) (omega arith) in
      let (body, r, read) = read_until_tlf-ok back room in
      (
        body,
        r,
        bind-ok read_char _ (packet (c ∷ cs)) (fields c cs) c (first_char c cs)
            ∙ rw (load_typed, registered, load_or_cram, failed, reset-first q (omega arith))
                (bind-ok read_until_tlf _ back r body read),
      )
    where
      first_char : (c : ℕ) (cs : List ℕ) → read_char (packet (c ∷ cs)) ≡ ok c (fields c cs)
      first_char c cs = ground arith
