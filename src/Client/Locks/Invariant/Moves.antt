-- ===== src/Client/Locks/Invariant/Moves.antt =====
-- Every step of a call of fluent/client/client.go keeps `Inv`.
use fluent_forward_go.Common.{ℕ, true, false, ◌≡◌, refl, none, some, [], ◌∷◌, update, arith}
use fluent_forward_go.Client.Locks.{
  Memory, Caller, Move, use_session, passes, read_lock, pass, ack_lock, encode_crash, await_crash,
  read_ack, raw_crash, helo_crash, ping_crash, complete_crash, write_lock,
}
use fluent_forward_go.Client.Locks.Invariant.Defs.{
  Inv, has_write, has_read, has_ack, has_passed, is_sending, is_crashed, owed,
}

-- The premise of a move that the invariant needs, for the catch-all clauses below.
abbrev Guard : {i : ℕ} {m m' : Memory} {p p' : Caller} → Move i m p m' p' → Type 0
Guard {m} (read_lock _) = m.writer ≡ none
Guard {m} (pass {u} _) = passes u m ≡ true
Guard {m} (ack_lock _) = m.ack_lock ≡ none
Guard {m} (encode_crash _) = m.connected ≡ false
Guard {m} (await_crash _) = m.connected ≡ false
Guard {m} (read_ack a {rest} _ _) = m.acks ≡ a ∷ rest
Guard {m} (raw_crash _) = m.connected ≡ false
Guard {m} (helo_crash _) = m.connected ≡ false
Guard {m} (ping_crash _) = m.connected ≡ false
Guard {m} (complete_crash _) = m.connected ≡ false
Guard {m} (write_lock _ _) = m.writer ≡ none
Guard _ = Unit

guard : {i : ℕ} {m m' : Memory} {p p' : Caller} (mv : Move i m p m' p') → Guard mv
guard (read_lock g) = g
guard (pass g) = g
guard (ack_lock g) = g
guard (encode_crash g) = g
guard (await_crash g) = g
guard (read_ack a _ g) = g
guard (raw_crash g) = g
guard (helo_crash g) = g
guard (ping_crash g) = g
guard (complete_crash g) = g
guard (write_lock g _) = g
guard _ = tt

module _ {m : Memory} {ps : ℕ → Caller} (inv : Inv m ps) (i : ℕ) where
  open inv use {
    reader, read_by, writer, written_by, apart, acker, awaited_by, joined, in_phase, due, settled,
    sound,
  }

  moved_reader :
      {p p' : Caller} {m' : Memory}
      → Move i m p m' p'
      → ps i ≡ p
      → (j : ℕ) → has_read (update ps i p' j) ≡ true
      → m'.readers j ≡ true
  moved_reader use_session e j q = ground (arith, reader i, reader j)
  moved_reader mv e j q = ground (arith, reader i, reader j)

  moved_read_by :
      {p p' : Caller} {m' : Memory}
      → Move i m p m' p'
      → ps i ≡ p
      → (j : ℕ) → m'.readers j ≡ true
      → has_read (update ps i p' j) ≡ true
  moved_read_by use_session e j q = ground (arith, read_by i, read_by j)
  moved_read_by mv e j q = ground (arith, guard mv, joined i, read_by i, read_by j)

  moved_writer :
      {p p' : Caller} {m' : Memory}
      → Move i m p m' p'
      → ps i ≡ p
      → (j : ℕ) → has_write (update ps i p' j) ≡ true
      → m'.writer ≡ some j
  moved_writer use_session e j q = ground (arith, writer i, writer j)
  moved_writer mv e j q = ground (arith, guard mv, writer i, writer j)

  moved_written_by :
      {p p' : Caller} {m' : Memory}
      → Move i m p m' p'
      → ps i ≡ p
      → (j : ℕ) → m'.writer ≡ some j
      → has_write (update ps i p' j) ≡ true
  moved_written_by use_session e j q = ground (arith, written_by i, written_by j)
  moved_written_by mv e j q = ground (arith, guard mv, written_by i, written_by j)

  moved_apart :
      {p p' : Caller} {m' : Memory}
      → Move i m p m' p'
      → ps i ≡ p
      → (j : ℕ) → m'.readers j ≡ true
      → m'.writer ≡ none
  moved_apart use_session e j q = apart j q
  moved_apart (write_lock free silent) e j q = ground (arith, silent j)
  moved_apart mv e j q = ground (arith, guard mv, apart i, apart j)

  moved_acker :
      {p p' : Caller} {m' : Memory}
      → Move i m p m' p'
      → ps i ≡ p
      → (j : ℕ) → has_ack (update ps i p' j) ≡ true
      → m'.ack_lock ≡ some j
  moved_acker use_session e j q = ground (arith, acker i, acker j)
  moved_acker mv e j q = ground (arith, guard mv, acker i, acker j)

  moved_awaited_by :
      {p p' : Caller} {m' : Memory}
      → Move i m p m' p'
      → ps i ≡ p
      → (j : ℕ) → m'.ack_lock ≡ some j
      → has_ack (update ps i p' j) ≡ true
  moved_awaited_by use_session e j q = ground (arith, awaited_by i, awaited_by j)
  moved_awaited_by mv e j q = ground (arith, guard mv, joined i, awaited_by i, awaited_by j)

  -- A change of the session finds no other call past its checks.
  moved_joined :
      {p p' : Caller} {m' : Memory}
      → Move i m p m' p'
      → ps i ≡ p
      → (j : ℕ) → has_passed (update ps i p' j) ≡ true
      → m'.connected ≡ true
  moved_joined use_session e j q = ground (arith, joined j)
  moved_joined mv e j q = ground (arith, guard mv, joined i, joined j, writer i, reader j, apart j)

  moved_in_phase :
      {p p' : Caller} {m' : Memory}
      → Move i m p m' p'
      → ps i ≡ p
      → (j : ℕ) → is_sending (update ps i p' j) ≡ true
      → m'.transport_phase ≡ true
  moved_in_phase use_session e j q = ground (arith, in_phase j)
  moved_in_phase mv e j q =
      ground (arith, guard mv, in_phase i, in_phase j, writer i, reader j, apart j)

  moved_due :
      {p p' : Caller} {m' : Memory}
      → Move i m p m' p'
      → ps i ≡ p
      → (j : ℕ) → has_ack (update ps i p' j) ≡ true
      → m'.disturbed ≡ false
      → m'.acks ≡ owed (update ps i p' j)
  moved_due use_session e j q u = ground (arith, due j)
  moved_due mv e j q u =
      ground (arith, guard mv, due i, due j, settled, acker i, acker j, writer i, reader j, apart j)

  moved_settled :
      {p p' : Caller} {m' : Memory}
      → Move i m p m' p'
      → ps i ≡ p
      → m'.ack_lock ≡ none
      → m'.disturbed ≡ false
      → m'.acks ≡ []
  moved_settled use_session e q u = settled q u
  moved_settled mv e q u = ground (arith, settled, due i, acker i)

  moved_sound :
      {p p' : Caller} {m' : Memory}
      → Move i m p m' p'
      → ps i ≡ p
      → (j : ℕ) → is_crashed (update ps i p' j) ≡ false
  moved_sound use_session e j = ground (arith, sound j)
  moved_sound mv e j = ground (arith, guard mv, joined i, sound j)

  pub Move-Inv : {m' : Memory} {p' : Caller} → Move i m (ps i) m' p' → Inv m' (update ps i p')
  Move-Inv mv = record {
    reader = moved_reader mv refl;
    read_by = moved_read_by mv refl;
    writer = moved_writer mv refl;
    written_by = moved_written_by mv refl;
    apart = moved_apart mv refl;
    acker = moved_acker mv refl;
    awaited_by = moved_awaited_by mv refl;
    joined = moved_joined mv refl;
    in_phase = moved_in_phase mv refl;
    due = moved_due mv refl;
    settled = moved_settled mv refl;
    sound = moved_sound mv refl;
  }
