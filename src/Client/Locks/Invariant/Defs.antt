-- ===== src/Client/Locks/Invariant/Defs.antt =====
-- What holds between two steps of calls of fluent/client/client.go on one client.
use fluent_forward_go.Common.{ℕ, Bool, true, false, ◌≡◌, none, some, Bytes, List, [], ◌∷◌, not}
use fluent_forward_go.Client.Locks.{
  Memory, shakes, Caller, uncalled, read_locking, testing, going, encoding, awaiting, ack_unlocking,
  read_unlocking, write_locking, changing, connecting, write_unlocking, returned, crashed,
}

-- Between taking `sessionLock` to write and giving it back.
abbrev pub has_write : Caller → Bool
has_write (changing _) = true
has_write connecting = true
has_write (write_unlocking _) = true
has_write _ = false

-- Between taking `sessionLock` to read and giving it back.
abbrev pub has_read : Caller → Bool
has_read uncalled = false
has_read (read_locking _) = false
has_read (write_locking _) = false
has_read (returned _) = false
has_read crashed = false
has_read p = not (has_write p)

abbrev pub has_ack : Caller → Bool
has_ack (encoding _) = true
has_ack (awaiting _) = true
has_ack (ack_unlocking _) = true
has_ack _ = false

-- Past the checks of the session.
abbrev pub has_passed : Caller → Bool
has_passed (testing _) = false
has_passed (read_unlocking _) = false
has_passed p = has_read p

-- In a Send or SendRaw, past its checks.
abbrev pub is_sending : Caller → Bool
is_sending (going shakes) = false
is_sending (going _) = true
is_sending p = has_ack p

abbrev pub is_crashed : Caller → Bool
is_crashed crashed = true
is_crashed _ = false

-- The acks that the server owes to a call that holds `ackLock`.
abbrev pub owed : Caller → List Bytes
owed (awaiting c) = c ∷ []
owed _ = []

pub record Inv (m : Memory) (ps : ℕ → Caller) : Type 0 where
  pub reader : (i : ℕ) → has_read (ps i) ≡ true → m.readers i ≡ true
  pub read_by : (i : ℕ) → m.readers i ≡ true → has_read (ps i) ≡ true
  pub writer : (i : ℕ) → has_write (ps i) ≡ true → m.writer ≡ some i
  pub written_by : (i : ℕ) → m.writer ≡ some i → has_write (ps i) ≡ true
  pub apart : (i : ℕ) → m.readers i ≡ true → m.writer ≡ none
  pub acker : (i : ℕ) → has_ack (ps i) ≡ true → m.ack_lock ≡ some i
  pub awaited_by : (i : ℕ) → m.ack_lock ≡ some i → has_ack (ps i) ≡ true
  pub joined : (i : ℕ) → has_passed (ps i) ≡ true → m.connected ≡ true
  pub in_phase : (i : ℕ) → is_sending (ps i) ≡ true → m.transport_phase ≡ true
  pub due : (i : ℕ) → has_ack (ps i) ≡ true → m.disturbed ≡ false → m.acks ≡ owed (ps i)
  pub settled : m.ack_lock ≡ none → m.disturbed ≡ false → m.acks ≡ []
  pub sound : (i : ℕ) → is_crashed (ps i) ≡ false
