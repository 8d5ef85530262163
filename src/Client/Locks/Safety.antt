-- ===== src/Client/Locks/Safety.antt =====
-- What the locks of fluent/client/client.go ensure, however its calls are interleaved.
use fluent_forward_go.Common.{
  same_iff, ℕ, ◌≡◌, ◌<◌, ◌⊎◌, inl, inr, refl, true, false, Bytes, [], ◌∷◌, arith, ◌≢◌, Bool, not,
}
use fluent_forward_go.Client.Session.{ok}
use fluent_forward_go.Client.Locks.{
  Memory, sends_raw, shakes, connects, Caller, uncalled, read_locking, testing, going, encoding,
  awaiting, ack_unlocking, pinging, ponging, completing, read_unlocking, write_locking, changing,
  connecting, write_unlocking, crashed, Move, no_ack, await_crash, read_ack, read_other,
}
use fluent_forward_go.Client.Locks.System.{System, Reach}
use fluent_forward_go.Client.Locks.Invariant.Defs.{has_write, has_read, has_ack, is_sending}
use fluent_forward_go.Client.Locks.Invariant.{Reach-Inv}

-- In every reachable state of any number of calls of Connect, Disconnect, Reconnect, Handshake,
-- Send and SendRaw on one client with acks required, interleaved in any order: at most one Send
-- stands between taking ackLock and giving it back; while a call has sessionLock to write, none has
-- it to read; a Send or SendRaw past its checks has a session, in the transport phase; and no call
-- uses a nil session.
pub sends_apart :
    {s : System}
    → Reach s
    → (i : ℕ)
    → ((j : ℕ) → has_ack (s.callers i) ≡ true → has_ack (s.callers j) ≡ true → i ≡ j)
      × ((j : ℕ) → has_write (s.callers i) ≡ true → has_read (s.callers j) ≡ false)
      × (is_sending (s.callers i) ≡ true
          → (s.mem.connected ≡ true) × (s.mem.transport_phase ≡ true))
      × (s.callers i ≢ crashed)
sends_apart {s} r i = (
  λ j p q. ground (arith, acker i, acker j),
  λ j p. ground (arith, writer i, reader j, apart j),
  λ p. (ground (arith, joined i), in_phase i p),
  λ e. ground (arith, sound i),
)
  where
    open (Reach-Inv r) use {acker, writer, reader, apart, joined, in_phase, sound}

await_lem :
    {i : ℕ} {m m' : Memory} {c : Bytes} {p q : Caller}
    → Move i m q m' p
    → q ≡ awaiting c
    → m.connected ≡ true
    → m.disturbed ≡ false
    → m.acks ≡ c ∷ []
    → (p ≡ ack_unlocking ok) ⊎ (m'.disturbed ≡ true)
await_lem (read_ack {c} a k h) e y u d = inl (ground (arith, (same_iff a c).1))
await_lem (await_crash k) e y u d = ground arith
await_lem (read_other a k) e y u d = inr refl
await_lem (no_ack k) e y u d = inr refl
await_lem mv e y u d = ground arith

-- In every reachable state of such calls, for a Send that waits for its ack on a session that is
-- not disturbed: the only ack that the server owes is the one for its chunk, and its next step ends
-- it with nil or disturbs the session. A session is disturbed by a write or a read that fails, by
-- an ack that is read and that the server does not owe, by a SendRaw that asks for an ack, and by a
-- Handshake in the transport phase.
pub own_ack :
    {s : System} {m : Memory} {p : Caller}
    → Reach s
    → (i : ℕ) (c : Bytes) → s.callers i ≡ awaiting c
    → s.mem.disturbed ≡ false
    → Move i s.mem (s.callers i) m p
    → (s.mem.acks ≡ c ∷ []) × ((p ≡ ack_unlocking ok) ⊎ (m.disturbed ≡ true))
own_ack {s} r i c e u mv = (only, await_lem mv e (ground (arith, joined i)) u only)
  where
    open (Reach-Inv r) use {due, joined}

    only : s.mem.acks ≡ c ∷ []
    only = ground (arith, due i)

-- How many more steps a call can take.
abbrev pub rank : Caller → ℕ
rank uncalled = 12
rank (read_locking u) = 11
rank (testing u) = 10
rank (going u) = 9
rank (encoding c) = 8
rank (awaiting c) = 7
rank (ack_unlocking o) = 6
rank pinging = 5
rank ponging = 4
rank completing = 3
rank (read_unlocking o) = 2
rank (write_locking k) = 6
rank (changing k) = 5
rank connecting = 4
rank (write_unlocking o) = 3
rank _ = 0

-- Whether a call is in one of the network: a dial, a read, a write or a close.
abbrev pub in_network : Memory → Caller → Bool
in_network m (going (sends_raw o)) = true
in_network m (going shakes) = true
in_network m (encoding c) = true
in_network m (awaiting c) = true
in_network m pinging = true
in_network m ponging = true
in_network m (changing connects) = not m.connected
in_network m (changing k) = m.connected
in_network m connecting = true
in_network m p = false

-- What call `j` can do next: a step with which its rank falls.
pub record Progress (j : ℕ) (m : Memory) (p : Caller) : Type 0 where
  pub next_mem : Memory
  pub next : Caller
  pub move : Move j m p next_mem next
  pub falls : rank next < rank p

-- Call `j` goes on, or is in a call of the network that does not return.
abbrev pub GoesOn : (answers : ℕ → Bool) → ℕ → Memory → Caller → Type 0
GoesOn answers j m p = ((in_network m p ≡ true) × (answers j ≡ false)) ⊎ Progress j m p
