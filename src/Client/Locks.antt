-- ===== src/Client/Locks.antt =====
-- The calls of fluent/client/client.go on one client with `RequireAck`, from any number of
-- goroutines: an access to what they share at a time. `sessionLock` and `ackLock` are
-- `sync.RWMutex` and `sync.Mutex`.
pub mod System
pub mod Invariant
pub mod Safety
mod Runs
use fluent_forward_go.Common.{
  ℕ, Bool, true, false, ◌||◌, Option, none, some, Bytes, List, [], ◌∷◌, ◌++◌, ◌≡◌, update, ◌&&◌,
}
use fluent_forward_go.Msgp.Errors.{Error, text}
use fluent_forward_go.Client.Session.{Ended, ok, refused}
use fluent_forward_go.Client.Session.Complete.{ack_result}

-- `readers` and `writer` are the calls that hold `sessionLock`. While `connected`, the session is not
-- nil, and `transport_phase`, `acks` and `disturbed` belong to it: `acks` are the chunks that the
-- server was asked to acknowledge and whose acks have not been read, in the server's order. The
-- session is disturbed once bytes were lost on it, something was written or read on it that no Send
-- is about, or an ack was read that the server did not owe. The reader of `checkAck` loses what it
-- reads ahead behind an ack: where it can be more than an ack that is owed, the session is disturbed.
pub record Memory : Type 0 where
  pub connected : Bool
  pub transport_phase : Bool
  pub acks : List Bytes
  pub disturbed : Bool
  pub readers : ℕ → Bool
  pub writer : Option ℕ
  pub ack_lock : Option ℕ

-- The calls that take `sessionLock` to read: `Send` with its chunk, `SendRaw` with the chunk that its
-- bytes ask the server to acknowledge, and `Handshake`.
pub data Use : Type 0 where
  sends : Bytes → Use
  sends_raw : Option Bytes → Use
  shakes : Use

-- The calls that take it to write.
pub data Change : Type 0 where
  connects disconnects reconnects : Change

-- Where a call stands.
pub data Caller : Type 0 where
  uncalled : Caller
  read_locking : Use → Caller  -- `sessionLock.RLock`
  testing : Use → Caller  -- the checks of the session
  going : Use → Caller
  encoding : Bytes → Caller  -- with `ackLock`
  awaiting : Bytes → Caller  -- `checkAck`
  ack_unlocking : Ended → Caller
  pinging : Caller  -- `Handshake`, with the HELO
  ponging : Caller
  completing : Caller  -- `TransportPhase = true`
  read_unlocking : Ended → Caller
  write_locking : Change → Caller  -- `sessionLock.Lock`
  changing : Change → Caller
  connecting : Caller  -- `connect` of `Reconnect`
  write_unlocking : Ended → Caller
  returned : Ended → Caller
  crashed : Caller  -- a use of the nil session

-- The checks of each call before it goes on.
abbrev pub passes : Use → Memory → Bool
passes shakes m = m.connected
passes u m = m.connected && m.transport_phase

abbrev pub disturb : Memory → Memory
disturb m = record m { disturbed = true }

-- What `Handshake` reads and writes reaches the acks of a session that is in transport phase.
abbrev pub shake : Memory → Memory
shake m = record m { disturbed = m.disturbed || m.transport_phase }

abbrev pub ask_ack : Bytes → Memory → Memory
ask_ack chunk m = record m { acks = m.acks ++ (chunk ∷ []) }

abbrev pub send_raw : Option Bytes → Memory → Memory
send_raw none m = m
send_raw (some chunk) m = disturb (ask_ack chunk m)

-- A new session: its phase is whether there is no shared key.
abbrev pub renew : Bool → Memory → Memory
renew no_key m = record m {
  connected = true;
  transport_phase = no_key;
  acks = [];
  disturbed = false;
}

-- One step of call `i`. The factory, the network and the server choose how a step ends.
pub data Move (i : ℕ) (m : Memory) : Caller → Memory → Caller → Type 0 where
  use_session : {u : Use} → Move i m uncalled m (read_locking u)
  read_lock :
      {u : Use}
      → m.writer ≡ none
      → Move i m (read_locking u) (record m { readers = update m.readers i true }) (testing u)
  pass : {u : Use} → passes u m ≡ true → Move i m (testing u) m (going u)
  fail :
      {u : Use} {e : Error}
      → passes u m ≡ false
      → Move i m (testing u) m (read_unlocking (refused e))
  no_chunk : {c : Bytes} {e : Error} → Move i m (going (sends c)) m (read_unlocking (refused e))
  ack_lock :
      {c : Bytes}
      → m.ack_lock ≡ none
      → Move i m (going (sends c)) (record m { ack_lock = some i }) (encoding c)
  encode_crash : {c : Bytes} → m.connected ≡ false → Move i m (encoding c) m crashed
  encoded : {c : Bytes} → m.connected ≡ true → Move i m (encoding c) (ask_ack c m) (awaiting c)
  not_encoded :
      {c : Bytes} {e : Error}
      → m.connected ≡ true
      → Move i m (encoding c) (disturb m) (ack_unlocking (refused e))
  await_crash : {c : Bytes} → m.connected ≡ false → Move i m (awaiting c) m crashed
  read_ack :
      {c : Bytes} (a : Bytes) {rest : List Bytes}
      → m.connected ≡ true
      → m.acks ≡ a ∷ rest
      → Move i m (awaiting c) (record m { acks = rest }) (ack_unlocking (ack_result c a))
  -- an ack that the server does not owe
  read_other :
      {c : Bytes} (a : Bytes)
      → m.connected ≡ true
      → Move i m (awaiting c) (disturb m) (ack_unlocking (ack_result c a))
  no_ack :
      {c : Bytes} {e : Error}
      → m.connected ≡ true
      → Move i m (awaiting c) (disturb m) (ack_unlocking (refused e))
  ack_unlock :
      {o : Ended} → Move i m (ack_unlocking o) (record m { ack_lock = none }) (read_unlocking o)
  raw_crash : {o : Option Bytes} → m.connected ≡ false → Move i m (going (sends_raw o)) m crashed
  raw_sent :
      {o : Option Bytes}
      → m.connected ≡ true
      → Move i m (going (sends_raw o)) (send_raw o m) (read_unlocking ok)
  raw_not_sent :
      {o : Option Bytes} {e : Error}
      → m.connected ≡ true
      → Move i m (going (sends_raw o)) (disturb m) (read_unlocking (refused e))
  helo_crash : m.connected ≡ false → Move i m (going shakes) m crashed
  helo_read : m.connected ≡ true → Move i m (going shakes) (shake m) pinging
  no_helo :
      {e : Error}
      → m.connected ≡ true
      → Move i m (going shakes) (shake m) (read_unlocking (refused e))
  ping_crash : m.connected ≡ false → Move i m pinging m crashed
  ping_sent : m.connected ≡ true → Move i m pinging (shake m) ponging
  no_ping :
      {e : Error} → m.connected ≡ true → Move i m pinging (shake m) (read_unlocking (refused e))
  pong_read : Move i m ponging (shake m) completing
  no_pong : {e : Error} → Move i m ponging (shake m) (read_unlocking (refused e))
  complete_crash : m.connected ≡ false → Move i m completing m crashed
  complete :
      m.connected ≡ true
      → Move i m completing (record m { transport_phase = true }) (read_unlocking ok)
  read_unlock :
      {o : Ended}
      → Move i m (read_unlocking o) (record m { readers = update m.readers i false }) (returned o)
  change_session : {k : Change} → Move i m uncalled m (write_locking k)
  write_lock :
      {k : Change}
      → m.writer ≡ none
      → ((j : ℕ) → m.readers j ≡ false)
      → Move i m (write_locking k) (record m { writer = some i }) (changing k)
  active :
      {e : Error}
      → m.connected ≡ true
      → Move i m (changing connects) m (write_unlocking (refused e))
  dial :
      {b : Bool}
      → m.connected ≡ false
      → Move i m (changing connects) (renew b m) (write_unlocking ok)
  no_dial :
      {e : Error}
      → m.connected ≡ false
      → Move i m (changing connects) m (write_unlocking (refused e))
  disconnect :
      {o : Ended}
      → Move i m (changing disconnects) (record m { connected = false }) (write_unlocking o)
  drop : Move i m (changing reconnects) (record m { connected = false }) connecting
  dial_again : {b : Bool} → Move i m connecting (renew b m) (write_unlocking ok)
  no_dial_again : {e : Error} → Move i m connecting m (write_unlocking (refused e))
  write_unlock :
      {o : Ended} → Move i m (write_unlocking o) (record m { writer = none }) (returned o)
