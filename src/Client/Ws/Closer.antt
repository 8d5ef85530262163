-- ===== src/Client/Ws/Closer.antt =====
-- `CloseWithMsg` of fluent/client/ws/connection.go, an access to shared memory at a time.
use fluent_forward_go.Common.{ℕ, ◌+◌, ◌<◌, ◌≡◌, Bool, true, false, Option, none, some}
use fluent_forward_go.Msgp.Errors.{Error, text}
use fluent_forward_go.Client.Ws.State.{Flag, ConnState, is_open, is_close_sent, is_closed, put_flag}

-- What the goroutines share: the state, the two locks with the call that holds each, and how often
-- `done` has been closed. `frames` and `closes` count the close messages that were handed to the
-- network connection, and the calls of its `Close`. A second close of `done` panics. `listen_lock` counts by calls of `Listen`.
pub record Shared : Type 0 where
  pub conn_state : ConnState
  pub close_lock : Option ℕ
  pub listen_lock : Option ℕ
  pub done_closes : ℕ
  pub frames : ℕ
  pub closes : ℕ

abbrev pub set_state : Bool → Flag → Shared → Shared
set_state b cs m = record m { conn_state = put_flag b cs m.conn_state }

-- Where a call of `CloseWithMsg` stands, with `err` where it is live.
pub data Closer : Type 0 where
  uncalled : Closer
  locking : Closer  -- `closeLock.Lock`
  testing : Closer  -- `Closed`, with the lock
  refusing : Closer  -- the unlock of a call that comes too late
  unsetting : Closer  -- `unsetConnState`, with the lock
  unlocking : Closer
  checking : Closer  -- `hasConnState(ConnStateError)`
  marking : Closer  -- `setConnState(ConnStateCloseSent)`
  writing : Closer  -- `WriteMessage`
  asking : Closer  -- `hasConnState(ConnStateListening)`
  waiting : Closer  -- the `select`
  ending : Option Error → Closer  -- `setConnState(ConnStateClosed)`
  closing : Option Error → Closer  -- `Conn.Close`
  returned : Option Error → Closer

-- One step of call `i`. The network chooses how a write and `Conn.Close` end; the deadline may pass
-- at any time.
pub data Move (i : ℕ) (m : Shared) : Closer → Shared → Closer → Type 0 where
  call : Move i m uncalled m locking
  lock : m.close_lock ≡ none → Move i m locking (record m { close_lock = some i }) testing
  test_closed : m.conn_state.open_flag ≡ false → Move i m testing m refusing
  test_open : m.conn_state.open_flag ≡ true → Move i m testing m unsetting
  refuse :
      Move i m refusing
        (record m { close_lock = none })
        (returned (some (text "multiple close calls")))
  unset : Move i m unsetting (set_state false is_open m) unlocking
  unlock : Move i m unlocking (record m { close_lock = none }) checking
  skip_message : m.conn_state.error ≡ true → Move i m checking m (ending none)
  send_message : m.conn_state.error ≡ false → Move i m checking m marking
  mark : Move i m marking (set_state true is_close_sent m) writing
  written : Move i m writing (record m { frames = m.frames + 1 }) asking
  not_written :
      {e : Error} → Move i m writing (record m { frames = m.frames + 1 }) (ending (some e))
  alone : m.conn_state.listening ≡ false → Move i m asking m (ending none)
  await : m.conn_state.listening ≡ true → Move i m asking m waiting
  answered : 0 < m.done_closes → Move i m waiting m (ending none)
  expire : Move i m waiting m (ending (some (text "close deadline expired")))
  finish : {o : Option Error} → Move i m (ending o) (set_state true is_closed m) (closing o)
  close_ok :
      {o : Option Error} → Move i m (closing o) (record m { closes = m.closes + 1 }) (returned o)
  close_failed :
      {o : Option Error} {e : Error}
      → Move i m (closing o) (record m { closes = m.closes + 1 }) (returned (some e))
