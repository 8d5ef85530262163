-- ===== src/Client/Ws/Listener.antt =====
-- `Listen` and `runReadLoop` of fluent/client/ws/connection.go, an access to shared memory at a time.
use fluent_forward_go.Common.{ℕ, ◌+◌, ◌≡◌, Bool, true, false, Option, none, some}
use fluent_forward_go.Msgp.Errors.{Error, text}
use fluent_forward_go.Client.Ws.State.{is_listening, is_error}
use fluent_forward_go.Client.Ws.Closer.{Shared, set_state}

-- What `Conn.ReadMessage` gives: a message, an error that is `net.ErrClosed`, one that is a
-- `net.Error` or an abnormal closure, or any other error.
pub data Reading : Type 0 where
  message net_closed net_error other_error : Reading

-- Where the read loop of a call of `Listen` stands.
pub data Loop : Type 0 where
  unborn : Loop
  reading : Loop  -- `Conn.ReadMessage`
  judging : Reading → Loop  -- the tests on its error
  failing : Reading → Loop  -- `setConnState(ConnStateError)`
  sending : Reading → Loop  -- `nextMsg <- msg`
  leaving : Loop  -- `close(nextMsg)`
  unmarking : Loop  -- `unsetConnState(ConnStateListening)`
  stopping : Loop  -- `close(wsc.done)`
  stopped : Loop

pub data LoopMove (m : Shared) : Loop → Shared → Loop → Type 0 where
  read : {r : Reading} → LoopMove m reading m (judging r)
  pass_message : LoopMove m (judging message) m (sending message)
  healthy : m.conn_state.closed ≡ true → LoopMove m (judging net_closed) m leaving
  unhealthy : m.conn_state.closed ≡ false → LoopMove m (judging net_closed) m (failing net_closed)
  broken : LoopMove m (judging net_error) m (failing net_error)
  pass_error : LoopMove m (judging other_error) m (sending other_error)
  fail : {r : Reading} → LoopMove m (failing r) (set_state true is_error m) (sending r)
  close_messages : LoopMove m leaving m unmarking
  unmark : LoopMove m unmarking (set_state false is_listening m) stopping
  stop : LoopMove m stopping (record m { done_closes = m.done_closes + 1 }) stopped

-- Where a call of `Listen` stands, with `err` where it is live.
pub data Listener : Type 0 where
  uncalled : Listener
  locking : Listener  -- `listenLock.Lock`
  testing : Listener  -- `hasConnState(ConnStateListening)`, with the lock
  refusing : Listener  -- the unlock of a call that comes too late
  marking : Listener  -- `setConnState(ConnStateListening)`, with the lock
  starting : Listener  -- the unlock, and the start of the read loop
  ranging : Option Error → Listener  -- `range nextMsg`
  handling : Option Error → Listener  -- the read handler
  returned : Option Error → Listener

pub data ListenMove (i : ℕ) (m : Shared) : Listener → Shared → Listener → Type 0 where
  call : ListenMove i m uncalled m locking
  lock : m.listen_lock ≡ none → ListenMove i m locking (record m { listen_lock = some i }) testing
  test_listening : m.conn_state.listening ≡ true → ListenMove i m testing m refusing
  test_free : m.conn_state.listening ≡ false → ListenMove i m testing m marking
  refuse :
      ListenMove i m refusing
        (record m { listen_lock = none })
        (returned (some (text "already listening on this connection")))
  mark : ListenMove i m marking (set_state true is_listening m) starting
  -- the handler returns nil, or an error that is a normal close
  handled : {o : Option Error} → ListenMove i m (handling o) m (ranging o)
  -- the handler returns any other error
  failed : {o : Option Error} {e : Error} → ListenMove i m (handling o) m (ranging (some e))

-- Behind a message the loop goes on, and behind an error it leaves.
abbrev pub after_send : Reading → Loop
after_send message = reading
after_send _ = leaving

-- The loop has closed the channel.
abbrev pub has_left : Loop → Bool
has_left unmarking = true
has_left stopping = true
has_left stopped = true
has_left _ = false
