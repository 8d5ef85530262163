-- ===== src/Client/Ws/Sequential.antt =====
-- `CloseWithMsg` of fluent/client/ws/connection.go as one call runs it alone.
use fluent_forward_go.Common.{
  ℕ, ◌+◌, ◌<◌, ◌≡◌, refl, ap, Bool, true, false, Option, none, some, subst, sym, not, ◌&&◌, ◌||◌,
  if◌then◌else◌, List, [], ◌∷◌, arith,
}
use fluent_forward_go.Msgp.Errors.{Error, text}
use fluent_forward_go.Client.Ws.State.{ConnState, is_open, is_close_sent, is_closed}
use fluent_forward_go.Client.Ws.Closer.{
  Shared, set_state, Closer, uncalled, checking, writing, asking, ending, returned, Move, lock,
  test_open, test_closed, refuse, unset, unlock, skip_message, send_message, mark, written,
  not_written, alone, await, answered, expire, finish, close_ok, close_failed, call,
}

-- What `WriteMessage` and `Conn.Close` return, and whether `done` is closed before the deadline.
pub record Answers : Type 0 where
  pub write : Option Error
  pub in_time : Bool
  pub close : Option Error

-- `if cerr := …; cerr != nil { err = cerr }`
abbrev pub last_error : Option Error → Option Error → Option Error
last_error err none = err
last_error err (some cerr) = some cerr

abbrev pub closed_conn : Shared → Shared
closed_conn m = let m = set_state true is_closed m in record m { closes = m.closes + 1 }

abbrev pub close_conn : Answers → Shared → Option Error → Shared × Option Error
close_conn a m err = (closed_conn m, last_error err a.close)

-- The error behind the wait for the peer, which a connection that listens does.
abbrev pub wait_error : Bool → Bool → Option Error
wait_error false in_time = none
wait_error true true = none
wait_error true false = some (text "close deadline expired")

abbrev pub sent_error : Bool → Bool → Option Error → Option Error
sent_error listening in_time none = wait_error listening in_time
sent_error listening in_time (some e) = some e

abbrev pub send_close : Shared → Shared
send_close m = let m = set_state true is_close_sent m in record m { frames = m.frames + 1 }

-- With the error flag set, no message is sent.
abbrev pub close_open : Answers → Shared → Bool → Shared × Option Error
close_open a m true = close_conn a m none
close_open a m false =
    close_conn a (send_close m) (sent_error m.conn_state.listening a.in_time a.write)

abbrev pub close_from : Answers → Shared → Bool → Shared × Option Error
close_from a m true = let m = set_state false is_open m in close_open a m m.conn_state.error
close_from a m false = (m, some (text "multiple close calls"))

unfoldable pub close_with_msg : Answers → Shared → Shared × Option Error
close_with_msg a m = close_from a m m.conn_state.open_flag

pub data Moves (i : ℕ) : Shared → Closer → Shared → Closer → Type 0 where
  done : {m : Shared} {p : Closer} → Moves i m p m p
  next :
      {m m' m'' : Shared} {p p' p'' : Closer}
      → Move i m p m' p'
      → Moves i m' p' m'' p''
      → Moves i m p m'' p''

-- The first error of some, in the order in which they count.
abbrev pub first_of : List (Option Error) → Option Error
first_of [] = none
first_of (some e ∷ rest) = some e
first_of (none ∷ rest) = first_of rest

-- Whether a call that finds `s` sends a close message.
abbrev pub sends_close : ConnState → Bool
sends_close s = s.open_flag && not s.error

-- What counts: the error of closing, that of the write, and that of the wait for the peer.
abbrev pub errors_of : Answers → ConnState → List (Option Error)
errors_of a s =
    a.close
    ∷ (if sends_close s then a.write else none)
    ∷ (if sends_close s && s.listening && not a.in_time
        then some (text "close deadline expired")
        else none)
    ∷ []

-- What a call alone leaves of `m`: `m'`, with `e` returned.
pub record Left (a : Answers) (m m' : Shared) (e : Option Error) : Type 0 where
  pub closed_once : m'.closes ≡ m.closes + (if m.conn_state.open_flag then 1 else 0)
  pub one_message : m'.frames ≡ m.frames + (if sends_close m.conn_state then 1 else 0)
  pub flags : m'.conn_state ≡ record m.conn_state {
    open_flag = false;
    close_sent = m.conn_state.close_sent || sends_close m.conn_state;
    closed = m.conn_state.closed || m.conn_state.open_flag;
  }
  pub first : e ≡ (
      if m.conn_state.open_flag
      then first_of (errors_of a m.conn_state)
      else some (text "multiple close calls"))
  pub rest :
      (m'.close_lock ≡ m.close_lock)
      × (m'.listen_lock ≡ m.listen_lock)
      × (m'.done_closes ≡ m.done_closes)

module _ (i : ℕ) (a : Answers) where
  close_conn-Moves :
      (m : Shared) (err : Option Error) (c : Option Error)
      → Moves i m (ending err) (closed_conn m) (returned (last_error err c))
  close_conn-Moves m err none = next finish (next close_ok done)
  close_conn-Moves m err (some e) = next finish (next close_failed done)

  -- The peer can answer in time only where a read loop has closed `done`.
  wait-Moves :
      (m : Shared) (listening in_time : Bool)
      → m.conn_state.listening ≡ listening
      → (in_time ≡ true → 0 < m.done_closes)
      → Moves i m asking
          (closed_conn m)
          (returned (last_error (wait_error listening in_time) a.close))
  wait-Moves m false t e h = next (alone e) (close_conn-Moves m _ a.close)
  wait-Moves m true true e h =
      next (await e) (next (answered (h refl)) (close_conn-Moves m _ a.close))
  wait-Moves m true false e h = next (await e) (next expire (close_conn-Moves m _ a.close))

  sent-Moves :
      (m : Shared) (w : Option Error)
      → (a.in_time ≡ true → 0 < m.done_closes)
      → Moves i
          (set_state true is_close_sent m)
          writing
          (closed_conn (send_close m))
          (returned (last_error (sent_error m.conn_state.listening a.in_time w) a.close))
  sent-Moves m (some e) h = next not_written (close_conn-Moves (send_close m) _ a.close)
  sent-Moves m none h = next written (wait-Moves (send_close m) _ a.in_time refl h)

  open-Moves :
      (m : Shared) (error : Bool)
      → m.conn_state.error ≡ error
      → (a.in_time ≡ true → 0 < m.done_closes)
      → Moves i m checking (close_open a m error).0 (returned (close_open a m error).1)
  open-Moves m true e h = next (skip_message e) (close_conn-Moves m none a.close)
  open-Moves m false e h = next (send_message e) (next mark (sent-Moves m a.write h))

  abbrev unlocked : Shared → Shared
  unlocked m = record m { close_lock = none }

  abbrev Runs : Shared → Type 0
  Runs m = Moves i m uncalled (close_with_msg a m).0 (returned (close_with_msg a m).1)

  from-Moves :
      (m : Shared) (open_flag : Bool)
      → m.conn_state.open_flag ≡ open_flag
      → (a.in_time ≡ true → 0 < m.done_closes)
      → Moves i
          (unlocked m)
          uncalled
          (close_from a (unlocked m) open_flag).0
          (returned (close_from a (unlocked m) open_flag).1)
  from-Moves m true e h = next call (
      next (lock refl) (
        next (test_open e)
          (next unset (next unlock (open-Moves (set_state false is_open (unlocked m)) _ refl h)))))
  from-Moves m false e h = next call (next (lock refl) (next (test_closed e) (next refuse done)))

  run_alone : (m : Shared) → m.close_lock ≡ none → (a.in_time ≡ true → 0 < m.done_closes) → Runs m
  unfolding close_with_msg
  run_alone m free h =
      subst Runs (ap (λ l. record m { close_lock = l }) (sym free))
        (from-Moves m m.conn_state.open_flag refl h)

  close_with_msg-Left : (m : Shared) → Left a m (close_with_msg a m).0 (close_with_msg a m).1
  unfolding close_with_msg
  close_with_msg-Left m = record {
    closed_once = ground arith;
    one_message = ground arith;
    flags = ground arith;
    first = ground arith;
    rest = ground arith;
  }

  -- Where the lock is free, a call of CloseWithMsg that runs alone returns, for any results of the
  -- write and of closing, in time or not: its steps lead from the call to what close_with_msg
  -- computes. On an open connection it closes the network connection once, hands over one close
  -- message where the error flag is not set and none where it is, clears the open flag, sets the
  -- closed flag, and with a message the close-sent flag; it returns the error of closing, else that
  -- of the write, else "close deadline expired" where the connection listens and the peer did not
  -- answer in time, else nil. On one that is not open it returns "multiple close calls" and changes
  -- none of these. The other flags, the locks and done stay as they are. A peer can answer in time
  -- only where a read loop has closed the channel done.
  pub close_with_msg-Moves :
      (m : Shared)
      → m.close_lock ≡ none
      → (a.in_time ≡ true → 0 < m.done_closes)
      → Moves i m uncalled (close_with_msg a m).0 (returned (close_with_msg a m).1)
        × Left a m (close_with_msg a m).0 (close_with_msg a m).1
  close_with_msg-Moves m free h = (run_alone m free h, close_with_msg-Left m)

close_open-open_flag :
    (a : Answers) (m : Shared) (b : Bool)
    → (close_open a m b).0.conn_state.open_flag ≡ m.conn_state.open_flag
close_open-open_flag a m true = refl
close_open-open_flag a m false = refl

close_from-open_flag :
    (a : Answers) (m : Shared) (b : Bool)
    → m.conn_state.open_flag ≡ b
    → (close_from a m b).0.conn_state.open_flag ≡ false
close_from-open_flag a m true e = close_open-open_flag a (set_state false is_open m) _
close_from-open_flag a m false e = e

late :
    (b : Answers) (d : Shared)
    → d.conn_state.open_flag ≡ false
    → close_with_msg b d ≡ (d, some (text "multiple close calls"))
unfolding close_with_msg
late b d q = rw q refl

pub close_with_msg-again :
    (a b : Answers) (m : Shared)
    → let (d, _) = close_with_msg a m in
      close_with_msg b d ≡ (d, some (text "multiple close calls"))
unfolding close_with_msg
close_with_msg-again a b m =
    late b (close_with_msg a m).0 (close_from-open_flag a m m.conn_state.open_flag refl)
