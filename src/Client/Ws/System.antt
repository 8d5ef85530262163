-- ===== src/Client/Ws/System.antt =====
-- Any number of calls of `CloseWithMsg` and `Listen` on one connection, interleaved in any order.
use fluent_forward_go.Common.{update, ℕ, ◌≡◌, true, false, Option, none}
use fluent_forward_go.Msgp.Errors.{Error}
use fluent_forward_go.Client.Ws.Closer.{Shared, Closer, Move}
use fluent_forward_go.Client.Ws.Listener.{
  Reading, Loop, unborn, reading, sending, LoopMove, Listener, starting, ranging, handling,
  ListenMove, after_send, has_left,
}

-- Call `i` of each kind.
pub record System : Type 0 where
  pub mem : Shared
  pub closers : ℕ → Closer
  pub listeners : ℕ → Listener
  pub loops : ℕ → Loop

-- `receive_close` is `handleClose`, which the network connection calls while it reads.
pub data Step (s : System) : System → Type 0 where
  close_step :
      (i : ℕ) {m : Shared} {p : Closer}
      → Move i s.mem (s.closers i) m p
      → Step s (record s { mem = m; closers = update s.closers i p })
  listen_step :
      (i : ℕ) {m : Shared} {p : Listener}
      → ListenMove i s.mem (s.listeners i) m p
      → Step s (record s { mem = m; listeners = update s.listeners i p })
  loop_step :
      (i : ℕ) {m : Shared} {p : Loop}
      → LoopMove s.mem (s.loops i) m p
      → Step s (record s { mem = m; loops = update s.loops i p })
  -- `listenLock.Unlock()`, and `go wsc.runReadLoop(nextMsg)`
  spawn :
      (i : ℕ)
      → s.listeners i ≡ starting
      → Step s (record s {
        mem = record s.mem { listen_lock = none };
        listeners = update s.listeners i (ranging none);
        loops = update s.loops i reading;
      })
  -- a message goes through the channel, which has no buffer
  hand_over :
      (i : ℕ) (r : Reading) (o : Option Error)
      → s.loops i ≡ sending r
      → s.listeners i ≡ ranging o
      → Step s (record s {
        listeners = update s.listeners i (handling o);
        loops = update s.loops i (after_send r);
      })
  -- the channel is closed, and the range ends
  hang_up :
      (i : ℕ) (o : Option Error)
      → has_left (s.loops i) ≡ true
      → s.listeners i ≡ ranging o
      → Step s (record s { listeners = update s.listeners i (Listener.returned o) })
  receive_close : Step s (record s {
    mem = record s.mem { conn_state = record s.mem.conn_state { close_received = true } };
  })

-- `NewConnection`
abbrev pub fresh : Shared
fresh = record {
  conn_state = record {
    open_flag = true;
    listening = false;
    close_received = false;
    close_sent = false;
    closed = false;
    error = false;
  };
  close_lock = none;
  listen_lock = none;
  done_closes = 0;
  frames = 0;
  closes = 0;
}

abbrev pub init : System
init = record {
  mem = fresh;
  closers = λ _. Closer.uncalled;
  listeners = λ _. Listener.uncalled;
  loops = λ _. unborn;
}

pub data Reach : System → Type 0 where
  start : Reach init
  later : {s t : System} → Reach s → Step s t → Reach t
