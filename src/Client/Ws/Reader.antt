-- ===== src/Client/Ws/Reader.antt =====
-- The calls of `Listen` of fluent/client/ws/connection.go in every reachable state.
pub mod Defs
pub mod Moves
use fluent_forward_go.Common.{ℕ, ◌≡◌, refl, true, false, arith}
use fluent_forward_go.Client.Ws.Closer.{Shared, Closer, Move, call}
use fluent_forward_go.Client.Ws.Listener.{Loop, Listener}
use fluent_forward_go.Client.Ws.System.{
  System, Step, close_step, listen_step, loop_step, spawn, hand_over, hang_up, receive_close, init,
  Reach, start, later,
}
use fluent_forward_go.Client.Ws.Reader.Defs.{is_owner, is_reader, Inv}
use fluent_forward_go.Client.Ws.Reader.Moves.{listen-Inv, loop-Inv, spawn-Inv, hand-Inv, hang-Inv}

-- A call of `CloseWithMsg` and the close handler leave all that `Inv` reads.
Move-same :
    {i : ℕ} {m m' : Shared} {p p' : Closer} {ls : ℕ → Listener} {ps : ℕ → Loop}
    → Move i m p m' p'
    → Inv m ls ps
    → Inv m' ls ps
Move-same call inv = inv
Move-same mv inv = record {
  locked = inv.locked;
  free = inv.free;
  early = inv.early;
  marked = inv.marked;
  unique = inv.unique;
}

Inv-init : Inv init.mem init.listeners init.loops
Inv-init = record {
  locked = λ i q. cc;
  free = λ i q. cc;
  early = λ i q. refl;
  marked = λ i q. cc;
  unique = λ i j q r. cc;
}

Step-Inv : {s t : System} → Step s t → Inv s.mem s.listeners s.loops → Inv t.mem t.listeners t.loops
Step-Inv (close_step i mv) inv = Move-same mv inv
Step-Inv (listen_step i mv) inv = listen-Inv inv i mv
Step-Inv (loop_step i mv) inv = loop-Inv inv i mv
Step-Inv (spawn i e) inv = spawn-Inv inv i e
Step-Inv (hand_over i r o e f) inv = hand-Inv inv i r o e f
Step-Inv (hang_up i o e f) inv = hang-Inv inv i o f
Step-Inv receive_close inv = record {
  locked = inv.locked;
  free = inv.free;
  early = inv.early;
  marked = inv.marked;
  unique = inv.unique;
}

pub Reach-Inv : {s : System} → Reach s → Inv s.mem s.listeners s.loops
Reach-Inv start = Inv-init
Reach-Inv (later r st) = Step-Inv st (Reach-Inv r)

-- In every reachable state, at most one read loop of the calls of Listen has not cleared the
-- listening flag yet, and while there is one the flag is set: no two goroutines read from the
-- network connection.
pub one_reader :
    {s : System}
    → Reach s
    → (i j : ℕ) → is_reader (s.loops i) ≡ true
    → is_reader (s.loops j) ≡ true
    → (i ≡ j) × (s.mem.conn_state.listening ≡ true)
one_reader {s} r i j p q = (unique i j (own i p) (own j q), marked i (own i p))
  where
    open (Reach-Inv r) use {unique, marked}

    own : (k : ℕ) → is_reader (s.loops k) ≡ true → is_owner (s.listeners k) (s.loops k) ≡ true
    own k h = ground arith
