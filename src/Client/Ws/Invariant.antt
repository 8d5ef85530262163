-- ===== src/Client/Ws/Invariant.antt =====
-- The calls of `CloseWithMsg` of fluent/client/ws/connection.go in every reachable state.
pub mod Defs
pub mod Moves
use fluent_forward_go.Common.{ℕ, ◌≡◌, refl, Bool, true, false, none, some, arith}
use fluent_forward_go.Client.Ws.Closer.{Shared}
use fluent_forward_go.Client.Ws.Listener.{
  Loop, LoopMove, Listener, ListenMove, read, call, Listener,
}
use fluent_forward_go.Client.Ws.System.{
  System, Step, close_step, listen_step, loop_step, spawn, hand_over, hang_up, receive_close, init,
  Reach, start, later,
}
use fluent_forward_go.Client.Ws.Invariant.Defs.{Inv}
use fluent_forward_go.Client.Ws.Invariant.Moves.{Move-Inv, own_part, Inv-of_same}

-- The read loop, the calls of `Listen` and the close handler leave all that `Inv` reads.
LoopMove-same : {m m' : Shared} {p p' : Loop} → LoopMove m p m' p' → own_part m' ≡ own_part m
LoopMove-same read = refl
LoopMove-same mv = refl

ListenMove-same :
    {i : ℕ} {m m' : Shared} {p p' : Listener} → ListenMove i m p m' p' → own_part m' ≡ own_part m
ListenMove-same call = refl
ListenMove-same mv = refl

Inv-init : Inv init.mem init.closers
Inv-init = record {
  locked = λ i q. cc;
  holder = λ i q. cc;
  place = λ i. tt;
  unique = λ i j q r. cc;
  untouched = λ _. (refl, refl);
  pending = λ q. cc;
  one_close = omega arith;
  one_frame = omega arith;
  final = λ q. absurd (omega arith);
}

Step-Inv : {s t : System} → Step s t → Inv s.mem s.closers → Inv t.mem t.closers
Step-Inv (close_step i mv) inv = Move-Inv inv i mv
Step-Inv (listen_step i mv) inv = Inv-of_same (ListenMove-same mv) inv
Step-Inv (loop_step i mv) inv = Inv-of_same (LoopMove-same mv) inv
Step-Inv (spawn i e) inv = Inv-of_same refl inv
Step-Inv (hand_over i r o e f) inv = inv
Step-Inv (hang_up i o e f) inv = inv
Step-Inv receive_close inv = Inv-of_same refl inv

pub Reach-Inv : {s : System} → Reach s → Inv s.mem s.closers
Reach-Inv start = Inv-init
Reach-Inv (later r st) = Step-Inv st (Reach-Inv r)
