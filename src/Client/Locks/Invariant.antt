-- ===== src/Client/Locks/Invariant.antt =====
-- The calls of fluent/client/client.go on one client in every reachable state.
pub mod Defs
pub mod Moves
use fluent_forward_go.Common.{ℕ, ◌≡◌, refl, none, arith}
use fluent_forward_go.Client.Locks.System.{System, Step, step, init, Reach, start, later}
use fluent_forward_go.Client.Locks.Invariant.Defs.{Inv}
use fluent_forward_go.Client.Locks.Invariant.Moves.{Move-Inv}

Inv-init : Inv init.mem init.callers
Inv-init = record {
  reader = λ i q. cc;
  read_by = λ i q. cc;
  writer = λ i q. cc;
  written_by = λ i q. cc;
  apart = λ i q. cc;
  acker = λ i q. cc;
  awaited_by = λ i q. cc;
  joined = λ i q. cc;
  in_phase = λ i q. cc;
  due = λ i q u. cc;
  settled = λ q u. refl;
  sound = λ i. refl;
}

pub Reach-Inv : {s : System} → Reach s → Inv s.mem s.callers
Reach-Inv start = Inv-init
Reach-Inv (later r (step i mv)) = Move-Inv (Reach-Inv r) i mv
