-- ===== src/Client/Locks/System.antt =====
-- Calls on one client of fluent/client/client.go, interleaved in any order.
use fluent_forward_go.Common.{ℕ, false, none, [], update}
use fluent_forward_go.Client.Locks.{Memory, Caller, uncalled, Move}

pub record System : Type 0 where
  pub mem : Memory
  pub callers : ℕ → Caller

pub data Step (s : System) : System → Type 0 where
  step :
      (i : ℕ) {m : Memory} {p : Caller}
      → Move i s.mem (s.callers i) m p
      → Step s (record { mem = m; callers = update s.callers i p })

-- `New`
abbrev pub init : System
init = record {
  mem = record {
    connected = false;
    transport_phase = false;
    acks = [];
    disturbed = false;
    readers = λ _. false;
    writer = none;
    ack_lock = none;
  };
  callers = λ _. uncalled;
}

pub data Reach : System → Type 0 where
  start : Reach init
  later : {s t : System} → Reach s → Step s t → Reach t
