-- ===== src/Client/Locks/Runs.antt =====
-- Runs of calls of fluent/client/client.go on one client.
use fluent_forward_go.Common.{
  ℕ, ◌==◌, if◌then◌else◌, false, ◌≡◌, ◌≢◌, ◌⊎◌, refl, true, false, [], ◌∷◌,
}
use fluent_forward_go.Client.Session.{ok}
use fluent_forward_go.Client.Session.Complete.{ack_result}
use fluent_forward_go.Client.Locks.{
  sends, shakes, connects, awaiting, ack_unlocking, crashed, completing, testing, use_session,
  read_lock, pass, ack_lock, encoded, read_ack, change_session, write_lock, dial, write_unlock,
  helo_read, ping_sent, pong_read, Bool,
}
use fluent_forward_go.Client.Locks.System.{System, step, Reach, start, later}
use fluent_forward_go.Client.Locks.Invariant.Defs.{has_write, has_read, has_ack, is_sending}
use fluent_forward_go.Client.Locks.Safety.{sends_apart, own_ack}

-- Call 0 connects, with or without a handshake to come.
abbrev connected_by : (no_key : Bool) → (s : System) × Reach s
connected_by no_key = (
  _,
  later
      (later
        (later (later start (step 0 (change_session {k = connects})))
          (step 0 (write_lock refl (λ j. refl))))
        (step 0 (dial {b = no_key} refl)))
      (step 0 write_unlock),
)

-- Calls 1 and 2 send. Call 1 waits for its ack, and call 2 for call 1.
abbrev two_send : (s : System) × Reach s
two_send = (
  _,
  later
      (later
        (later
          (later
            (later
              (later
                (later (later (connected_by true).1 (step 1 (use_session {u = sends (1 ∷ [])})))
                  (step 1 (read_lock refl)))
                (step 2 (use_session {u = sends (2 ∷ [])})))
              (step 2 (read_lock refl)))
            (step 1 (pass refl)))
          (step 2 (pass refl)))
        (step 1 (ack_lock refl)))
      (step 1 (encoded refl)),
)

sends_apart_example :
    ((j : ℕ) → has_ack (awaiting (1 ∷ [])) ≡ true → has_ack (two_send.0.callers j) ≡ true → 1 ≡ j)
    × ((j : ℕ) → has_write (awaiting (1 ∷ [])) ≡ true → has_read (two_send.0.callers j) ≡ false)
    × (is_sending (awaiting (1 ∷ [])) ≡ true
        → (two_send.0.mem.connected ≡ true) × (two_send.0.mem.transport_phase ≡ true))
    × (awaiting (1 ∷ []) ≢ crashed)
sends_apart_example = sends_apart two_send.1 1

own_ack_example :
    (two_send.0.mem.acks ≡ (1 ∷ []) ∷ [])
    × ((ack_unlocking (ack_result (1 ∷ []) (1 ∷ [])) ≡ ack_unlocking ok) ⊎ (false ≡ true))
own_ack_example = own_ack two_send.1 1 (1 ∷ []) refl refl (read_ack (1 ∷ []) refl refl)

-- The server does not answer call 1, and answers the others.
abbrev silent_to_one : ℕ → Bool
silent_to_one j = if j == 1 then false else true

-- Call 1 is about to set the transport phase, and call 2 to read it: both have `sessionLock` to read.
abbrev phase_raced : (s : System) × Reach s
phase_raced = (
  _,
  later
      (later
        (later
          (later
            (later
              (later
                (later (later (connected_by false).1 (step 1 (use_session {u = shakes})))
                  (step 1 (read_lock refl)))
                (step 1 (pass refl)))
              (step 1 (helo_read refl)))
            (step 1 (ping_sent refl)))
          (step 1 pong_read))
        (step 2 (use_session {u = sends (1 ∷ [])})))
      (step 2 (read_lock refl)),
)

phase_race :
    (phase_raced.0.callers 1 ≡ completing) × (phase_raced.0.callers 2 ≡ testing (sends (1 ∷ [])))
phase_race = (refl, refl)
