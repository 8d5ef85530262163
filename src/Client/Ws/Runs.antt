-- ===== src/Client/Ws/Runs.antt =====
-- Runs of calls of fluent/client/ws/connection.go.
use Prim.Native.Nat.{zero, suc}
use fluent_forward_go.Common.{ℕ, ◌≡◌, ◌≤◌, refl, true, false, none, some, suc, arith, ◌⊎◌}
use fluent_forward_go.Client.Ws.Closer.{
  lock, test_open, unset, unlock, send_message, mark, written, alone, finish, close_ok, call,
  uncalled, returned,
}
use fluent_forward_go.Client.Ws.Sequential.{
  Answers, Moves, Left, close_with_msg, close_with_msg-Moves,
}
use fluent_forward_go.Client.Ws.State.{
  is_closed, has_conn_state, set_conn_state, unset_conn_state, number,
}
use fluent_forward_go.Client.Ws.State.Bits.{conn_state-flags}
use fluent_forward_go.Msgp.Errors.{text}
use fluent_forward_go.Client.Ws.Listener.{
  other_error, read, pass_error, close_messages, unmark, stop, test_free, ListenMove,
}
use fluent_forward_go.Client.Ws.System.{
  System, close_step, listen_step, loop_step, spawn, hand_over, Reach, start, later,
}
use fluent_forward_go.Client.Ws.Invariant.Defs.{in_progress, is_winner}
use fluent_forward_go.Client.Ws.Safety.{closed_once, closed_in_the_end}
use fluent_forward_go.Client.Ws.Reader.{one_reader}

-- Call 0 takes the lock, and call 1 waits for it.
abbrev contended : (s : System) × Reach s
contended = (
  _,
  later (later (later start (close_step 0 call)) (close_step 1 call)) (close_step 0 (lock refl)),
)

-- Call 0 alone closes the connection.
abbrev closed_by_one : (s : System) × Reach s
closed_by_one = (
  _,
  later
      (later
        (later
          (later
            (later
              (later
                (later
                  (later
                    (later (later (later start (close_step 0 call)) (close_step 0 (lock refl)))
                      (close_step 0 (test_open refl)))
                    (close_step 0 unset))
                  (close_step 0 unlock))
                (close_step 0 (send_message refl)))
              (close_step 0 mark))
            (close_step 0 written))
          (close_step 0 (alone refl)))
        (close_step 0 finish))
      (close_step 0 close_ok),
)

-- Call 0 of `Listen` reads.
abbrev one_listens : (s : System) × Reach s
one_listens = (
  _,
  later
      (later
        (later
          (later (later (start) (listen_step 0 ListenMove.call))
            (listen_step 0 (ListenMove.lock refl)))
          (listen_step 0 (test_free refl)))
        (listen_step 0 ListenMove.mark))
      (spawn 0 refl),
)

-- Its read loop ends with an error.
abbrev one_listened : (s : System) × Reach s
one_listened = (
  _,
  later
      (later
        (later
          (later
            (later (later (one_listens.1) (loop_step 0 (read {r = other_error})))
              (loop_step 0 pass_error))
            (hand_over 0 other_error none refl refl))
          (loop_step 0 close_messages))
        (loop_step 0 unmark))
      (loop_step 0 stop),
)

-- Call 1 of `Listen` reads, and its read loop ends too.
abbrev two_listened : (s : System) × Reach s
two_listened = (
  _,
  later
      (later
        (later
          (later
            (later
              (later
                (later
                  (later
                    (later
                      (later (later (one_listened.1) (listen_step 1 ListenMove.call))
                        (listen_step 1 (ListenMove.lock refl)))
                      (listen_step 1 (test_free refl)))
                    (listen_step 1 ListenMove.mark))
                  (spawn 1 refl))
                (loop_step 1 (read {r = other_error})))
              (loop_step 1 pass_error))
            (hand_over 1 other_error none refl refl))
          (loop_step 1 close_messages))
        (loop_step 1 unmark))
      (loop_step 1 stop),
)

closed_once_example :
    ((closed_by_one.0.mem.closes ≡ 0)
      ⊎ (closed_by_one.0.mem.closes ≡ 1) × (closed_by_one.0.mem.conn_state.closed ≡ true))
    × ((closed_by_one.0.mem.conn_state.open_flag ≡ false)
        ⊎ (closed_by_one.0.mem.closes ≡ 0) × (closed_by_one.0.mem.frames ≡ 0))
    × (closed_by_one.0.mem.frames ≤ 1)
    × ((i j : ℕ)
        → is_winner (closed_by_one.0.closers i) ≡ true
        → is_winner (closed_by_one.0.closers j) ≡ true
        → i ≡ j)
closed_once_example = closed_once closed_by_one.1

quiet : (j : ℕ) → in_progress (closed_by_one.0.closers j) ≡ false
quiet zero = refl
quiet (suc j) = ground arith

closed_in_the_end_example : closed_by_one.0.mem.closes ≡ 1
closed_in_the_end_example = closed_in_the_end closed_by_one.1 0 refl quiet

one_reader_example : ◌≡◌ {A = ℕ} 0 0 × (one_listens.0.mem.conn_state.listening ≡ true)
one_reader_example = one_reader one_listens.1 0 0 refl refl

-- The second close of `done` panics.
done_twice : two_listened.0.mem.done_closes ≡ 2
done_twice = refl

abbrev some_answers : Answers
some_answers = record { write = none; in_time = true; close = some (text "reset") }

-- A read loop has ended.
close_with_msg-Moves_example :
    Moves 3 one_listened.0.mem uncalled
      (close_with_msg some_answers one_listened.0.mem).0
      (returned (close_with_msg some_answers one_listened.0.mem).1)
    × Left some_answers one_listened.0.mem
        (close_with_msg some_answers one_listened.0.mem).0
        (close_with_msg some_answers one_listened.0.mem).1
close_with_msg-Moves_example =
    close_with_msg-Moves 3 some_answers one_listened.0.mem refl (λ _. omega arith)

conn_state-flags_example :
    (has_conn_state is_closed 21 ≡ true)
    × (set_conn_state is_closed 21 ≡ 21)
    × (unset_conn_state is_closed 21 ≡ 5)
unfolding number
conn_state-flags_example = conn_state-flags is_closed (record {
  open_flag = true;
  listening = false;
  close_received = true;
  close_sent = false;
  closed = true;
  error = false;
})
