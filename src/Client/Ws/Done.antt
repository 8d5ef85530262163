-- ===== src/Client/Ws/Done.antt =====
-- How often `runReadLoop` of fluent/client/ws/connection.go closes `wsc.done`.
use fluent_forward_go.Common.{update, ℕ, ◌≡◌, ◌≢◌, ◌≤◌, refl, Bool, true, false, arith}
use fluent_forward_go.Client.Ws.Closer.{Shared, Closer, Move}
use fluent_forward_go.Client.Ws.Listener.{Loop, LoopMove, Listener, ListenMove, read, stopped}
use fluent_forward_go.Client.Ws.System.{
  System, Step, close_step, listen_step, loop_step, spawn, hand_over, hang_up, receive_close, Reach,
  start, later,
}

abbrev pub has_stopped : Loop → Bool
has_stopped stopped = true
has_stopped _ = false

record Inv (m : Shared) (ps : ℕ → Loop) : Type 0 where
  one : (i : ℕ) → has_stopped (ps i) ≡ true → 1 ≤ m.done_closes
  two :
      (i j : ℕ) → i ≢ j → has_stopped (ps i) ≡ true → has_stopped (ps j) ≡ true → 2 ≤ m.done_closes

same_done : {m m' : Shared} {ps : ℕ → Loop} → m'.done_closes ≡ m.done_closes → Inv m ps → Inv m' ps
same_done e inv = record {
  one = λ i p. omega (arith, inv.one i p);
  two = λ i j ne p q. omega (arith, inv.two i j ne p q);
}

Move-done :
    {i : ℕ} {m m' : Shared} {p p' : Closer} → Move i m p m' p' → m'.done_closes ≡ m.done_closes
Move-done Move.call = refl
Move-done mv = refl

ListenMove-done :
    {i : ℕ} {m m' : Shared} {p p' : Listener}
    → ListenMove i m p m' p'
    → m'.done_closes ≡ m.done_closes
ListenMove-done ListenMove.call = refl
ListenMove-done mv = refl

module _ {m : Shared} {ps : ℕ → Loop} (inv : Inv m ps) (i : ℕ) where
  open inv use {one, two}

  loop_one :
      {p p' : Loop} {m' : Shared}
      → LoopMove m p m' p'
      → ps i ≡ p
      → (j : ℕ) → has_stopped (update ps i p' j) ≡ true
      → 1 ≤ m'.done_closes
  loop_one read e j p = ground (arith, one j)
  loop_one mv e j p = ground (arith, one j)

  loop_two :
      {p p' : Loop} {m' : Shared}
      → LoopMove m p m' p'
      → ps i ≡ p
      → (j k : ℕ) → j ≢ k
      → has_stopped (update ps i p' j) ≡ true
      → has_stopped (update ps i p' k) ≡ true
      → 2 ≤ m'.done_closes
  loop_two read e j k ne p q = ground (arith, one j, one k, two j k ne)
  loop_two mv e j k ne p q = ground (arith, one j, one k, two j k ne)

Step-Inv : {s t : System} → Step s t → Inv s.mem s.loops → Inv t.mem t.loops
Step-Inv (close_step i mv) inv = same_done (Move-done mv) inv
Step-Inv (listen_step i mv) inv = same_done (ListenMove-done mv) inv
Step-Inv (loop_step i mv) inv = record {
  one = loop_one inv i mv refl;
  two = loop_two inv i mv refl;
}
Step-Inv (spawn i e) inv = record {
  one = λ j p. ground (arith, inv.one j);
  two = λ j k ne p q. ground (arith, inv.two j k ne);
}
Step-Inv (hand_over i r o e f) inv = record {
  one = λ j p. ground (arith, inv.one j);
  two = λ j k ne p q. ground (arith, inv.two j k ne);
}
Step-Inv (hang_up i o e f) inv = inv
Step-Inv receive_close inv = same_done refl inv

Reach-Inv : {s : System} → Reach s → Inv s.mem s.loops
Reach-Inv start = record { one = λ i p. cc; two = λ i j ne p q. cc }
Reach-Inv (later r st) = Step-Inv st (Reach-Inv r)

-- Where the read loops of two calls of Listen have ended, done has been closed twice.
pub done_closed_twice :
    {s : System}
    → Reach s
    → (i j : ℕ) → i ≢ j
    → has_stopped (s.loops i) ≡ true
    → has_stopped (s.loops j) ≡ true
    → 2 ≤ s.mem.done_closes
done_closed_twice r i j ne p q = (Reach-Inv r).two i j ne p q
