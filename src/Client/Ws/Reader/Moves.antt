-- ===== src/Client/Ws/Reader/Moves.antt =====
-- Every step of a call of `Listen`, or of its read loop, keeps `Inv`.
use native.Mathlib.Decide.{ℕ_discrete}
use fluent_forward_go.Common.{
  update, ℕ, ◌≡◌, refl, true, false, Option, none, some, arith, ◌⊎◌, inl, inr,
}
use fluent_forward_go.Msgp.Errors.{Error}
use fluent_forward_go.Client.Ws.Closer.{Shared}
use fluent_forward_go.Client.Ws.Listener.{
  Loop, LoopMove, Listener, ListenMove, read, call, mark, lock, test_free, starting, ranging,
  reading, sending, handling, after_send, Reading,
}
use fluent_forward_go.Client.Ws.Reader.Defs.{
  has_lock, is_marking, is_early, is_owner, is_unborn, Inv,
}

-- The premise of a move that the invariant needs, for the catch-all clauses below.
abbrev Guard : {i : ℕ} {m m' : Shared} {p p' : Listener} → ListenMove i m p m' p' → Type 0
Guard {m} (lock _) = m.listen_lock ≡ none
Guard {m} (test_free _) = m.conn_state.listening ≡ false
Guard _ = Unit

guard : {i : ℕ} {m m' : Shared} {p p' : Listener} (mv : ListenMove i m p m' p') → Guard mv
guard (lock g) = g
guard (test_free g) = g
guard _ = tt

module _ {m : Shared} {ls : ℕ → Listener} {ps : ℕ → Loop} (inv : Inv m ls ps) (i : ℕ) where
  open inv use {locked, free, early, marked, unique}

  listen_locked :
      {p p' : Listener} {m' : Shared}
      → ListenMove i m p m' p'
      → ls i ≡ p
      → (j : ℕ) → has_lock (update ls i p' j) ≡ true
      → m'.listen_lock ≡ some j
  listen_locked call e j q = ground (arith, locked i, locked j)
  listen_locked mv e j q = ground (arith, guard mv, locked i, locked j)

  listen_free :
      {p p' : Listener} {m' : Shared}
      → ListenMove i m p m' p'
      → ls i ≡ p
      → (j : ℕ) → is_marking (update ls i p' j) ≡ true
      → m'.conn_state.listening ≡ false
  listen_free call e j q = ground (arith, free j)
  listen_free mv e j q = ground (arith, guard mv, free j, locked i, locked j)

  listen_early :
      {p p' : Listener} {m' : Shared}
      → ListenMove i m p m' p'
      → ls i ≡ p
      → (j : ℕ) → is_early (update ls i p' j) ≡ true
      → is_unborn (ps j) ≡ true
  listen_early call e j q = ground (arith, early j)
  listen_early mv e j q = ground (arith, early j)

  listen_marked :
      {p p' : Listener} {m' : Shared}
      → ListenMove i m p m' p'
      → ls i ≡ p
      → (j : ℕ) → is_owner (update ls i p' j) (ps j) ≡ true
      → m'.conn_state.listening ≡ true
  listen_marked call e j q = ground (arith, early j, marked j)
  listen_marked mv e j q = ground (arith, early j, marked j)

  -- Only the call that finds the flag free becomes the owner.
  listen_owner :
      {p p' : Listener} {m' : Shared}
      → ListenMove i m p m' p'
      → ls i ≡ p
      → (j : ℕ) → is_owner (update ls i p' j) (ps j) ≡ true
      → (is_owner (ls j) (ps j) ≡ true) ⊎ (i ≡ j) × (m.conn_state.listening ≡ false)
  listen_owner call e j q = inl (ground arith)
  listen_owner mark e j q = elim (ℕ_discrete i j) [
    | yes same ↦ inr (same, free i (ground arith))
    | no other ↦ inl (ground arith)
  ]
  listen_owner mv e j q = inl (ground (arith, early i))

  listen_unique :
      {p p' : Listener} {m' : Shared}
      → ListenMove i m p m' p'
      → ls i ≡ p
      → (a b : ℕ) → is_owner (update ls i p' a) (ps a) ≡ true
      → is_owner (update ls i p' b) (ps b) ≡ true
      → a ≡ b
  listen_unique mv e a b q r =
      ground (arith, listen_owner mv e a q, listen_owner mv e b r, marked a, marked b, unique a b)

  pub listen-Inv :
      {m' : Shared} {p' : Listener} → ListenMove i m (ls i) m' p' → Inv m' (update ls i p') ps
  listen-Inv mv = record {
    locked = listen_locked mv refl;
    free = listen_free mv refl;
    early = listen_early mv refl;
    marked = listen_marked mv refl;
    unique = listen_unique mv refl;
  }

  loop_fields : {p p' : Loop} {m' : Shared} → LoopMove m p m' p' → ps i ≡ p → (j : ℕ) → record {
    locked : has_lock (ls j) ≡ true → m'.listen_lock ≡ some j;
    free : is_marking (ls j) ≡ true → m'.conn_state.listening ≡ false;
    early : is_early (ls j) ≡ true → is_unborn (update ps i p' j) ≡ true;
    marked : is_owner (ls j) (update ps i p' j) ≡ true → m'.conn_state.listening ≡ true;
  }
  loop_fields read e j = ground (arith, locked j, free j, early j, marked i, marked j)
  loop_fields mv e j =
      ground (arith, locked j, free j, early i, early j, marked i, marked j, unique i j)

  loop_owner :
      {p p' : Loop} {m' : Shared}
      → LoopMove m p m' p'
      → ps i ≡ p
      → (j : ℕ) → is_owner (ls j) (update ps i p' j) ≡ true
      → is_owner (ls j) (ps j) ≡ true
  loop_owner read e j q = ground arith
  loop_owner mv e j q = ground arith

  pub loop-Inv : {m' : Shared} {p' : Loop} → LoopMove m (ps i) m' p' → Inv m' ls (update ps i p')
  loop-Inv mv = record {
    locked = λ j. (loop_fields mv refl j).locked;
    free = λ j. (loop_fields mv refl j).free;
    early = λ j. (loop_fields mv refl j).early;
    marked = λ j. (loop_fields mv refl j).marked;
    unique = λ a b q r. unique a b (loop_owner mv refl a q) (loop_owner mv refl b r);
  }

  pub spawn-Inv :
      ls i ≡ starting
      → Inv (record m { listen_lock = none }) (update ls i (ranging none)) (update ps i reading)
  spawn-Inv e = record {
    locked = λ j q. ground (arith, locked i, locked j);
    free = λ j q. ground (arith, free j);
    early = λ j q. ground (arith, early j);
    marked = λ j q. ground (arith, marked i, marked j);
    unique = λ a b q r. ground (arith, unique a b);
  }

  pub hand-Inv :
      (r : Reading) (o : Option Error)
      → ps i ≡ sending r
      → ls i ≡ ranging o
      → Inv m (update ls i (handling o)) (update ps i (after_send r))
  hand-Inv r o e f = record {
    locked = λ j q. ground (arith, locked j);
    free = λ j q. ground (arith, free j);
    early = λ j q. ground (arith, early j);
    marked = λ j q. ground (arith, marked i, marked j);
    unique = λ a b q r. ground (arith, unique a b);
  }

  pub hang-Inv :
      (o : Option Error) → ls i ≡ ranging o → Inv m (update ls i (Listener.returned o)) ps
  hang-Inv o f = record {
    locked = λ j q. ground (arith, locked j);
    free = λ j q. ground (arith, free j);
    early = λ j q. ground (arith, early j);
    marked = λ j q. ground (arith, marked j);
    unique = λ a b q r. ground (arith, unique a b);
  }
