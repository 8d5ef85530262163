-- ===== src/Client/Ws/Invariant/Moves.antt =====
-- A step of a call of `CloseWithMsg` keeps each field of `Inv`.
use fluent_forward_go.Common.{
  update, refl, ℕ, ◌≡◌, ◌≤◌, ◌<◌, ◌⊎◌, Bool, true, false, Option, none, some, arith, inl, inr,
}
use fluent_forward_go.Client.Ws.Closer.{
  Shared, Closer, uncalled, Move, call, lock, test_closed, test_open, unset, close_ok, close_failed,
}
use fluent_forward_go.Client.Ws.Invariant.Defs.{has_lock, is_winner, Local, Inv}

-- The premise of a move that the invariant needs, for the catch-all clauses below.
abbrev Guard : {i : ℕ} {m m' : Shared} {p p' : Closer} → Move i m p m' p' → Type 0
Guard {m} (lock _) = m.close_lock ≡ none
Guard {m} (test_closed _) = m.conn_state.open_flag ≡ false
Guard {m} (test_open _) = m.conn_state.open_flag ≡ true
Guard _ = Unit

guard : {i : ℕ} {m m' : Shared} {p p' : Closer} (mv : Move i m p m' p') → Guard mv
guard (lock g) = g
guard (test_closed g) = g
guard (test_open g) = g
guard _ = tt

module _ {m : Shared} {pc : ℕ → Closer} (inv : Inv m pc) (i : ℕ) where
  open inv use {locked, holder, place, unique, untouched, pending, one_close, one_frame, final}

  Move-locked :
      {p p' : Closer} {m' : Shared}
      → Move i m p m' p'
      → pc i ≡ p
      → (j : ℕ) → has_lock (update pc i p' j) ≡ true
      → m'.close_lock ≡ some j
  Move-locked call e j q = ground (arith, locked i, locked j)
  Move-locked mv e j q = ground (arith, guard mv, locked i, locked j)

  Move-place :
      {p p' : Closer} {m' : Shared}
      → Move i m p m' p'
      → pc i ≡ p
      → (j : ℕ) → Local m' (update pc i p' j)
  Move-place call e j = ground (arith, place i, place j, locked i, locked j, unique i j)
  Move-place mv e j = ground (arith, guard mv, place i, place j, locked i, locked j, unique i j)

  Move-unique :
      {p p' : Closer} {m' : Shared}
      → Move i m p m' p'
      → pc i ≡ p
      → (a b : ℕ) → is_winner (update pc i p' a) ≡ true
      → is_winner (update pc i p' b) ≡ true
      → a ≡ b
  Move-unique call e a b qa qb = ground (arith, place i, place a, place b, unique a b)
  Move-unique mv e a b qa qb = ground (arith, guard mv, place i, place a, place b, unique a b)

  Move-holder :
      {p p' : Closer} {m' : Shared}
      → Move i m p m' p'
      → pc i ≡ p
      → (j : ℕ) → m'.close_lock ≡ some j
      → has_lock (update pc i p' j) ≡ true
  Move-holder call e j q = ground (arith, locked i, holder j)
  Move-holder mv e j q = ground (arith, guard mv, locked i, holder j)

  -- The call that clears the open flag is the one that is pending.
  Move-pending :
      {p p' : Closer} {m' : Shared}
      → Move i m p m' p'
      → pc i ≡ p
      → m'.conn_state.open_flag ≡ false
      → (m'.closes ≡ 1) ⊎ (j : ℕ) × (is_winner (update pc i p' j) ≡ true)
  Move-pending unset e q = inr (i, ground arith)
  Move-pending close_ok e q = inl (ground (arith, place i))
  Move-pending close_failed e q = inl (ground (arith, place i))
  Move-pending mv e q = elim (pending (ground arith)) [
    | inl done ↦ inl (ground (arith, place i))
    | inr (j, winner) ↦ inr (j, ground (arith, guard mv))
  ]

  Move-counts : {p p' : Closer} {m' : Shared} → Move i m p m' p' → pc i ≡ p → record {
    untouched : m'.conn_state.open_flag ≡ true → (m'.closes ≡ 0) × (m'.frames ≡ 0);
    one_close : m'.closes ≤ 1;
    one_frame : m'.frames ≤ 1;
    final : 0 < m'.closes → m'.conn_state.closed ≡ true;
  }
  Move-counts call e = ground arith
  Move-counts mv e = ground (arith, guard mv, place i)

  pub Move-Inv : {m' : Shared} {p' : Closer} → Move i m (pc i) m' p' → Inv m' (update pc i p')
  Move-Inv mv =
      let counts = Move-counts mv refl in
      record {
        locked = Move-locked mv refl;
        holder = Move-holder mv refl;
        place = Move-place mv refl;
        unique = Move-unique mv refl;
        untouched = counts.untouched;
        pending = Move-pending mv refl;
        one_close = counts.one_close;
        one_frame = counts.one_frame;
        final = counts.final;
      }

-- What only the calls of `CloseWithMsg` change.
abbrev pub own_part : Shared → Bool × Bool × Option ℕ × ℕ × ℕ
own_part m = (m.conn_state.open_flag, m.conn_state.closed, m.close_lock, m.frames, m.closes)

Local-of_same : (m m' : Shared) (p : Closer) → own_part m' ≡ own_part m → Local m p → Local m' p
Local-of_same m m' uncalled same h = tt
Local-of_same m m' p same h = ground arith

pub Inv-of_same :
    {m m' : Shared} {pc : ℕ → Closer} → own_part m' ≡ own_part m → Inv m pc → Inv m' pc
Inv-of_same {m} {m'} {pc} same inv = record {
  locked = λ i q. ground (arith, locked i);
  holder = λ i q. ground (arith, holder i);
  place = λ i. Local-of_same m m' (pc i) same (place i);
  unique = unique;
  untouched = ground arith;
  pending = λ q. elim (pending (ground arith)) [
    | inl done ↦ inl (ground arith)
    | inr winner ↦ inr winner
  ];
  one_close = ground arith;
  one_frame = ground arith;
  final = ground arith;
}
  where
    open inv use {locked, holder, place, unique, untouched, pending, one_close, one_frame, final}
