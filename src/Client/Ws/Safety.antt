-- ===== src/Client/Ws/Safety.antt =====
-- What `CloseWithMsg` of fluent/client/ws/connection.go promises, however calls are interleaved.
use fluent_forward_go.Common.{Bool-cases, ℕ, ◌≡◌, ◌≤◌, ◌<◌, ◌⊎◌, true, false, arith, inl, inr}
use fluent_forward_go.Client.Ws.Closer.{Shared, Closer, Move}
use fluent_forward_go.Client.Ws.System.{System, Reach}
use fluent_forward_go.Client.Ws.Invariant.Defs.{is_winner, in_progress, has_returned, rank}
use fluent_forward_go.Client.Ws.Invariant.{Reach-Inv}

-- In every reachable state of any number of calls of CloseWithMsg and Listen on one connection, in
-- any order of their steps, the network connection has not been closed, or once and with the closed
-- flag set; the open flag is cleared, or neither a close message was written nor the connection
-- closed; at most one close message was written; and at most one call stands between clearing the
-- open flag and closing the connection.
pub closed_once :
    {s : System}
    → Reach s
    → ((s.mem.closes ≡ 0) ⊎ (s.mem.closes ≡ 1) × (s.mem.conn_state.closed ≡ true))
      × ((s.mem.conn_state.open_flag ≡ false) ⊎ (s.mem.closes ≡ 0) × (s.mem.frames ≡ 0))
      × (s.mem.frames ≤ 1)
      × ((i j : ℕ) → is_winner (s.closers i) ≡ true → is_winner (s.closers j) ≡ true → i ≡ j)
closed_once {s} r = (
  elim (nonzero_cases s.mem.closes) [
    | inl never ↦ inl never
    | inr once ↦ inr (omega (arith, one_close), final once)
  ],
  elim (Bool-cases s.mem.conn_state.open_flag) [
    | inl still ↦ inr (untouched still)
    | inr gone ↦ inl gone
  ],
  one_frame,
  unique,
)
  where
    open (Reach-Inv r) use {one_close, one_frame, final, untouched, unique}

    nonzero_cases : (n : ℕ) → (n ≡ 0) ⊎ (0 < n)
    nonzero_cases n = omega arith

-- In every reachable state where a call of CloseWithMsg has returned and none is in progress, the
-- network connection was closed exactly once.
pub closed_in_the_end :
    {s : System}
    → Reach s
    → (i : ℕ) → has_returned (s.closers i) ≡ true
    → ((j : ℕ) → in_progress (s.closers j) ≡ false)
    → s.mem.closes ≡ 1
closed_in_the_end {s} r i h quiet = elim (pending (ground (arith, place i))) [
  | inl done ↦ done
  | inr (j, winner) ↦ ground (arith, quiet j)
]
  where
    open (Reach-Inv r) use {pending, place}

-- What call `j` can do next: a step with which its rank falls.
pub record Progress (j : ℕ) (m : Shared) (p : Closer) : Type 0 where
  pub next_mem : Shared
  pub next : Closer
  pub move : Move j m p next_mem next
  pub falls : rank next < rank p
