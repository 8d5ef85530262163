-- ===== src/Client/Ws/Invariant/Defs.antt =====
-- What holds of the calls of `CloseWithMsg` of fluent/client/ws/connection.go between two steps.
use fluent_forward_go.Common.{ℕ, ◌≡◌, ◌≤◌, ◌<◌, ◌⊎◌, Bool, true, false, some}
use fluent_forward_go.Client.Ws.Closer.{
  Shared, Closer, uncalled, locking, testing, refusing, unsetting, unlocking, checking, marking,
  writing, asking, waiting, ending, closing, returned,
}

-- Between taking `closeLock` and giving it back.
abbrev pub has_lock : Closer → Bool
has_lock testing = true
has_lock refusing = true
has_lock unsetting = true
has_lock unlocking = true
has_lock _ = false

-- The call has cleared the open flag and has not closed the network connection yet.
abbrev pub is_winner : Closer → Bool
is_winner unlocking = true
is_winner checking = true
is_winner marking = true
is_winner writing = true
is_winner asking = true
is_winner waiting = true
is_winner (ending _) = true
is_winner (closing _) = true
is_winner _ = false

abbrev pub in_progress : Closer → Bool
in_progress uncalled = false
in_progress (returned _) = false
in_progress _ = true

abbrev pub has_returned : Closer → Bool
has_returned (returned _) = true
has_returned _ = false

-- The steps that a call has left at most.
abbrev pub rank : Closer → ℕ
rank uncalled = 12
rank locking = 11
rank testing = 10
rank refusing = 1
rank unsetting = 9
rank unlocking = 8
rank checking = 7
rank marking = 6
rank writing = 5
rank asking = 4
rank waiting = 3
rank (ending _) = 2
rank (closing _) = 1
rank (returned _) = 0

-- What the place of a call says about shared memory.
abbrev pub Local : Shared → Closer → Type 0
Local m uncalled = Unit
Local m locking = Unit
Local m testing = Unit
Local m refusing = m.conn_state.open_flag ≡ false
Local m unsetting = m.conn_state.open_flag ≡ true
Local m unlocking = (m.conn_state.open_flag ≡ false) × (m.closes ≡ 0) × (m.frames ≡ 0)
Local m checking = (m.conn_state.open_flag ≡ false) × (m.closes ≡ 0) × (m.frames ≡ 0)
Local m marking = (m.conn_state.open_flag ≡ false) × (m.closes ≡ 0) × (m.frames ≡ 0)
Local m writing = (m.conn_state.open_flag ≡ false) × (m.closes ≡ 0) × (m.frames ≡ 0)
Local m asking = (m.conn_state.open_flag ≡ false) × (m.closes ≡ 0)
Local m waiting = (m.conn_state.open_flag ≡ false) × (m.closes ≡ 0)
Local m (ending _) = (m.conn_state.open_flag ≡ false) × (m.closes ≡ 0)
Local m (closing _) =
    (m.conn_state.open_flag ≡ false) × (m.closes ≡ 0) × (m.conn_state.closed ≡ true)
Local m (returned _) = m.conn_state.open_flag ≡ false

pub record Inv (m : Shared) (pc : ℕ → Closer) : Type 0 where
  pub locked : (i : ℕ) → has_lock (pc i) ≡ true → m.close_lock ≡ some i
  pub holder : (i : ℕ) → m.close_lock ≡ some i → has_lock (pc i) ≡ true
  pub place : (i : ℕ) → Local m (pc i)
  pub unique : (i j : ℕ) → is_winner (pc i) ≡ true → is_winner (pc j) ≡ true → i ≡ j
  pub untouched : m.conn_state.open_flag ≡ true → (m.closes ≡ 0) × (m.frames ≡ 0)
  pub pending :
      m.conn_state.open_flag ≡ false → (m.closes ≡ 1) ⊎ (i : ℕ) × (is_winner (pc i) ≡ true)
  pub one_close : m.closes ≤ 1
  pub one_frame : m.frames ≤ 1
  pub final : 0 < m.closes → m.conn_state.closed ≡ true
