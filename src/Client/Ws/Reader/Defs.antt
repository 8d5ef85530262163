-- ===== src/Client/Ws/Reader/Defs.antt =====
-- What holds of the calls of `Listen` of fluent/client/ws/connection.go, and of their read loops,
-- between two steps.
use fluent_forward_go.Common.{ℕ, ◌≡◌, Bool, true, false, some}
use fluent_forward_go.Client.Ws.Listener.{
  Loop, unborn, stopping, stopped, Listener, testing, refusing, marking, starting, ranging,
  handling, returned,
}
use fluent_forward_go.Client.Ws.Closer.{Shared}

-- Between taking `listenLock` and giving it back.
abbrev pub has_lock : Listener → Bool
has_lock testing = true
has_lock refusing = true
has_lock marking = true
has_lock starting = true
has_lock _ = false

abbrev pub is_marking : Listener → Bool
is_marking marking = true
is_marking _ = false

-- A call that has not started its read loop.
abbrev pub is_early : Listener → Bool
is_early (ranging _) = false
is_early (handling _) = false
is_early (returned _) = false
is_early _ = true

-- A read loop that has not cleared the listening flag.
abbrev pub is_reader : Loop → Bool
is_reader unborn = false
is_reader stopping = false
is_reader stopped = false
is_reader _ = true

-- A call that has set the listening flag, until its read loop clears it.
abbrev pub is_owner : Listener → Loop → Bool
is_owner starting _ = true
is_owner _ p = is_reader p

abbrev pub is_unborn : Loop → Bool
is_unborn unborn = true
is_unborn _ = false

pub record Inv (m : Shared) (ls : ℕ → Listener) (ps : ℕ → Loop) : Type 0 where
  pub locked : (i : ℕ) → has_lock (ls i) ≡ true → m.listen_lock ≡ some i
  pub free : (i : ℕ) → is_marking (ls i) ≡ true → m.conn_state.listening ≡ false
  pub early : (i : ℕ) → is_early (ls i) ≡ true → is_unborn (ps i) ≡ true
  pub marked : (i : ℕ) → is_owner (ls i) (ps i) ≡ true → m.conn_state.listening ≡ true
  pub unique : (i j : ℕ) → is_owner (ls i) (ps i) ≡ true → is_owner (ls j) (ps j) ≡ true → i ≡ j
