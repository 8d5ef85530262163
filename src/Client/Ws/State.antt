-- ===== src/Client/Ws/State.antt =====
-- `ConnState` of fluent/client/ws/connection.go: six flags in a `uint8`.
pub mod Bits
use fluent_forward_go.Common.{ℕ, ◌+◌, Bool, true, false, not, ◌==◌, if◌then◌else◌}
use Prim.Native.Nat.{bit_and, bit_or, bit_xor}

pub data Flag : Type 0 where
  is_open is_listening is_close_received is_close_sent is_closed is_error : Flag

-- `1 << iota`
abbrev pub bit_of : Flag → ℕ
bit_of is_open = 1
bit_of is_listening = 2
bit_of is_close_received = 4
bit_of is_close_sent = 8
bit_of is_closed = 16
bit_of is_error = 32

-- `hasConnState`, `setConnState` and `unsetConnState` on the number.
unfoldable pub has_conn_state : Flag → ℕ → Bool
has_conn_state cs state = not (bit_and state (bit_of cs) == 0)

unfoldable pub set_conn_state : Flag → ℕ → ℕ
set_conn_state cs state = bit_or state (bit_of cs)

unfoldable pub unset_conn_state : Flag → ℕ → ℕ
unset_conn_state cs state =
    if bit_and state (bit_of cs) == 0 then state else bit_xor state (bit_of cs)

-- The flags themselves.
pub record ConnState : Type 0 where
  pub open_flag : Bool
  pub listening : Bool
  pub close_received : Bool
  pub close_sent : Bool
  pub closed : Bool
  pub error : Bool

abbrev pub has_flag : Flag → ConnState → Bool
has_flag is_open s = s.open_flag
has_flag is_listening s = s.listening
has_flag is_close_received s = s.close_received
has_flag is_close_sent s = s.close_sent
has_flag is_closed s = s.closed
has_flag is_error s = s.error

abbrev pub put_flag : Bool → Flag → ConnState → ConnState
put_flag b is_open s = record s { open_flag = b }
put_flag b is_listening s = record s { listening = b }
put_flag b is_close_received s = record s { close_received = b }
put_flag b is_close_sent s = record s { close_sent = b }
put_flag b is_closed s = record s { closed = b }
put_flag b is_error s = record s { error = b }

abbrev weight : Bool → Flag → ℕ
weight b cs = if b then bit_of cs else 0

unfoldable pub number : ConnState → ℕ
number s =
    weight s.open_flag is_open
    + weight s.listening is_listening
    + weight s.close_received is_close_received
    + weight s.close_sent is_close_sent
    + weight s.closed is_closed
    + weight s.error is_error
