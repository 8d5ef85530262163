-- ===== src/Client/Ws/New.antt =====
-- `NewConnection` of fluent/client/ws/connection.go, its default handlers, and its short methods.
use fluent_forward_go.Common.{
  ℕ, Bool, true, false, not, Option, none, some, Bytes, ◌==◌, length, if◌then◌else◌,
}
use fluent_forward_go.Msgp.Errors.{Error}
use fluent_forward_go.Client.Session.{Ended, panicked}
use fluent_forward_go.Client.Ws.State.{is_close_received}
use fluent_forward_go.Client.Ws.Closer.{Shared, set_state}
use fluent_forward_go.Client.Ws.System.{fresh}

-- `H` is a handler of control messages, and `R` one of messages that are read.
pub record ConnectionOptions (H R : Type 0) : Type 0 where
  pub close_deadline : ℕ
  pub close_handler : Option H
  pub ping_handler : Option H
  pub pong_handler : Option H
  pub read_handler : Option R

-- What `NewConnection` sets on the network connection and keeps for itself. A ping or pong handler
-- that is absent leaves the one that the network connection has.
pub record Installed (H R : Type 0) : Type 0 where
  pub close_handler : H
  pub ping_handler : Option H
  pub pong_handler : Option H
  pub read_handler : R
  pub close_deadline : ℕ
  pub shared : Shared

-- `5 * time.Second`, in nanoseconds
abbrev pub default_close_deadline : ℕ
default_close_deadline = 5000000000

abbrev or_default : {A : Type 0} → A → Option A → A
or_default a none = a
or_default a (some b) = b

abbrev pub deadline_error : Option Error → Option Error → Option Error
deadline_error (some e) w = some e
deadline_error none w = w

module _ {H R : Type 0} where
  unfoldable pub install : H → R → ConnectionOptions H R → Installed H R
  install handle_close default_read opts = record {
    close_handler = or_default handle_close opts.close_handler;
    ping_handler = opts.ping_handler;
    pong_handler = opts.pong_handler;
    read_handler = or_default default_read opts.read_handler;
    close_deadline =
        if opts.close_deadline == 0 then default_close_deadline else opts.close_deadline;
    shared = fresh;
  }

  abbrev pub unless_failed : Installed H R → Option Error → Option (Installed H R) × Option Error
  unless_failed wsc none = (some wsc, none)
  unless_failed wsc (some e) = (none, some e)

  -- The errors are those of `SetReadDeadline` and `SetWriteDeadline`.
  unfoldable pub new_connection :
      H
      → R
      → Option Error
      → Option Error
      → ConnectionOptions H R
      → Option (Installed H R) × Option Error
  unfolding install
  new_connection handle_close default_read r w opts =
      unless_failed (install handle_close default_read opts) (deadline_error r w)

  abbrev pub set_read_handler : R → Installed H R → Installed H R
  set_read_handler rh wsc = record wsc { read_handler = rh }

-- `Closed`
abbrev pub not_open : Shared → Bool
not_open m = not m.conn_state.open_flag

-- `NextReader` and `ReadMessage` of the network connection are not to be called.
abbrev pub next_reader : Ended
next_reader = panicked

abbrev pub read_message : Ended
read_message = panicked

-- Whether the default read handler closes the connection, and what it returns.
unfoldable pub default_read_handler : Option Error → Bool × Option Error
default_read_handler none = (false, none)
default_read_handler (some e) = (true, some e)

unfoldable pub handle_close : Shared → Shared × Option Error
handle_close m = (set_state true is_close_received m, none)

-- `Write`, from what `WriteMessage` returns.
unfoldable pub write : Bytes → Option Error → ℕ × Option Error
write bits (some e) = (0, some e)
write bits none = (length bits, none)
