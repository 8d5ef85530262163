-- ===== src/Client/WsClient.antt =====
-- `WSClient` of fluent/client/ws_client.go. `sessionLock` makes each call but `Send` a step of its own;
-- `Send` reads the session twice. `ws.Connection` is an interface, and what `New` of the connection
-- factory and the deadlines of its connection return are given.
pub mod Calls
pub mod Sends
pub mod Listens
mod Runs
use fluent_forward_go.Common.{
  ℕ, Bool, true, false, not, Option, none, some, Bytes, if◌then◌else◌, [], ◌∷◌,
}
use fluent_forward_go.Client.Ws.New.{deadline_error}
use fluent_forward_go.Msgp.Errors.{Error, text}
use fluent_forward_go.Client.Session.{Ended, ok, panicked, refused, ended}

-- The operations of the code on a `ws.Connection`, with the connection afterwards, and `msgp.Encode`.
pub record Connection (Conn E : Type 0) : Type 0 where
  pub closed : Conn → Bool
  pub close : Conn → Conn × Option Error
  pub write : Bytes → Conn → Conn × Option Error
  pub encode : E → Bytes × Option Error

pub record WsClient (Conn : Type 0) : Type 0 where
  pub session : Option Conn
  pub err : Option Error

-- What `New` of the factory returned; with a connection, what its two deadlines return.
pub data Opening (Conn : Type 0) : Type 0 where
  not_opened : Error → Opening Conn
  opened : Conn → Option Error → Option Error → Opening Conn

pub data Made (Conn : Type 0) : Type 0 where
  made : Conn → Made Conn
  not_made : Error → Made Conn

module _ {Conn : Type 0} where
  abbrev pub made_unless : Conn → Option Error → Made Conn
  made_unless conn (some e) = not_made e
  made_unless conn none = made conn

  -- `NewConnection`, as far as it can fail.
  unfoldable pub new_connection : Conn → Option Error → Option Error → Made Conn
  new_connection conn r w = made_unless conn (deadline_error r w)

  abbrev pub set_err : Option Error → WsClient Conn → WsClient Conn
  set_err e c = record c { err = e }

  abbrev pub put_session : Option Conn → WsClient Conn → WsClient Conn
  put_session s c = record c { session = s }

  abbrev pub new_session : Made Conn → WsClient Conn → WsClient Conn × Option Error
  new_session (not_made e) c = (c, some e)
  new_session (made conn) c = (put_session (some conn) c, none)

  -- `connect`, without the lock.
  unfoldable pub open_session : Opening Conn → WsClient Conn → WsClient Conn × Option Error
  unfolding new_connection
  open_session (not_opened e) c = (c, some e)
  open_session (opened conn r w) c = new_session (new_connection conn r w) c

  abbrev pub connect_from :
      Opening Conn → WsClient Conn → Option Conn → WsClient Conn × Option Error
  connect_from o c none = open_session o c
  connect_from o c (some conn) = (c, some (text "a session is already active"))

  unfoldable pub connect : Opening Conn → WsClient Conn → WsClient Conn × Option Error
  connect o c = connect_from o c c.session

  -- What the goroutine that `connect` starts does with the error of `Listen`.
  unfoldable pub listened : Option Error → WsClient Conn → WsClient Conn
  listened none c = c
  listened (some e) c = set_err (some e) c

module _ {Conn E : Type 0} (net : Connection Conn E) where
  abbrev pub close_open : Option Conn → Option Error
  close_open none = none
  close_open (some conn) = if net.closed conn then none else (net.close conn).1

  unfoldable pub disconnect : WsClient Conn → WsClient Conn × Option Error
  disconnect c = (put_session none c, close_open c.session)

  -- The connection that `Reconnect` leaves in the session until `connect` puts another one there.
  abbrev pub after_close : Option Conn → Option Conn
  after_close none = none
  after_close (some conn) = some (if net.closed conn then conn else (net.close conn).0)

  -- A failure clears the session, and either way `err` becomes the result.
  abbrev pub reconnected : WsClient Conn × Option Error → WsClient Conn × Option Error
  reconnected (c, some e) = (set_err (some e) (put_session none c), some e)
  reconnected (c, none) = (set_err none c, none)

  unfoldable pub reconnect : Opening Conn → WsClient Conn → WsClient Conn × Option Error
  unfolding open_session
  reconnect o c = reconnected (open_session o (put_session (after_close c.session) c))

  abbrev pub written : WsClient Conn → Conn × Option Error → WsClient Conn × Ended
  written c (conn, e) = (put_session (some conn) c, ended e)

  -- The copy of the session pointer that the checks are about, and where the message goes.
  abbrev pub when_active :
      Option Conn → WsClient Conn → (Conn → WsClient Conn × Ended) → WsClient Conn × Ended
  when_active none c go = (c, refused (text "no active session"))
  when_active (some conn) c go =
      if net.closed conn then (c, refused (text "no active session")) else go conn

  abbrev pub without_error :
      Option Error → WsClient Conn → WsClient Conn × Ended → WsClient Conn × Ended
  without_error (some e) c go = (c, refused e)
  without_error none c go = go

  -- `c.session.Connection.Write` of a nil pointer panics.
  abbrev pub write_session : Bytes → WsClient Conn → Option Conn → WsClient Conn × Ended
  write_session m c none = (c, panicked)
  write_session m c (some conn) = written c (net.write m conn)

  abbrev pub encoded : WsClient Conn → Bytes × Option Error → WsClient Conn × Ended
  encoded later (m, some e) = (later, refused e)
  encoded later (m, none) = write_session m later later.session

  -- `Send` up to the checks sees the client `c`, and behind the encoding it sees what other calls have
  -- made of it: `later c`.
  unfoldable pub send_while :
      (WsClient Conn → WsClient Conn) → E → WsClient Conn → WsClient Conn × Ended
  send_while later e c =
      without_error c.err c
        (when_active c.session c (λ (conn : Conn). encoded (later c) (net.encode e)))

  -- With no other call between.
  unfoldable pub send : E → WsClient Conn → WsClient Conn × Ended
  unfolding send_while
  send e c = send_while (λ (c : WsClient Conn). c) e c

  unfoldable pub send_raw : Bytes → WsClient Conn → WsClient Conn × Ended
  send_raw m c =
      without_error c.err c
        (when_active c.session c (λ (conn : Conn). written c (net.write m conn)))
