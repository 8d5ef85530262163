-- ===== src/Client/WsClient/Listens.antt =====
-- The goroutine that `connect` of fluent/client/ws_client.go starts: on which connection it listens.
use fluent_forward_go.Common.{Option, none, some, ◌≡◌, refl}
use fluent_forward_go.Client.WsClient.{
  Connection, WsClient, opened, reconnect, new_connection, open_session,
}

-- It returns at once, listens on a connection, or reads a nil pointer.
pub data Started (Conn : Type 0) : Type 0 where
  returned crashed : Started Conn
  listens : Conn → Started Conn

module _ {Conn : Type 0} where
  abbrev listen_on : Option Conn → Started Conn
  listen_on none = crashed
  listen_on (some conn) = listens conn

  abbrev listen_if : Option Conn → Option Conn → Started Conn
  listen_if none later = returned
  listen_if (some _) later = listen_on later

  -- It looks at the session twice, and other calls may come in between.
  unfoldable pub start_listening : WsClient Conn → WsClient Conn → Started Conn
  start_listening c later = listen_if c.session later.session

-- A `Reconnect` between the two looks makes the goroutine of the first connection listen on the second.
reconnect-start_listening :
    {Conn E : Type 0} (net : Connection Conn E) (c : WsClient Conn) (old conn : Conn)
    → c.session ≡ some old
    → start_listening c (reconnect net (opened conn none none) c).0 ≡ listens conn
unfolding start_listening reconnect new_connection open_session
reconnect-start_listening net c old conn e = rw e refl
