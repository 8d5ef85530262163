-- ===== src/Client/Session.antt =====
-- `Client` of fluent/client/client.go. The locks of the client make each call a step of its own.
-- The connection, `New` of the connection factory and `rand.Read` are outside: a connection is a state
-- `Conn` with its operations, and the other two are given by what they return. What the reader of
-- `Handshake` has buffered belongs to `Conn`. The message that `Send` is given is not kept behind it.
pub mod Phase
pub mod Checks
pub mod Complete
use fluent_forward_go.Common.{
  ℤ, is_zero, Bool, true, false, not, Option, none, some, Bytes, if◌then◌else◌, same, [], ◌∷◌,
}
use fluent_forward_go.Msgp.Errors.{Error, text, formatted}
use fluent_forward_go.Protocol.Handshake.{
  Helo, HeloOpts, Ping, Pong, new_ping, validate_pong_digest,
}

-- The operations of the code on a `net.Conn`, with the connection afterwards. `read_helo`, `read_pong`
-- and `read_ack` are `DecodeMsg` on it; `E` is a `ChunkEncoder`.
pub record Network (Conn E : Type 0) : Type 0 where
  pub close : Conn → Conn × Option Error
  pub set_read_deadline : ℤ → Conn → Conn × Option Error
  pub read_helo : Conn → Conn × (Helo × Option Error)
  pub read_pong : Conn → Conn × (Pong × Option Error)
  pub read_ack : Conn → Conn × (Bytes × Option Error)
  pub write_ping : Ping → Conn → Conn × Option Error
  pub write : Bytes → Conn → Conn × Option Error
  pub encode : E → Conn → Conn × Option Error
  pub chunk : E → E × (Bytes × Option Error)

pub record Session (Conn : Type 0) : Type 0 where
  pub connection : Conn
  pub transport_phase : Bool

-- `SharedKey` may be nil, which is not the empty key.
pub record Client (Conn : Type 0) : Type 0 where
  pub require_ack : Bool
  pub timeout : ℤ
  pub shared_key : Option Bytes
  pub hostname : Bytes
  pub session : Option (Session Conn)

-- How a call ends: with nil, with an error, or with a panic.
pub data Ended : Type 0 where
  ok panicked : Ended
  refused : Error → Ended

abbrev pub ended : Option Error → Ended
ended none = ok
ended (some e) = refused e

-- A nil slice, where bytes are expected.
abbrev pub bytes_of : Option Bytes → Bytes
bytes_of none = []
bytes_of (some bs) = bs

-- What `New` of the factory returned.
pub data Dialed (Conn : Type 0) : Type 0 where
  opened : Conn → Dialed Conn
  not_opened : Error → Dialed Conn

-- If there is no shared key, handshake mode is not required.
abbrev pub no_key : Option Bytes → Bool
no_key none = true
no_key (some k) = false

module _ {Conn : Type 0} where
  abbrev pub in_transport : Option (Session Conn) → Bool
  in_transport none = false
  in_transport (some s) = s.transport_phase

  unfoldable pub transport_phase : Client Conn → Bool
  transport_phase c = in_transport c.session

  abbrev pub put_session : Option (Session Conn) → Client Conn → Client Conn
  put_session s c = record c { session = s }

  unfoldable pub open_session : Dialed Conn → Client Conn → Client Conn × Ended
  open_session (not_opened e) c = (c, refused e)
  open_session (opened conn) c = (
    put_session (some (record { connection = conn; transport_phase = no_key c.shared_key })) c,
    ok,
  )

  abbrev pub connect_from : Dialed Conn → Client Conn → Option (Session Conn) → Client Conn × Ended
  connect_from d c none = open_session d c
  connect_from d c (some s) = (c, refused (text "a session is already active"))

  unfoldable pub connect : Dialed Conn → Client Conn → Client Conn × Ended
  unfolding open_session
  connect d c = connect_from d c c.session

  -- A step on the connection of the session, with the phase as it was.
  abbrev pub on_connection : Client Conn → Bool → Conn × Ended → Client Conn × Ended
  on_connection c phase (conn, e) =
      (put_session (some (record { connection = conn; transport_phase = phase })) c, e)

  abbrev pub unacknowledged : Conn × Option Error → Conn × Ended
  unacknowledged (conn, e) = (conn, ended e)

  abbrev pub when_transport :
      (Conn → Conn × Ended) → Client Conn → Option (Session Conn) → Client Conn × Ended
  when_transport f c none = (c, refused (text "no active session"))
  when_transport f c (some s) =
      if s.transport_phase
      then on_connection c s.transport_phase (f s.connection)
      else (c, refused (text "session handshake not completed"))

module _ {Conn E : Type 0} (net : Network Conn E) where
  abbrev pub close_error : Option (Session Conn) → Option Error
  close_error none = none
  close_error (some s) = (net.close s.connection).1

  unfoldable pub disconnect : Client Conn → Client Conn × Ended
  disconnect c = (put_session none c, ended (close_error c.session))

  -- The error of closing is dropped.
  unfoldable pub reconnect : Dialed Conn → Client Conn → Client Conn × Ended
  unfolding disconnect open_session
  reconnect d c = open_session d (disconnect c).0

  -- `checkAck`, behind the deadline.
  abbrev pub check_chunk : Bytes → Conn × (Bytes × Option Error) → Conn × Ended
  check_chunk chunk (conn, (ack, some e)) = (conn, refused e)
  check_chunk chunk (conn, (ack, none)) = (
    conn,
    if same ack chunk
        then ok
        else refused (formatted "Expected chunk %s, but got %s" (chunk ∷ ack ∷ [])),
  )

  abbrev pub read_ack_of : Bytes → Conn × Option Error → Conn × Ended
  read_ack_of chunk (conn, some e) = (conn, refused e)
  read_ack_of chunk (conn, none) = check_chunk chunk (net.read_ack conn)

  -- No deadline is set for a timeout of 0.
  abbrev pub deadline : ℤ → Conn → Conn × Option Error
  deadline timeout conn =
      if is_zero timeout then (conn, none) else net.set_read_deadline timeout conn

  abbrev pub check_ack : ℤ → Bytes → Conn → Conn × Ended
  check_ack timeout chunk conn = read_ack_of chunk (deadline timeout conn)

  abbrev pub acknowledged : ℤ → Bytes → Conn × Option Error → Conn × Ended
  acknowledged timeout chunk (conn, some e) = (conn, refused e)
  acknowledged timeout chunk (conn, none) = check_ack timeout chunk conn

  -- With an ack required, the chunk comes first.
  abbrev pub send_chunk : ℤ → E × (Bytes × Option Error) → Conn → Conn × Ended
  send_chunk timeout (e, (chunk, some err)) conn = (conn, refused err)
  send_chunk timeout (e, (chunk, none)) conn = acknowledged timeout chunk (net.encode e conn)

  abbrev pub send_on : Bool → ℤ → E → Conn → Conn × Ended
  send_on true timeout e conn = send_chunk timeout (net.chunk e) conn
  send_on false timeout e conn = unacknowledged (net.encode e conn)

  unfoldable pub send : E → Client Conn → Client Conn × Ended
  send e c = when_transport (send_on c.require_ack c.timeout e) c c.session

  unfoldable pub send_raw : Bytes → Client Conn → Client Conn × Ended
  send_raw m c = when_transport (λ conn. unacknowledged (net.write m conn)) c c.session

  module _ (sha512 : Bytes → Bytes) where
    -- `Handshake`: each step either ends the call in the phase that the session has, or goes on.
    abbrev pub pong_checked : Client Conn → Bool → Conn → Option Error → Client Conn × Ended
    pong_checked c phase conn (some e) = on_connection c phase (conn, refused e)
    pong_checked c phase conn none = on_connection c true (conn, ok)

    abbrev pub pong_read :
        Client Conn → Bool → Bytes → Bytes → Conn × (Pong × Option Error) → Client Conn × Ended
    pong_read c phase nonce salt (conn, (pong, some e)) = on_connection c phase (conn, refused e)
    pong_read c phase nonce salt (conn, (pong, none)) =
        pong_checked c phase conn
          (validate_pong_digest sha512 pong (bytes_of c.shared_key) nonce salt)

    abbrev pub ping_written :
        Client Conn → Bool → Bytes → Bytes → Conn × Option Error → Client Conn × Ended
    ping_written c phase nonce salt (conn, some e) = on_connection c phase (conn, refused e)
    ping_written c phase nonce salt (conn, none) = pong_read c phase nonce salt (net.read_pong conn)

    abbrev pub ping_made :
        Client Conn → Bool → Bytes → Bytes → Conn → Ping × Option Error → Client Conn × Ended
    ping_made c phase nonce salt conn (ping, some e) = on_connection c phase (conn, refused e)
    ping_made c phase nonce salt conn (ping, none) =
        ping_written c phase nonce salt (net.write_ping ping conn)

    -- `helo.Options.Nonce` of a nil pointer panics.
    abbrev pub helo_options :
        Client Conn → Bool → Bytes → Conn → Option HeloOpts → Client Conn × Ended
    helo_options c phase salt conn none = on_connection c phase (conn, panicked)
    helo_options c phase salt conn (some opts) =
        ping_made c phase opts.nonce salt conn
          (new_ping sha512 c.hostname (bytes_of c.shared_key) salt opts.nonce)

    -- `rand` is the salt and what `rand.Read` returned.
    abbrev pub salted :
        Client Conn → Bool → Conn → Helo → Bytes × Option Error → Client Conn × Ended
    salted c phase conn helo (salt, some e) = on_connection c phase (conn, refused e)
    salted c phase conn helo (salt, none) = helo_options c phase salt conn helo.options

    abbrev pub helo_read :
        Client Conn
        → Bool
        → Bytes × Option Error
        → Conn × (Helo × Option Error)
        → Client Conn × Ended
    helo_read c phase rand (conn, (helo, some e)) = on_connection c phase (conn, refused e)
    helo_read c phase rand (conn, (helo, none)) = salted c phase conn helo rand

    abbrev pub handshake_from :
        Client Conn → Bytes × Option Error → Option (Session Conn) → Client Conn × Ended
    handshake_from c rand none = (c, refused (text "not connected"))
    handshake_from c rand (some s) = helo_read c s.transport_phase rand (net.read_helo s.connection)

    unfoldable pub handshake : Bytes × Option Error → Client Conn → Client Conn × Ended
    handshake rand c = handshake_from c rand c.session
