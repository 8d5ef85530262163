-- ===== src/Client/Session/Phase.antt =====
-- The phases of a session, over any sequence of calls.
use fluent_forward_go.Common.{
  Bool, true, false, Option, none, some, Bytes, List, [], ◌∷◌, ◌≡◌, refl, ap, ◌∙◌, Bool-cases, inl,
  inr,
}
use fluent_forward_go.Msgp.Errors.{Error}
use fluent_forward_go.Protocol.Handshake.{Helo, HeloOpts, Ping, Pong}
use fluent_forward_go.Client.Session.{
  Network, Session, Client, Ended, ok, refused, Dialed, opened, not_opened, transport_phase,
  connect, disconnect, reconnect, send, send_raw, handshake, open_session, connect_from,
  in_transport, when_transport, on_connection, pong_checked, pong_read, ping_written, ping_made,
  helo_options, salted, helo_read, handshake_from, send_on, unacknowledged,
}

-- A call of the client, with what the factory or `rand.Read` returns in it.
pub data Call (Conn E : Type 0) : Type 0 where
  connecting reconnecting : Dialed Conn → Call Conn E
  disconnecting : Call Conn E
  handshaking : Bytes × Option Error → Call Conn E
  sending : E → Call Conn E
  sending_raw : Bytes → Call Conn E

module _ {Conn E : Type 0} where
  -- Whether the server has proved that it knows the key, after a call that ended so.
  abbrev pub earned_step : Bool → Call Conn E → Ended → Bool
  earned_step b (connecting d) ok = false
  earned_step b (connecting d) _ = b
  earned_step b (reconnecting d) e = false
  earned_step b disconnecting e = false
  earned_step b (handshaking r) ok = true
  earned_step b (handshaking r) _ = b
  earned_step b (sending x) e = b
  earned_step b (sending_raw x) e = b

  unfoldable pub earned : Bool → List (Call Conn E × Ended) → Bool
  earned b [] = b
  earned b ((call, e) ∷ more) = earned (earned_step b call e) more

  module _ (net : Network Conn E) (sha512 : Bytes → Bytes) where
    unfoldable pub perform : Call Conn E → Client Conn → Client Conn × Ended
    perform (connecting d) c = connect d c
    perform (reconnecting d) c = reconnect net d c
    perform disconnecting c = disconnect net c
    perform (handshaking rand) c = handshake net sha512 rand c
    perform (sending e) c = send net e c
    perform (sending_raw m) c = send_raw net m c

    unfoldable pub run : List (Call Conn E) → Client Conn → Client Conn
    run [] c = c
    run (call ∷ calls) c = run calls (perform call c).0

    unfoldable pub history : List (Call Conn E) → Client Conn → List (Call Conn E × Ended)
    history [] c = []
    history (call ∷ calls) c = (call, (perform call c).1) ∷ history calls (perform call c).0

    -- A key stays a key, and the phase changes as `earned_step` says.
    abbrev Keeps : Call Conn E → Client Conn → Client Conn × Ended → Type 0
    Keeps call c r =
        (r.0.shared_key ≡ c.shared_key)
        × (in_transport r.0.session ≡ earned_step (in_transport c.session) call r.1)

    connect-Keeps :
        (d : Dialed Conn) (c : Client Conn) (k : Bytes)
        → c.shared_key ≡ some k
        → (s : Option (Session Conn)) → c.session ≡ s
        → Keeps (connecting d) c (connect_from d c s)
    unfolding open_session
    connect-Keeps (not_opened x) c k h none e = (refl, refl)
    connect-Keeps (opened conn) c k h none e = (refl, rw h refl)
    connect-Keeps d c k h (some s) e = (refl, refl)

    when_keeps :
        (f : Conn → Conn × Ended) (c : Client Conn) (s : Option (Session Conn))
        → c.session ≡ s
        → ((when_transport f c s).0.shared_key ≡ c.shared_key)
          × (in_transport (when_transport f c s).0.session ≡ in_transport c.session)
    when_keeps f c none e = (refl, refl)
    when_keeps f c (some s) e = elim (Bool-cases s.transport_phase) [
      | inl q ↦ rw (q, e, q) (refl, refl)
      | inr q ↦ rw q (refl, refl)
    ]

    module _ (c : Client Conn) (s : Session Conn) (e : c.session ≡ some s)
        (rand : Bytes × Option Error) where
      abbrev Stays : Client Conn × Ended → Type 0
      Stays r = Keeps (handshaking rand) c r

      ends_keeps :
          (conn : Conn) (x : Error) → Stays (on_connection c s.transport_phase (conn, refused x))
      ends_keeps conn x = (refl, rw e refl)

      pong_checked_keeps :
          (conn : Conn) (o : Option Error)
          → Stays (pong_checked net sha512 c s.transport_phase conn o)
      pong_checked_keeps conn none = (refl, refl)
      pong_checked_keeps conn (some x) = ends_keeps conn x

      pong_read_keeps :
          (nonce salt : Bytes) (r : Conn × (Pong × Option Error))
          → Stays (pong_read net sha512 c s.transport_phase nonce salt r)
      pong_read_keeps nonce salt (conn, (pong, none)) = pong_checked_keeps conn _
      pong_read_keeps nonce salt (conn, (pong, some x)) = ends_keeps conn x

      ping_written_keeps :
          (nonce salt : Bytes) (r : Conn × Option Error)
          → Stays (ping_written net sha512 c s.transport_phase nonce salt r)
      ping_written_keeps nonce salt (conn, none) = pong_read_keeps nonce salt (net.read_pong conn)
      ping_written_keeps nonce salt (conn, some x) = ends_keeps conn x

      ping_made_keeps :
          (nonce salt : Bytes) (conn : Conn) (r : Ping × Option Error)
          → Stays (ping_made net sha512 c s.transport_phase nonce salt conn r)
      ping_made_keeps nonce salt conn (ping, none) =
          ping_written_keeps nonce salt (net.write_ping ping conn)
      ping_made_keeps nonce salt conn (ping, some x) = ends_keeps conn x

      helo_options_keeps :
          (salt : Bytes) (conn : Conn) (o : Option HeloOpts)
          → Stays (helo_options net sha512 c s.transport_phase salt conn o)
      helo_options_keeps salt conn none = (refl, rw e refl)
      helo_options_keeps salt conn (some opts) = ping_made_keeps opts.nonce salt conn _

      salted_keeps :
          (conn : Conn) (helo : Helo) (r : Bytes × Option Error)
          → Stays (salted net sha512 c s.transport_phase conn helo r)
      salted_keeps conn helo (salt, none) = helo_options_keeps salt conn helo.options
      salted_keeps conn helo (salt, some x) = ends_keeps conn x

      helo_read_keeps :
          (r : Conn × (Helo × Option Error))
          → Stays (helo_read net sha512 c s.transport_phase rand r)
      helo_read_keeps (conn, (helo, none)) = salted_keeps conn helo rand
      helo_read_keeps (conn, (helo, some x)) = ends_keeps conn x

    handshake-Keeps :
        (rand : Bytes × Option Error) (c : Client Conn) (s : Option (Session Conn))
        → c.session ≡ s
        → Keeps (handshaking rand) c (handshake_from net sha512 c rand s)
    handshake-Keeps rand c none e = (refl, refl)
    handshake-Keeps rand c (some s) e = helo_read_keeps c s e rand (net.read_helo s.connection)

    reconnect-Keeps :
        (d : Dialed Conn) (c : Client Conn) (k : Bytes)
        → c.shared_key ≡ some k
        → Keeps (reconnecting d) c (reconnect net d c)
    unfolding reconnect open_session disconnect
    reconnect-Keeps (not_opened x) c k h = (refl, refl)
    reconnect-Keeps (opened conn) c k h = (refl, rw h refl)

    perform-Keeps :
        (call : Call Conn E) (c : Client Conn) (k : Bytes)
        → c.shared_key ≡ some k
        → Keeps call c (perform call c)
    unfolding perform connect disconnect send send_raw handshake
    perform-Keeps (connecting d) c k h = connect-Keeps d c k h c.session refl
    perform-Keeps (reconnecting d) c k h = reconnect-Keeps d c k h
    perform-Keeps disconnecting c k h = (refl, refl)
    perform-Keeps (handshaking rand) c k h = handshake-Keeps rand c c.session refl
    perform-Keeps (sending e) c k h =
        when_keeps (send_on net c.require_ack c.timeout e) c c.session refl
    perform-Keeps (sending_raw m) c k h =
        when_keeps (λ conn. unacknowledged (net.write m conn)) c c.session refl

    -- For a client with a shared key, after any sequence of Connect, Disconnect, Reconnect,
    -- Handshake, Send and SendRaw, with any results of the factory, of rand and of the connection,
    -- TransportPhase is true exactly where it was true and stayed so or a Handshake returned nil,
    -- with since then no Disconnect, no Reconnect and no Connect that returned nil.
    pub transport_phase-run :
        (calls : List (Call Conn E)) (c : Client Conn) (k : Bytes)
        → c.shared_key ≡ some k
        → transport_phase (run calls c) ≡ earned (transport_phase c) (history calls c)
    unfolding run history earned transport_phase
    transport_phase-run [] c k h = refl
    transport_phase-run (call ∷ calls) c k h =
        let (kept, phase) = perform-Keeps call c k h in
        transport_phase-run calls (perform call c).0 k (kept ∙ h)
        ∙ ap (λ b. earned b (history calls (perform call c).0)) phase
