-- ===== src/Client/Session/Checks.antt =====
-- What a call of the client that returns nil has checked.
use fluent_forward_go.Common.{
  Bool, true, false, Option, none, some, Bytes, ◌≡◌, ◌↔◌, refl, same, same_iff, Bool-cases, inl,
  inr, ℤ,
}
use fluent_forward_go.Msgp.Errors.{Error, text}
use fluent_forward_go.Protocol.Handshake.{
  validate_pong_digest, new_ping, Helo, HeloOpts, Ping, Pong,
}
use fluent_forward_go.Client.Session.{
  Network, Session, Client, ok, panicked, refused, transport_phase, send, send_raw, handshake,
  in_transport, when_transport, check_chunk, read_ack_of, deadline, acknowledged, send_chunk,
  send_on, bytes_of, unacknowledged, pong_checked, pong_read, ping_written, ping_made, helo_options,
  salted, helo_read,
}

module _ {Conn E : Type 0} (net : Network Conn E) where
  -- The ack that is read is the chunk.
  abbrev pub ReadsAck : Bytes → Conn × Option Error → Type 0
  ReadsAck chunk r =
      (r.1 ≡ none) × ((net.read_ack r.0).1.1 ≡ none) × ((net.read_ack r.0).1.0 ≡ chunk)

  -- The message is written, and then its chunk comes back.
  abbrev pub ComesBack : ℤ → Bytes → Conn × Option Error → Type 0
  ComesBack timeout chunk r = (r.1 ≡ none) × ReadsAck chunk (deadline net timeout r.0)

  abbrev pub IsAcknowledged : ℤ → E × (Bytes × Option Error) → Conn → Type 0
  IsAcknowledged timeout r conn = (r.1.1 ≡ none) × ComesBack timeout r.1.0 (net.encode r.0 conn)

  check_chunk_iff :
      (chunk : Bytes) (r : Conn × (Bytes × Option Error))
      → ((check_chunk net chunk r).1 ≡ ok) ↔ ((r.1.1 ≡ none) × (r.1.0 ≡ chunk))
  check_chunk_iff chunk (conn, (ack, some x)) = (λ h. (cc, cc), λ h. let e = h.0 in cc)
  check_chunk_iff chunk (conn, (ack, none)) = elim (Bool-cases (same ack chunk)) [
    | inl q ↦ (λ _. (refl, (same_iff ack chunk).0 q), λ _. rw q refl)
    | inr q ↦ (λ h. let h' = rw q at h in (refl, cc), λ h. let t = (same_iff ack chunk).1 h.1 in cc)
  ]

  read_ack_of_iff :
      (chunk : Bytes) (r : Conn × Option Error)
      → ((read_ack_of net chunk r).1 ≡ ok) ↔ ReadsAck chunk r
  read_ack_of_iff chunk (conn, some x) = (λ h. (cc, cc, cc), λ h. let e = h.0 in cc)
  read_ack_of_iff chunk (conn, none) =
      let (f, g) = check_chunk_iff chunk (net.read_ack conn) in
      (λ h. (refl, (f h).0, (f h).1), λ h. g (h.1, h.2))

  acknowledged_iff :
      (timeout : ℤ) (chunk : Bytes) (r : Conn × Option Error)
      → ((acknowledged net timeout chunk r).1 ≡ ok) ↔ ComesBack timeout chunk r
  acknowledged_iff timeout chunk (conn, some x) = (λ h. (cc, (cc, cc, cc)), λ h. let e = h.0 in cc)
  acknowledged_iff timeout chunk (conn, none) =
      let (f, g) = read_ack_of_iff chunk (deadline net timeout conn) in
      (λ h. (refl, f h), λ h. g h.1)

  send_chunk_iff :
      (timeout : ℤ) (r : E × (Bytes × Option Error)) (conn : Conn)
      → ((send_chunk net timeout r conn).1 ≡ ok) ↔ IsAcknowledged timeout r conn
  send_chunk_iff timeout (e, (chunk, some x)) conn =
      (λ h. (cc, (cc, (cc, cc, cc))), λ h. let e = h.0 in cc)
  send_chunk_iff timeout (e, (chunk, none)) conn =
      let (f, g) = acknowledged_iff timeout chunk (net.encode e conn) in
      (λ h. (refl, f h), λ h. g h.1)

  -- In the transport phase and with an ack required, Send returns nil exactly where Chunk gave a
  -- chunk without an error, the message was encoded without an error, a deadline that the timeout
  -- asks for was set without an error, and the ack that is then read, without an error, is that
  -- chunk.
  pub send-IsAcknowledged :
      (e : E) (c : Client Conn) (s : Session Conn)
      → c.require_ack ≡ true
      → c.session ≡ some s
      → s.transport_phase ≡ true
      → ((send net e c).1 ≡ ok) ↔ IsAcknowledged c.timeout (net.chunk e) s.connection
  unfolding send
  send-IsAcknowledged e c s a h t =
      rw (h, t, a) (send_chunk_iff c.timeout (net.chunk e) s.connection)

  -- Where TransportPhase is false, with a session or without one, Send and SendRaw return the same
  -- error and leave the client and its connection as they are.
  pub send_not_in_transport :
      (e : E) (m : Bytes) (c : Client Conn)
      → transport_phase c ≡ false
      → (x : Error) × (send net e c ≡ (c, refused x)) × (send_raw net m c ≡ (c, refused x))
  unfolding send send_raw transport_phase
  send_not_in_transport e m c h = refused_by c.session h
    where
      refused_by :
          (s : Option (Session Conn))
          → in_transport s ≡ false
          → (x : Error) × (when_transport (send_on net c.require_ack c.timeout e) c s
              ≡ (c, refused x))
            × (when_transport (λ conn. unacknowledged (net.write m conn)) c s ≡ (c, refused x))
      refused_by none k = (text "no active session", refl, refl)
      refused_by (some s) k = (text "session handshake not completed", rw k refl, rw k refl)

  module _ (sha512 : Bytes → Bytes) where
    -- The PONG that is read from `conn` has the digest for the client's key, the nonce and the salt.
    abbrev pub IsPongValid : Client Conn → Bytes → Bytes → Conn → Type 0
    IsPongValid c nonce salt conn =
        validate_pong_digest sha512 (net.read_pong conn).1.0 (bytes_of c.shared_key) nonce salt
        ≡ none

    -- The HELO has options, and the answer to the PING for their nonce is valid.
    abbrev pub IsAnswered : Client Conn → Bytes → Option HeloOpts → Conn → Type 0
    IsAnswered c salt o conn =
        (opts : HeloOpts) × (o ≡ some opts)
        × (let ping = new_ping sha512 c.hostname (bytes_of c.shared_key) salt opts.nonce in
            IsPongValid c opts.nonce salt (net.write_ping ping.0 conn).0)

    module _ (c : Client Conn) (phase : Bool) where
      pong_checked-ok :
          (conn : Conn) (o : Option Error)
          → (pong_checked net sha512 c phase conn o).1 ≡ ok
          → o ≡ none
      pong_checked-ok conn none h = refl
      pong_checked-ok conn (some x) h = cc

      pong_read-ok :
          (nonce salt : Bytes) (r : Conn × (Pong × Option Error))
          → (pong_read net sha512 c phase nonce salt r).1 ≡ ok
          → validate_pong_digest sha512 r.1.0 (bytes_of c.shared_key) nonce salt ≡ none
      pong_read-ok nonce salt (conn, (pong, none)) h = pong_checked-ok conn _ h
      pong_read-ok nonce salt (conn, (pong, some x)) h = cc

      ping_written-ok :
          (nonce salt : Bytes) (r : Conn × Option Error)
          → (ping_written net sha512 c phase nonce salt r).1 ≡ ok
          → IsPongValid c nonce salt r.0
      ping_written-ok nonce salt (conn, none) h = pong_read-ok nonce salt (net.read_pong conn) h
      ping_written-ok nonce salt (conn, some x) h = cc

      ping_made-ok :
          (nonce salt : Bytes) (conn : Conn) (r : Ping × Option Error)
          → (ping_made net sha512 c phase nonce salt conn r).1 ≡ ok
          → IsPongValid c nonce salt (net.write_ping r.0 conn).0
      ping_made-ok nonce salt conn (ping, none) h =
          ping_written-ok nonce salt (net.write_ping ping conn) h
      ping_made-ok nonce salt conn (ping, some x) h = cc

      helo_options-ok :
          (salt : Bytes) (conn : Conn) (o : Option HeloOpts)
          → (helo_options net sha512 c phase salt conn o).1 ≡ ok
          → IsAnswered c salt o conn
      helo_options-ok salt conn none h = absurd (panics h)
        where
          panics : panicked ≡ ok → ⊥
          panics k = cc
      helo_options-ok salt conn (some opts) h = (opts, refl, ping_made-ok opts.nonce salt conn _ h)

      salted-ok :
          (conn : Conn) (helo : Helo) (r : Bytes × Option Error)
          → (salted net sha512 c phase conn helo r).1 ≡ ok
          → IsAnswered c r.0 helo.options conn
      salted-ok conn helo (salt, none) h = helo_options-ok salt conn helo.options h
      salted-ok conn helo (salt, some x) h = absurd (refuses h)
        where
          refuses : refused x ≡ ok → ⊥
          refuses k = cc

      helo_read-ok :
          (rand : Bytes × Option Error) (r : Conn × (Helo × Option Error))
          → (helo_read net sha512 c phase rand r).1 ≡ ok
          → IsAnswered c rand.0 r.1.0.options r.0
      helo_read-ok rand (conn, (helo, none)) h = salted-ok conn helo rand h
      helo_read-ok rand (conn, (helo, some x)) h = absurd (refuses h)
        where
          refuses : refused x ≡ ok → ⊥
          refuses k = cc

    -- Where Handshake on a session returns nil, the HELO that was read has options, and the PONG
    -- that was read behind the PING passes ValidatePongDigest for the key of the client, the nonce
    -- of those options and the salt that was drawn.
    pub handshake-IsAnswered :
        (rand : Bytes × Option Error) (c : Client Conn) (s : Session Conn)
        → c.session ≡ some s
        → (handshake net sha512 rand c).1 ≡ ok
        → let (conn, (helo, err)) = net.read_helo s.connection in
          IsAnswered c rand.0 helo.options conn
    unfolding handshake
    handshake-IsAnswered rand c s e h =
        helo_read-ok c s.transport_phase rand (net.read_helo s.connection) (rw e at h)
