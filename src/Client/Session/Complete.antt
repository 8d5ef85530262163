-- ===== src/Client/Session/Complete.antt =====
-- `Handshake` of fluent/client/client.go with a server that has the same key and makes its messages as
-- fluent/protocol/handshake.go does.
use fluent_forward_go.Common.{
  if◌then◌else◌, same, [], ◌∷◌, same_iff, ℕ, ◌<◌, Bool, true, none, some, Bytes, All, ◌≡◌, refl,
  sym, ◌∙◌, subst,
}
use fluent_forward_go.Msgp.Errors.{formatted}
use fluent_forward_go.Protocol.Handshake.{
  HeloOpts, Ping, Pong, new_helo, new_ping, make_ping, new_pong, compute_hex_digest,
  validate_ping_digest, validate_pong_digest, hex, hashed,
}
use fluent_forward_go.Protocol.Handshake.Digest.{validate_pong_digest-new_pong}
use fluent_forward_go.Client.Session.{
  Network, Session, Client, ok, put_session, handshake, Ended, send, deadline, refused,
}

-- The PING that the client makes.
abbrev pub sent_ping :
    {Conn : Type 0} → (Bytes → Bytes) → Client Conn → Bytes → Bytes → HeloOpts → Ping
sent_ping sha512 c key salt opts = (new_ping sha512 c.hostname key salt opts.nonce).0

-- How Send ends where it reads an ack.
abbrev pub ack_result : Bytes → Bytes → Ended
ack_result chunk ack =
    if same ack chunk
    then ok
    else refused (formatted "Expected chunk %s, but got %s" (chunk ∷ ack ∷ []))

module _ {Conn E : Type 0} (net : Network Conn E) (sha512 : Bytes → Bytes)
    (bytes : (bs : Bytes) → All (λ (b : ℕ). b < 256) (sha512 bs)) where
  module _ (c : Client Conn) (s : Session Conn) (key salt : Bytes) (opts : HeloOpts)
      (conn conn' conn'' : Conn) (pong : Pong) where
    -- For a session whose server has the key of the client: where the server sends the HELO of
    -- NewHelo for some options, the PING of NewPing is written without an error, and the server
    -- answers it with the PONG of NewPong, ValidatePingDigest accepts the PING, and Handshake
    -- returns nil with TransportPhase set. SHA-512 is a parameter that gives bytes.
    pub handshake_completes :
        (auth_result : Bool) (reason hostname : Bytes)
        → c.session ≡ some s
        → c.shared_key ≡ some key
        → net.read_helo s.connection ≡ (conn, (new_helo (some opts), none))
        → net.write_ping (sent_ping sha512 c key salt opts) conn ≡ (conn', none)
        → new_pong sha512 auth_result reason hostname key
            (some (new_helo (some opts)))
            (some (sent_ping sha512 c key salt opts))
          ≡ (some pong, none)
        → net.read_pong conn' ≡ (conn'', (pong, none))
        → (validate_ping_digest sha512 (sent_ping sha512 c key salt opts) key opts.nonce ≡ none)
          × (handshake net sha512 (salt, none) c
              ≡ (put_session (some (record { connection = conn''; transport_phase = true })) c, ok))
    unfolding handshake new_helo new_ping make_ping compute_hex_digest validate_ping_digest
    handshake_completes auth_result reason hostname e k h w p r =
        (rw ((same_iff sum sum).1 refl) refl, rw (e, h, k, w, r, accepted) refl)
      where
        sum : Bytes
        sum = hex (sha512 (hashed salt c.hostname opts.nonce key))

        accepted : validate_pong_digest sha512 pong key opts.nonce salt ≡ none
        accepted =
            let (pong', made, same_keys) =
              validate_pong_digest-new_pong sha512 bytes auth_result reason hostname key key
                (new_helo (some opts)) opts (sent_ping sha512 c key salt opts) refl (λ h. refl) in
            let q : pong' ≡ pong = let t = sym made ∙ p in cc in
            subst (λ x. validate_pong_digest sha512 x key opts.nonce salt ≡ none) q
              (same_keys.1 refl)

module _ {Conn E : Type 0} (net : Network Conn E) where
  -- A message that is written, and an ack that is read, decide alone how Send ends.
  pub send_completes :
      (e sent : E) (chunk ack : Bytes) (c : Client Conn) (s : Session Conn)
      (conn conn' conn'' : Conn)
      → net.chunk e ≡ (sent, (chunk, none))
      → c.require_ack ≡ true
      → c.session ≡ some s
      → s.transport_phase ≡ true
      → net.encode sent s.connection ≡ (conn, none)
      → deadline net c.timeout conn ≡ (conn', none)
      → net.read_ack conn' ≡ (conn'', (ack, none))
      → send net e c ≡ (
        put_session (some (record { connection = conn''; transport_phase = true })) c,
        ack_result chunk ack,
      )
  unfolding send
  send_completes e sent chunk ack c s conn conn' conn'' k a h t w d r =
      rw (h, t, a, k, w, d, r) refl
