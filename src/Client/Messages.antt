-- ===== src/Client/Messages.antt =====
-- `SendMessage` to `SendCompressedFromBytes` of fluent/client/client.go.
mod Runs
use fluent_forward_go.Common.{Bytes, Option, none, some, false, ◌≡◌, refl, [], true, ◌↔◌}
use fluent_forward_go.Msgp.Put.{Writes}
use fluent_forward_go.Msgp.Errors.{Error, text}
use fluent_forward_go.Protocol.ChunkId.{Uuid}
use fluent_forward_go.Protocol.EventTime.{EventTime}
use fluent_forward_go.Protocol.Entries.{EntryList}
use fluent_forward_go.Protocol.Message.{
  Message, MessageExt, new_message, new_message_ext, message_chunk, message_ext_chunk,
}
use fluent_forward_go.Protocol.Forward.{ForwardMessage, new_forward_message, forward_chunk}
use fluent_forward_go.Protocol.PackedForward.{
  PackedForwardMessage, Built, new_packed_forward_message_from_bytes, new_packed_forward_message,
  packed_chunk,
}
use fluent_forward_go.Protocol.PackedForward.Compressed.{
  Gzip, new_compressed_from_bytes, new_compressed,
}
use fluent_forward_go.Protocol.ChunkEncoder.{
  ChunkEncoder, plain, extended, forward, packed, encoder_chunk,
}
use fluent_forward_go.Msgp.Format.{Reads}
use fluent_forward_go.Client.Session.{
  Network, Client, Ended, refused, transport_phase, send, panicked, when_transport, Session,
  in_transport, ok, send_raw,
}
use fluent_forward_go.Client.Session.Checks.{
  ComesBack, IsAcknowledged, send-IsAcknowledged, send_not_in_transport,
}

module _ {Intf : Type 0} where
  module _ {Conn W : Type 0} (net : Network Conn (ChunkEncoder Intf)) (wr : Writes Intf)
      (gz : Gzip W) where
    unfoldable pub send_message : EventTime → Bytes → Intf → Client Conn → Client Conn × Ended
    send_message now tag event c = send net (plain (new_message now tag event)) c

    unfoldable pub send_message_ext : EventTime → Bytes → Intf → Client Conn → Client Conn × Ended
    send_message_ext now tag event c = send net (extended (new_message_ext now tag event)) c

    unfoldable pub send_forward : Bytes → EntryList Intf → Client Conn → Client Conn × Ended
    send_forward tag entries c = send net (forward (new_forward_message tag entries)) c

    -- A message that could not be built is not sent; a nil one would be read behind the checks.
    abbrev pub send_built : Client Conn → Built → Client Conn × Ended
    send_built c (_, some e) = (c, refused e)
    send_built c (some msg, none) = send net (packed msg) c
    send_built c (none, none) = when_transport (λ (conn : Conn). (conn, panicked)) c c.session

    unfoldable pub send_packed : Bytes → EntryList Intf → Client Conn → Client Conn × Ended
    send_packed tag entries c = send_built c (new_packed_forward_message wr tag entries)

    unfoldable pub send_packed_from_bytes : Bytes → Bytes → Client Conn → Client Conn × Ended
    send_packed_from_bytes tag entries c =
        send net (packed (new_packed_forward_message_from_bytes tag entries)) c

    unfoldable pub send_compressed : Bytes → EntryList Intf → Client Conn → Client Conn × Ended
    send_compressed tag entries c = send_built c (new_compressed gz wr tag entries)

    unfoldable pub send_compressed_from_bytes : Bytes → Bytes → Client Conn → Client Conn × Ended
    send_compressed_from_bytes tag entries c =
        send_built c (new_compressed_from_bytes gz tag entries)

    abbrev pub Refuses : Client Conn → Client Conn × Ended → Type 0
    Refuses c r = (x : Error) × (r ≡ (c, refused x))

    send-Refuses :
        (e : ChunkEncoder Intf) (c : Client Conn)
        → transport_phase c ≡ false
        → Refuses c (send net e c)
    send-Refuses e c h = let (x, q, r) = send_not_in_transport net e [] c h in (x, q)

    send_built-Refuses :
        (c : Client Conn) (b : Built) → transport_phase c ≡ false → Refuses c (send_built c b)
    unfolding transport_phase
    send_built-Refuses c (m, some e) h = (e, refl)
    send_built-Refuses c (some msg, none) h = send-Refuses (packed msg) c h
    send_built-Refuses c (none, none) h = nil_refused c.session h
      where
        nil_refused :
            (s : Option (Session Conn))
            → in_transport s ≡ false
            → Refuses c (when_transport (λ conn. (conn, panicked)) c s)
        nil_refused none h = (text "no active session", refl)
        nil_refused (some s) h = (text "session handshake not completed", rw h refl)

    -- Where TransportPhase is false, with a session or without one, Send, SendRaw and the seven
    -- calls that make a message and send it return an error and leave the client and its connection
    -- as they are.
    pub sends_not_in_transport :
        (c : Client Conn) (out : ChunkEncoder Intf) (now : EventTime) (tag bits : Bytes)
        (event : Intf) (entries : EntryList Intf)
        → transport_phase c ≡ false
        → Refuses c (send net out c)
          × Refuses c (send_raw net bits c)
          × Refuses c (send_message now tag event c)
          × Refuses c (send_message_ext now tag event c)
          × Refuses c (send_forward tag entries c)
          × Refuses c (send_packed tag entries c)
          × Refuses c (send_packed_from_bytes tag bits c)
          × Refuses c (send_compressed tag entries c)
          × Refuses c (send_compressed_from_bytes tag bits c)
    unfolding send_message send_message_ext send_forward send_packed send_packed_from_bytes
        send_compressed send_compressed_from_bytes
    sends_not_in_transport c out now tag bits event entries h = (
      send-Refuses out c h,
      (let (x, q, r) = send_not_in_transport net out bits c h in (x, r)),
      send-Refuses _ c h,
      send-Refuses _ c h,
      send-Refuses _ c h,
      send_built-Refuses c _ h,
      send-Refuses _ c h,
      send_built-Refuses c _ h,
      send_built-Refuses c _ h,
    )

    -- In the transport phase and with an ack required, SendMessage returns nil exactly where the chunk of
    -- the message was made without an error and came back behind the message that holds it.
    pub send_message-IsAcknowledged :
        (rd : Reads Intf) (uuid : Uuid) (now : EventTime) (tag : Bytes) (event : Intf)
        (c : Client Conn) (s : Session Conn)
        → ((e : ChunkEncoder Intf) → net.chunk e ≡ encoder_chunk rd uuid e)
        → c.require_ack ≡ true
        → c.session ≡ some s
        → s.transport_phase ≡ true
        → let (sent, made) = message_chunk uuid (new_message now tag event) in
          ((send_message now tag event c).1 ≡ ok) ↔ (
            (made.1 ≡ none) × ComesBack net c.timeout made.0 (net.encode (plain sent) s.connection))
    unfolding send_message encoder_chunk
    send_message-IsAcknowledged rd uuid now tag event c s gen a h t =
        rw (gen (plain (new_message now tag event))) at
          (send-IsAcknowledged net (plain (new_message now tag event)) c s a h t)
