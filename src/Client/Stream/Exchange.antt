-- ===== src/Client/Stream/Exchange.antt =====
-- A handshake and a message with its ack, byte by byte.
use fluent_forward_go.Common.{
  ℕ, ◌<◌, Bool, true, none, some, Bytes, ◌++◌, All, ◌≡◌, sym, ap, ◌∙◌, arith, ◌+◌, ◌-◌, length,
  take, drop, take-append-drop, append_assoc, ℤ,
}
use fluent_forward_go.Msgp.Put.{Put, Writes, Emits}
use fluent_forward_go.Msgp.Get.{Get, Takes}
use fluent_forward_go.Msgp.Format.{Wire, Reads, IsShort, IsFormat, IsWriter, IsReader}
use fluent_forward_go.Protocol.ChunkId.{Uuid}
use fluent_forward_go.Protocol.ChunkEncoder.{
  ChunkEncoder, encoder_chunk, encoder_encode_msg, encoder_wire, IsEncodable,
  encoder_encode_msg_lem,
}
use fluent_forward_go.Protocol.Handshake.{HeloOpts, Pong, new_helo, new_pong}
use fluent_forward_go.Protocol.Handshake.Wire.{
  helo_wire, ping_wire, pong_wire, IsHelo, IsPing, IsPong,
}
use fluent_forward_go.Protocol.Handshake.Write.{ping_encode_msg}
use fluent_forward_go.Protocol.Handshake.Write.Output.{ping_encode_msg_lem}
use fluent_forward_go.Protocol.Handshake.Read.{helo_decode_msg, pong_decode_msg}
use fluent_forward_go.Protocol.Handshake.Read.Input.{helo_decode_msg_lem}
use fluent_forward_go.Protocol.Handshake.Read.Exchange.{pong_decode_msg_lem}
use fluent_forward_go.Protocol.Ack.{AckMessage, ack_wire}
use fluent_forward_go.Protocol.Ack.Read.{ack_decode_msg, ack_decode_msg_lem}
use fluent_forward_go.Client.Session.{Session, Client, ok, put_session, handshake, send, deadline}
use fluent_forward_go.Client.Session.Complete.{
  sent_ping, handshake_completes, ack_result, send_completes,
}
use fluent_forward_go.Client.Stream.{
  Stream, no_helo, no_pong, no_ack, new_reader, read_ahead, decoded, decode, written, encoded,
  encode, stream_network, ack_of,
}

decode-Takes :
    {R : Type 0} (ahead : Stream → ℕ) (m : Get R (Unit {0})) (bs rest : Bytes) (r r' : R)
    (s : Stream)
    → Takes m bs r tt r'
    → s.buffered ++ s.incoming ≡ bs ++ rest
    → decode ahead m r s ≡ (read_ahead (ahead s) s rest, (r', none))
decode-Takes ahead m bs rest r r' s h e = ap (decoded ahead s) (ap (m r) e ∙ h rest)

encode-Emits :
    (server : Bytes → Bytes) (p : Put) (bs : Bytes) (s : Stream)
    → Emits p bs
    → encode server p s ≡ (written server s (s.outgoing ++ bs), none)
encode-Emits server p bs s h = ap (encoded server s) (h s.outgoing)

-- Reading ahead loses nothing as long as the reader is kept.
read_ahead-append :
    (n : ℕ) (s : Stream) (left more : Bytes)
    → (read_ahead n s left).buffered ++ ((read_ahead n s left).incoming ++ more) ≡ left ++ more
read_ahead-append n s left more =
    let k : ℕ = length left - length s.incoming + n in
    sym (append_assoc (take k left) (drop k left) more)
    ∙ ap (λ (bs : Bytes). bs ++ more) (take-append-drop k left)

module _ {Intf : Type 0} (ahead : Stream → ℕ) (server : Bytes → Bytes) where
  no_deadline :
      (rd : Reads Intf) (wr : Writes Intf) (uuid : Uuid) (timeout : ℤ) (s : Stream)
      → deadline (stream_network ahead server rd wr uuid) timeout s ≡ (s, none)
  unfolding stream_network
  no_deadline rd wr uuid timeout s = ground arith

  module _ (w : Wire Intf) (fmt : IsFormat w) (rd : Reads Intf) (rlaws : IsReader w rd)
      (wr : Writes Intf) (wlaws : IsWriter w wr) (uuid : Uuid) where
    -- On a connection of bytes, for a session whose server has the key of the client: where the
    -- bytes from the server are the HELO of NewHelo for some options and then, some of them perhaps
    -- before the PING of NewPing and the others once it is written, the PONG of NewPong for that
    -- PING and any others, with strings that fit the lengths of the format, Handshake returns nil
    -- with TransportPhase set. It has decoded just these two messages, however far its reader read
    -- ahead, and written just that PING; of the bytes behind the PONG, the first `n` are in its
    -- reader, which is dropped. SHA-512 is a parameter that gives bytes. The package of the codec
    -- obeys the laws of Msgp.Format.
    pub handshake-stream_network :
        (sha512 : Bytes → Bytes)
        → ((bs : Bytes) → All (λ (b : ℕ). b < 256) (sha512 bs))
        → (c : Client Stream) (s : Session Stream) (key salt : Bytes) (opts : HeloOpts)
          (pong : Pong) (auth_result : Bool) (reason hostname early rest : Bytes)
        → c.session ≡ some s
        → c.shared_key ≡ some key
        → new_pong sha512 auth_result reason hostname key
            (some (new_helo (some opts)))
            (some (sent_ping sha512 c key salt opts))
          ≡ (some pong, none)
        → s.connection.incoming ≡ helo_wire w (new_helo (some opts)) ++ early
        → early ++ server (s.connection.outgoing ++ ping_wire w (sent_ping sha512 c key salt opts))
          ≡ pong_wire w pong ++ rest
        → IsHelo (new_helo (some opts))
        → IsPing (sent_ping sha512 c key salt opts)
        → IsPong pong
        → (n : ℕ) × (handshake (stream_network ahead server rd wr uuid) sha512 (salt, none) c ≡ (
          put_session
              (some (record {
                connection = record {
                  buffered = take n rest;
                  incoming = drop n rest;
                  outgoing =
                      s.connection.outgoing ++ ping_wire w (sent_ping sha512 c key salt opts);
                };
                transport_phase = true;
              }))
              c,
          ok,
        ))
    unfolding stream_network
    handshake-stream_network sha512 sums c s key salt opts pong auth_result reason hostname early
          rest e k p i i' hh hi hp =
        let opened : Stream = new_reader s.connection in
        let asked : Stream = read_ahead (ahead opened) opened early in
        let out : Bytes = s.connection.outgoing ++ ping_wire w (sent_ping sha512 c key salt opts) in
        let told : Stream = written server asked out in
        (
          length rest - length told.incoming + ahead told,
          (handshake_completes (stream_network ahead server rd wr uuid) sha512 sums c s key salt
              opts asked told (read_ahead (ahead told) told rest) pong auth_result reason hostname e
              k
              (decode-Takes ahead (helo_decode_msg rd) (helo_wire w (new_helo (some opts))) early
                no_helo (new_helo (some opts)) opened
                (helo_decode_msg_lem w rd rlaws (new_helo (some opts)) no_helo hh) i)
              (encode-Emits server (ping_encode_msg wr (sent_ping sha512 c key salt opts)) _ asked
                (ping_encode_msg_lem w fmt wr wlaws (sent_ping sha512 c key salt opts) hi))
              p
              (decode-Takes ahead (pong_decode_msg rd) (pong_wire w pong) rest no_pong pong told
                (pong_decode_msg_lem w rd rlaws pong no_pong hp)
                (read_ahead-append (ahead opened) opened early (server out) ∙ i'))).1,
        )

    -- Send writes the message and decodes one ack, whatever its chunk.
    pub send-stream_network :
        (e sent : ChunkEncoder Intf) (chunk : Bytes) (answer : AckMessage) (rest : Bytes)
        (c : Client Stream) (s : Session Stream)
        → encoder_chunk rd uuid e ≡ (sent, (chunk, none))
        → IsEncodable w sent
        → IsShort answer.ack
        → c.require_ack ≡ true
        → c.session ≡ some s
        → s.transport_phase ≡ true
        → s.connection.incoming ++ server (s.connection.outgoing ++ encoder_wire w sent)
          ≡ ack_wire w answer ++ rest
        → (n : ℕ) × (send (stream_network ahead server rd wr uuid) e c ≡ (
          put_session
              (some (record {
                connection = record {
                  buffered = take n rest;
                  incoming = drop n rest;
                  outgoing = s.connection.outgoing ++ encoder_wire w sent;
                };
                transport_phase = true;
              }))
              c,
          ack_result chunk answer.ack,
        ))
    unfolding stream_network
    send-stream_network e sent chunk answer rest c s m k short a h t i =
        let told : Stream =
          written server s.connection (s.connection.outgoing ++ encoder_wire w sent) in
        let opened : Stream = new_reader told in
        (
          length rest - length opened.incoming + ahead opened,
          send_completes (stream_network ahead server rd wr uuid) e sent chunk answer.ack c s told
              told (read_ahead (ahead opened) opened rest) m a h t
              (encode-Emits server (encoder_encode_msg wr sent) (encoder_wire w sent) s.connection
                (encoder_encode_msg_lem w fmt wr wlaws sent k))
              (no_deadline rd wr uuid c.timeout told)
              (ap ack_of (
                decode-Takes ahead (ack_decode_msg rd) (ack_wire w answer) rest no_ack answer opened
                  (ack_decode_msg_lem w rd rlaws answer no_ack short) i)),
        )
