-- ===== src/Client/Stream/Order.antt =====
-- A run of messages on one connection, and the acks that the server sends.
use fluent_forward_go.Common.{
  true, none, some, Bytes, List, [], ◌∷◌, ◌++◌, append_assoc, append-nil, All, ◌≡◌, refl, ℕ, sym,
  ◌∙◌, take-nil, drop-nil,
}
use mathlib.Core.List.{map}
use fluent_forward_go.Msgp.Put.{Writes}
use fluent_forward_go.Msgp.Format.{Wire, Reads, IsShort, IsFormat, IsWriter, IsReader}
use fluent_forward_go.Protocol.ChunkId.{Uuid}
use fluent_forward_go.Protocol.ChunkEncoder.{ChunkEncoder, encoder_chunk, encoder_wire, IsEncodable}
use fluent_forward_go.Protocol.Ack.{AckMessage, ack_wire}
use fluent_forward_go.Client.Session.{Network, Client, Ended, put_session, send}
use fluent_forward_go.Client.Session.Complete.{ack_result}
use fluent_forward_go.Client.Stream.{Stream, stream_network}
use fluent_forward_go.Client.Stream.Exchange.{send-stream_network}

-- A message, what `Chunk` makes of it, and an ack that the server sends.
pub record Exchanged (Intf : Type 0) : Type 0 where
  pub event : ChunkEncoder Intf
  pub message : ChunkEncoder Intf
  pub id : Bytes
  pub answer : AckMessage

module _ {Conn E : Type 0} (net : Network Conn E) where
  -- Calls of `Send`, one after the other, each whatever the ones before it returned.
  unfoldable pub send_each : List E → Client Conn → Client Conn × List Ended
  send_each [] c = (c, [])
  send_each (e ∷ es) c =
      let (c', ended) = send net e c in let (c'', all) = send_each es c' in (c'', ended ∷ all)

abbrev pub ended_of : {Intf : Type 0} → Exchanged Intf → Ended
ended_of x = ack_result x.id x.answer.ack

module _ {Intf : Type 0} (w : Wire Intf) where
  unfoldable pub sent_bytes : List (Exchanged Intf) → Bytes
  sent_bytes [] = []
  sent_bytes (x ∷ xs) = encoder_wire w x.message ++ sent_bytes xs

  -- The server answers each message with its ack, and sends nothing else.
  unfoldable pub Answers : (server : Bytes → Bytes) → Bytes → List (Exchanged Intf) → Type 0
  Answers server out [] = Unit
  Answers server out (x ∷ xs) =
      let out' : Bytes = out ++ encoder_wire w x.message in
      (server out' ≡ ack_wire w x.answer) × Answers server out' xs

  module _ (rd : Reads Intf) (uuid : Uuid) where
    abbrev pub IsExchanged : Exchanged Intf → Type 0
    IsExchanged x =
        (encoder_chunk rd uuid x.event ≡ (x.message, (x.id, none)))
        × (IsEncodable w x.message × IsShort x.answer.ack)

abbrev pub streaming : {Conn : Type 0} → Conn → Client Conn → Client Conn
streaming conn c = put_session (some (record { connection = conn; transport_phase = true })) c

-- A connection with nothing to read.
abbrev pub answered : Bytes → Stream
answered out = record { buffered = []; incoming = []; outgoing = out }

module _ {Intf : Type 0} (ahead : Stream → ℕ) (server : Bytes → Bytes) (w : Wire Intf)
    (fmt : IsFormat w) (rd : Reads Intf) (rlaws : IsReader w rd) (wr : Writes Intf)
    (wlaws : IsWriter w wr) (uuid : Uuid) where
  send-answered :
      (x : Exchanged Intf) (out : Bytes) (c : Client Stream)
      → IsExchanged w rd uuid x
      → c.require_ack ≡ true
      → server (out ++ encoder_wire w x.message) ≡ ack_wire w x.answer
      → send (stream_network ahead server rd wr uuid) x.event (streaming (answered out) c)
        ≡ (streaming (answered (out ++ encoder_wire w x.message)) c, ended_of x)
  send-answered x out c (m, (k, short)) a h =
      let (n, sent) =
        send-stream_network ahead server w fmt rd rlaws wr wlaws uuid x.event x.message x.id
          x.answer [] (streaming (answered out) c)
          (record { connection = answered out; transport_phase = true }) m k short a refl refl
          (h ∙ sym (append-nil (ack_wire w x.answer))) in
      rw (take-nil n, drop-nil n) at sent

  -- On a connection of bytes in the transport phase with nothing to read, with acks required and a
  -- server that answers each message with an ack and sends nothing else: of messages that can be
  -- encoded and whose Chunk succeeds, sent one after the other, the n-th Send returns nil exactly
  -- where the n-th ack is its chunk, and else the error that names both, also after a Send that
  -- failed, however far the readers read ahead. All the messages are written, in their order, and
  -- one ack is read for each. The package of the codec obeys the laws of Msgp.Format.
  pub send_each-stream_network :
      (xs : List (Exchanged Intf)) (out : Bytes) (c : Client Stream)
      → All (IsExchanged w rd uuid) xs
      → c.require_ack ≡ true
      → Answers w server out xs
      → send_each
          (stream_network ahead server rd wr uuid)
          (map (λ x. x.event) xs)
          (streaming (answered out) c)
        ≡ (streaming (answered (out ++ sent_bytes w xs)) c, map ended_of xs)
  unfolding send_each sent_bytes Answers
  send_each-stream_network [] out c h a k = rw (append-nil out) refl
  send_each-stream_network (x ∷ xs) out c (h, hs) a (k, ks) =
      rw
        (
          send-answered x out c h a k,
          send_each-stream_network xs (out ++ encoder_wire w x.message) c hs a ks,
          append_assoc out (encoder_wire w x.message) (sent_bytes w xs),
        )
        refl
