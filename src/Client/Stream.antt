-- ===== src/Client/Stream.antt =====
-- The connection of fluent/client/client.go as two streams of bytes, with the codec of the messages:
-- what `msgp.Encode` and `msgp.Decode` do on it. A `msgp.Reader` is buffered: it can read ahead of the
-- message that it decodes, and what it has read ahead is lost where the code makes a new one.
pub mod Exchange
pub mod Order
mod Runs
use fluent_forward_go.Common.{
  ℕ, ◌+◌, ◌-◌, Bool, false, Option, none, some, Bytes, [], ◌++◌, length, take, drop,
}
use fluent_forward_go.Msgp.Errors.{Error}
use fluent_forward_go.Msgp.Put.{Put, Written, wrote, broke, Writes}
use fluent_forward_go.Msgp.Get.{Get, Outcome, done, failed}
use fluent_forward_go.Msgp.Format.{Reads}
use fluent_forward_go.Protocol.ChunkId.{Uuid}
use fluent_forward_go.Protocol.ChunkEncoder.{ChunkEncoder, encoder_chunk, encoder_encode_msg}
use fluent_forward_go.Protocol.Handshake.{Helo, Ping, Pong}
use fluent_forward_go.Protocol.Handshake.Write.{ping_encode_msg}
use fluent_forward_go.Protocol.Handshake.Read.{helo_decode_msg, pong_decode_msg}
use fluent_forward_go.Protocol.Ack.{AckMessage}
use fluent_forward_go.Protocol.Ack.Read.{ack_decode_msg}
use fluent_forward_go.Client.Session.{Network}

-- What the last reader has read and not decoded, what the server has sent and no reader has read, and
-- all that the client has written.
pub record Stream : Type 0 where
  pub buffered : Bytes
  pub incoming : Bytes
  pub outgoing : Bytes

-- The variables that are decoded into, as they are declared.
abbrev pub no_helo : Helo
no_helo = record { message_type = []; options = none }

abbrev pub no_pong : Pong
no_pong = record {
  message_type = [];
  auth_result = false;
  reason = [];
  server_hostname = [];
  shared_key_hex_digest = [];
}

abbrev pub no_ack : AckMessage
no_ack = record { ack = [] }

-- `msgp.NewReader` on the connection: a reader that has read nothing.
abbrev pub new_reader : Stream → Stream
new_reader s = record s { buffered = [] }

-- What is left behind a message: of it the reader has what it had before, and `ahead` bytes more.
abbrev pub read_ahead : (ahead : ℕ) → Stream → Bytes → Stream
read_ahead ahead s left =
    let n = length left - length s.incoming + ahead in
    record s { buffered = take n left; incoming = drop n left }

module _ {R : Type 0} (ahead : Stream → ℕ) where
  abbrev pub decoded : Stream → Outcome R (Unit {0}) → Stream × (R × Option Error)
  decoded s (done u r left) = (read_ahead (ahead s) s left, (r, none))
  decoded s (failed e r left) = (read_ahead (ahead s) s left, (r, some e))

  abbrev pub decode : Get R (Unit {0}) → R → Stream → Stream × (R × Option Error)
  decode m r s = decoded s (m r (s.buffered ++ s.incoming))

-- `server` is what the server sends behind all that was written, until the next write.
abbrev pub written : (server : Bytes → Bytes) → Stream → Bytes → Stream
written server s out = record s { incoming = s.incoming ++ server out; outgoing = out }

abbrev pub encoded : (server : Bytes → Bytes) → Stream → Written → Stream × Option Error
encoded server s (wrote out) = (written server s out, none)
encoded server s (broke e out) = (written server s out, some e)

abbrev pub encode : (server : Bytes → Bytes) → Put → Stream → Stream × Option Error
encode server p s = encoded server s (p s.outgoing)

abbrev pub ack_of : Stream × (AckMessage × Option Error) → Stream × (Bytes × Option Error)
ack_of (s, (m, e)) = (s, (m.ack, e))

-- How far a reader reads ahead, and what the server answers, is outside. The streams neither fail to
-- close nor to take a deadline; each ID drawn is `uuid`.
module _ {Intf : Type 0} (ahead : Stream → ℕ) (server : Bytes → Bytes) (rd : Reads Intf)
    (wr : Writes Intf) (uuid : Uuid) where
  unfoldable pub stream_network : Network Stream (ChunkEncoder Intf)
  stream_network = record {
    close = λ s. (s, none);
    set_read_deadline = λ t s. (s, none);
    read_helo = λ s. decode ahead (helo_decode_msg rd) no_helo (new_reader s);
    read_pong = decode ahead (pong_decode_msg rd) no_pong;
    read_ack = λ s. ack_of (decode ahead (ack_decode_msg rd) no_ack (new_reader s));
    write_ping = λ p. encode server (ping_encode_msg wr p);
    write = λ m. encode server (wr.write m);
    encode = λ e. encode server (encoder_encode_msg wr e);
    chunk = encoder_chunk rd uuid;
  }
