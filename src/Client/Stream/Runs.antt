-- ===== src/Client/Stream/Runs.antt =====
-- The theorems on byte streams, applied.
use fluent_forward_go.Common.{
  ◌%◌, ◌<◌, All, ℕ, Bool, true, false, none, some, Bytes, List, [], ◌∷◌, ◌++◌, ◌≡◌, refl, sym,
  append-nil, take, drop, codes, arith, same, pos,
}
use fluent_forward_go.Msgp.Errors.{formatted}
use fluent_forward_go.Msgp.Model.{wire, writes}
use fluent_forward_go.Msgp.Model.Laws.{reads, wire-IsFormat, writes-IsWriter, reads-IsReader}
use fluent_forward_go.Protocol.ChunkId.{chunk_of}
use fluent_forward_go.Protocol.PackedForward.{packed_chunk}
use fluent_forward_go.Protocol.ChunkEncoder.{ChunkEncoder, packed, encoder_chunk}
use fluent_forward_go.Protocol.Handshake.{HeloOpts, Pong, hex, hashed, new_helo, new_ping, new_pong}
use fluent_forward_go.Protocol.Handshake.Wire.{helo_wire, ping_wire, pong_wire}
use fluent_forward_go.Protocol.Ack.{ack_wire}
use fluent_forward_go.Client.Session.{Session, Client, ok, refused, put_session, handshake}
use fluent_forward_go.Client.Session.Complete.{sent_ping}
use fluent_forward_go.Client.Stream.{Stream, stream_network}
use fluent_forward_go.Client.Stream.Exchange.{handshake-stream_network}
use fluent_forward_go.Client.Stream.Order.{
  Exchanged, send_each, streaming, answered, sent_bytes, Answers, send_each-stream_network,
}

-- A sum of as many bytes as are hashed.
abbrev low : Bytes → Bytes
low [] = []
low (b ∷ bs) = (b % 256) ∷ low bs

low-AreBytes : (bs : Bytes) → All (λ (b : ℕ). b < 256) (low bs)
low-AreBytes [] = tt
low-AreBytes (b ∷ bs) = (omega arith, low-AreBytes bs)

abbrev opts : HeloOpts
opts = record { nonce = 9 ∷ []; auth = []; keepalive = true }

abbrev the_pong : Pong
the_pong = record {
  message_type = codes "PONG";
  auth_result = true;
  reason = [];
  server_hostname = codes "s";
  shared_key_hex_digest = hex (low (hashed (5 ∷ []) (codes "s") (9 ∷ []) (codes "key")));
}

-- The readers read a byte ahead. Behind the PING the server sends its PONG, and a byte behind it.
abbrev from_server : Bytes
from_server = helo_wire wire (new_helo (some opts))

abbrev one_ahead : Stream → ℕ
one_ahead s = 1

abbrev pong_server : Bytes → Bytes
pong_server out = pong_wire wire the_pong ++ (7 ∷ [])

abbrev session : Bool → Bytes → Session Stream
session phase bs = record {
  connection = record { buffered = 8 ∷ []; incoming = bs; outgoing = 1 ∷ [] };
  transport_phase = phase;
}

abbrev client : Bool → Bytes → Client Stream
client phase bs = record {
  require_ack = true;
  timeout = pos 3;
  shared_key = some (codes "key");
  hostname = codes "c";
  session = some (session phase bs);
}

handshake-stream_network_example :
    (n : ℕ) × (handshake
        (stream_network one_ahead pong_server reads writes ([], none))
        low
        (5 ∷ [], none)
        (client false from_server)
      ≡ (
        put_session
            (some (record {
              connection = record {
                buffered = take n (7 ∷ []);
                incoming = drop n (7 ∷ []);
                outgoing =
                    1
                    ∷ ping_wire wire
                        (sent_ping low (client false from_server) (codes "key") (5 ∷ []) opts);
              };
              transport_phase = true;
            }))
            (client false from_server),
        ok,
      ))
unfolding new_helo new_pong new_ping
handshake-stream_network_example =
    handshake-stream_network one_ahead pong_server wire wire-IsFormat reads reads-IsReader writes
      writes-IsWriter ([], none) low low-AreBytes (client false from_server)
      (session false from_server) (codes "key") (5 ∷ []) opts the_pong true [] (codes "s") []
      (7 ∷ []) refl refl refl (sym (append-nil from_server)) refl
      (record {
        type_short = omega arith;
        opts = record { nonce_short = omega arith; auth_short = omega arith };
      })
      (record {
        type_short = omega arith;
        hostname_short = omega arith;
        salt_short = omega arith;
        digest_short = omega arith;
        username_short = omega arith;
        password_short = omega arith;
      })
      (record {
        type_short = omega arith;
        reason_short = omega arith;
        hostname_short = omega arith;
        digest_short = omega arith;
      })

abbrev with_id : Bytes → ChunkEncoder ℕ
with_id id = packed (record {
  tag = codes "tag";
  event_stream = 1 ∷ 2 ∷ 3 ∷ [];
  options = some (record { size = none; chunk = id; compressed = [] });
})

abbrev asked : Bytes → Bytes → Exchanged ℕ
asked id answer = record {
  event = with_id id;
  message = with_id id;
  id = id;
  answer = record { ack = answer };
}

-- The server answers both messages with the ack of the first.
abbrev late : List (Exchanged ℕ)
late = asked (codes "a") (codes "a") ∷ asked (codes "b") (codes "a") ∷ []

abbrev ack_server : Bytes → Bytes
ack_server out = ack_wire wire (record { ack = codes "a" })

send_each-stream_network_example :
    send_each
      (stream_network one_ahead ack_server reads writes ([], none))
      (with_id (codes "a") ∷ with_id (codes "b") ∷ [])
      (streaming (answered []) (client true []))
    ≡ (
      streaming (answered ([] ++ sent_bytes wire late)) (client true []),
      ok ∷ refused (formatted "Expected chunk %s, but got %s" (codes "b" ∷ codes "a" ∷ [])) ∷ [],
    )
unfolding encoder_chunk packed_chunk chunk_of same Answers
send_each-stream_network_example =
    send_each-stream_network one_ahead ack_server wire wire-IsFormat reads reads-IsReader writes
      writes-IsWriter ([], none) late [] (client true [])
      (
        (
          refl,
          (
            record {
              tag_short = omega arith;
              stream_short = omega arith;
              tail = record {
                size_int = tt;
                chunk_short = omega arith;
                compressed_short = omega arith;
              };
            },
            omega arith,
          ),
        ),
        (
          (
            refl,
            (
              record {
                tag_short = omega arith;
                stream_short = omega arith;
                tail = record {
                  size_int = tt;
                  chunk_short = omega arith;
                  compressed_short = omega arith;
                };
              },
              omega arith,
            ),
          ),
          tt,
        ),
      )
      refl (refl, (refl, tt))
