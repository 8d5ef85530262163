-- ===== src/Client/Messages/Runs.antt =====
-- The theorem on the calls that send, applied to a session without a handshake.
use fluent_forward_go.Common.{
  ℕ, ◌+◌, Bytes, [], ◌∷◌, none, some, true, false, ◌≡◌, refl, codes, pos, pos,
}
use fluent_forward_go.Msgp.Model.{writes}
use fluent_forward_go.Protocol.EventTime.{EventTime}
use fluent_forward_go.Protocol.PackedForward.Compressed.{Gzip}
use fluent_forward_go.Client.Session.{Network, Client, transport_phase, send, send_raw}
use fluent_forward_go.Protocol.ChunkEncoder.{ChunkEncoder, packed, encoder_chunk}
use fluent_forward_go.Msgp.Model.Laws.{reads}
use fluent_forward_go.Client.Messages.{
  Refuses, send_message, send_message_ext, send_forward, send_packed, send_packed_from_bytes,
  send_compressed, send_compressed_from_bytes, sends_not_in_transport,
}

-- A connection counts the writes.
abbrev counting : Network ℕ (ChunkEncoder ℕ)
counting = record {
  close = λ n. (n, none);
  set_read_deadline = λ t n. (n, none);
  read_helo = λ n. (n, (record { message_type = []; options = none }, none));
  read_pong = λ n. (
    n,
    (
      record {
        message_type = [];
        auth_result = true;
        reason = [];
        server_hostname = [];
        shared_key_hex_digest = [];
      },
      none,
    ),
  );
  read_ack = λ n. (n, ([], none));
  write_ping = λ p n. (n + 1, none);
  write = λ m n. (n + 1, none);
  encode = λ e n. (n + 1, none);
  chunk = encoder_chunk reads (1 ∷ [], none);
}

-- A compressor that stores.
abbrev storing : Gzip Bytes
storing = record {
  fresh = [];
  write = λ w bits. (bits, none);
  close = λ w. (w, none);
  output = λ w. w;
}

abbrev not_shaken : Client ℕ
not_shaken = record {
  require_ack = true;
  timeout = pos 1;
  shared_key = some (codes "key");
  hostname = codes "c";
  session = some (record { connection = 0; transport_phase = false });
}

abbrev noon : EventTime
noon = record { unix = pos 12; nanosecond = 0 }

abbrev some_packed : ChunkEncoder ℕ
some_packed = packed (record { tag = codes "tag"; event_stream = []; options = none })

sends_not_in_transport_example :
    Refuses counting writes storing not_shaken (send counting some_packed not_shaken)
    × Refuses counting writes storing not_shaken (send_raw counting (1 ∷ []) not_shaken)
    × Refuses counting writes storing not_shaken
        (send_message counting writes storing noon (codes "t") 7 not_shaken)
    × Refuses counting writes storing not_shaken
        (send_message_ext counting writes storing noon (codes "t") 7 not_shaken)
    × Refuses counting writes storing not_shaken
        (send_forward counting writes storing (codes "t") [] not_shaken)
    × Refuses counting writes storing not_shaken
        (send_packed counting writes storing (codes "t") [] not_shaken)
    × Refuses counting writes storing not_shaken
        (send_packed_from_bytes counting writes storing (codes "t") (1 ∷ []) not_shaken)
    × Refuses counting writes storing not_shaken
        (send_compressed counting writes storing (codes "t") [] not_shaken)
    × Refuses counting writes storing not_shaken
        (send_compressed_from_bytes counting writes storing (codes "t") (1 ∷ []) not_shaken)
sends_not_in_transport_example =
    sends_not_in_transport counting writes storing not_shaken some_packed noon (codes "t") (1 ∷ [])
      7 [] not_yet
  where
    not_yet : transport_phase not_shaken ≡ false
    not_yet = unfold transport_phase in refl
