-- ===== src/Protocol/ChunkEncoder/Runs.antt =====
-- The theorems on `ChunkEncoder`, applied.
use fluent_forward_go.Common.{ℕ, Bytes, none, some, [], ◌∷◌, refl, pos, arith, codes}
use fluent_forward_go.Msgp.Model.{wire, writes, appends}
use fluent_forward_go.Msgp.Model.Laws.{
  reads, wire-IsFormat, writes-IsWriter, appends-IsAppender, reads-IsReader,
}
use fluent_forward_go.Protocol.ChunkId.{chunk_of, encode_to_string, make_chunk_id}
use fluent_forward_go.Protocol.Options.{MessageOptions}
use fluent_forward_go.Protocol.Message.{message_chunk}
use fluent_forward_go.Protocol.PackedForward.{PackedForwardMessage, IsPacked}
use fluent_forward_go.Protocol.Chunk.Found.{gives}
use fluent_forward_go.Protocol.ChunkOption.{ChunkIs}
use fluent_forward_go.Protocol.ChunkEncoder.{
  ChunkEncoder, plain, packed, encoder_chunk, encoder_encode_msg, IsEncodable,
}
use fluent_forward_go.Protocol.ChunkEncoder.Found.{
  get_chunk-encoder_chunk, get_chunk-encoder_encode_msg,
}

abbrev uuid : Bytes
uuid = 1 ∷ 2 ∷ 3 ∷ 4 ∷ []

abbrev a_message : ChunkEncoder ℕ
a_message = plain (record { tag = codes "tag"; timestamp = pos 5; event = 7; options = none })

a_message-IsEncodable : IsEncodable wire (encoder_chunk reads (uuid, none) a_message).0
unfolding encoder_chunk message_chunk chunk_of make_chunk_id encode_to_string
a_message-IsEncodable = record {
  tag_short = omega arith;
  time = omega arith;
  plain = refl;
  tail = record { size_int = tt; chunk_short = omega arith; compressed_short = omega arith };
}

get_chunk-encoder_chunk_example :
    let (sent, (chunk, err)) = encoder_chunk reads (uuid, none) a_message in
    ChunkIs reads (encoder_encode_msg writes sent) (gives chunk)
unfolding encoder_chunk message_chunk chunk_of make_chunk_id encode_to_string
get_chunk-encoder_chunk_example =
    get_chunk-encoder_chunk wire wire-IsFormat reads reads-IsReader writes writes-IsWriter appends
      appends-IsAppender uuid a_message (λ e. cc) a_message-IsEncodable refl

abbrev some_options : MessageOptions
some_options = record { size = none; chunk = codes "p8n9gmxTQVC8"; compressed = [] }

abbrev a_packed : PackedForwardMessage
a_packed = record { tag = codes "tag"; event_stream = 1 ∷ 2 ∷ 3 ∷ []; options = some some_options }

a_packed-IsPacked : IsPacked a_packed
a_packed-IsPacked = record {
  tag_short = omega arith;
  stream_short = omega arith;
  tail = record { size_int = tt; chunk_short = omega arith; compressed_short = omega arith };
}

get_chunk-encoder_encode_msg_example :
    ChunkIs reads (encoder_encode_msg writes (packed a_packed)) (gives (codes "p8n9gmxTQVC8"))
get_chunk-encoder_encode_msg_example =
    get_chunk-encoder_encode_msg wire wire-IsFormat reads reads-IsReader writes writes-IsWriter
      appends appends-IsAppender (packed a_packed) refl a_packed-IsPacked
