-- ===== src/Protocol/ChunkOption/Drawn.antt =====
-- The IDs that the `Chunk` methods draw, found again by `GetChunk` in what is sent.
use fluent_forward_go.Common.{Bytes, none, some, [], ◌∷◌, ◌≡◌, ◌≢◌, refl, subst, false}
use fluent_forward_go.Msgp.Put.{Appends}
use fluent_forward_go.Msgp.Format.{Wire, Reads, IsFormat, IsAppender, IsReader}
use fluent_forward_go.Protocol.Options.{MessageOptions, is_empty}
use fluent_forward_go.Protocol.ChunkId.{chunk_of, chunk_of-chunk_of, or_empty}
use fluent_forward_go.Protocol.Message.{
  Message, MessageExt, IsMessage, IsMessageExt, message_chunk, message_ext_chunk,
}
use fluent_forward_go.Protocol.Message.Write.{message_marshal_msg, message_ext_marshal_msg}
use fluent_forward_go.Protocol.Forward.{ForwardMessage, IsForward, forward_chunk}
use fluent_forward_go.Protocol.Forward.Write.{forward_marshal_msg}
use fluent_forward_go.Protocol.PackedForward.{PackedForwardMessage, IsPacked, packed_chunk}
use fluent_forward_go.Protocol.PackedForward.Write.{packed_marshal_msg}
use fluent_forward_go.Protocol.Chunk.Found.{gives, chunk_option, string_answer}
use fluent_forward_go.Protocol.ChunkOption.{
  ChunkIs, get_chunk-message_marshal_msg, get_chunk-message_ext_marshal_msg,
  get_chunk-packed_marshal_msg, get_chunk-forward_marshal_msg,
}

string_answer-filled : (c : Bytes) → is_empty c ≡ false → string_answer c ≡ gives c
string_answer-filled [] h = cc
string_answer-filled (x ∷ c) h = refl

chunk_option-chunk_of :
    (b : Bytes) (o : MessageOptions)
    → b ≢ []
    → chunk_option (some (chunk_of (b, none) o).options) ≡ gives (chunk_of (b, none) o).chunk
chunk_option-chunk_of b o h =
    let (fine, kept, filled, again) = chunk_of-chunk_of b (b, none) o h in
    rw kept (string_answer-filled (chunk_of (b, none) o).chunk filled)

module _ {Intf : Type 0} (w : Wire Intf) (fmt : IsFormat w) (rd : Reads Intf)
    (rlaws : IsReader w rd) where
  module _ (apd : Appends Intf) (alaws : IsAppender w apd) where
    -- After a call of Chunk on a Message that draws an ID with at least a byte, GetChunk on the
    -- bytes of MarshalMsg finds the chunk that Chunk returned, where the Message then has a tag and
    -- options that fit the lengths of the format, a timestamp of 64 bits and a record that the
    -- package reads back as written. The package of the codec obeys the laws of Msgp.Format.
    pub get_chunk-message_chunk :
        (b : Bytes) (m : Message Intf)
        → b ≢ []
        → IsMessage w (message_chunk (b, none) m).0
        → let (sent, (chunk, err)) = message_chunk (b, none) m in
          ChunkIs rd (message_marshal_msg apd sent) (gives chunk)
    unfolding message_chunk
    get_chunk-message_chunk b m h k =
        subst (ChunkIs rd (message_marshal_msg apd (message_chunk (b, none) m).0))
          (chunk_option-chunk_of b (or_empty m.options) h)
          (get_chunk-message_marshal_msg w fmt rd rlaws apd alaws (message_chunk (b, none) m).0 k)

    -- After a call of Chunk on a MessageExt that draws an ID with at least a byte, GetChunk on the
    -- bytes of MarshalMsg finds the chunk that Chunk returned, where the MessageExt then has a tag
    -- and options that fit the lengths of the format, a timestamp of 32 bits of seconds with
    -- nanoseconds below a second, and a record that the package reads back as written. The package
    -- of the codec obeys the laws of Msgp.Format.
    pub get_chunk-message_ext_chunk :
        (b : Bytes) (m : MessageExt Intf)
        → b ≢ []
        → IsMessageExt w (message_ext_chunk (b, none) m).0
        → let (sent, (chunk, err)) = message_ext_chunk (b, none) m in
          ChunkIs rd (message_ext_marshal_msg apd sent) (gives chunk)
    unfolding message_ext_chunk
    get_chunk-message_ext_chunk b m h k =
        subst (ChunkIs rd (message_ext_marshal_msg apd (message_ext_chunk (b, none) m).0))
          (chunk_option-chunk_of b (or_empty m.options) h)
          (get_chunk-message_ext_marshal_msg w fmt rd rlaws apd alaws
            (message_ext_chunk (b, none) m).0 k)

    -- After a call of Chunk on a ForwardMessage that draws an ID with at least a byte, GetChunk on
    -- the bytes of MarshalMsg finds the chunk that Chunk returned, where the ForwardMessage then
    -- has a tag, entries and options that fit the lengths of the format, timestamps of 32 bits of
    -- seconds with nanoseconds below a second, and records that the package reads back as written.
    -- The package of the codec obeys the laws of Msgp.Format.
    pub get_chunk-forward_chunk :
        (b : Bytes) (m : ForwardMessage Intf)
        → b ≢ []
        → IsForward w (forward_chunk (b, none) m).0
        → let (sent, (chunk, err)) = forward_chunk (b, none) m in
          ChunkIs rd (forward_marshal_msg apd sent) (gives chunk)
    unfolding forward_chunk
    get_chunk-forward_chunk b m h k =
        subst (ChunkIs rd (forward_marshal_msg apd (forward_chunk (b, none) m).0))
          (chunk_option-chunk_of b (or_empty m.options) h)
          (get_chunk-forward_marshal_msg w fmt rd rlaws apd alaws (forward_chunk (b, none) m).0 k)

    -- After a call of Chunk on a PackedForwardMessage that draws an ID with at least a byte,
    -- GetChunk on the bytes of MarshalMsg finds the chunk that Chunk returned, where the
    -- PackedForwardMessage then has a tag, a stream and options that fit the lengths of the format.
    -- The package of the codec obeys the laws of Msgp.Format.
    pub get_chunk-packed_chunk :
        (b : Bytes) (m : PackedForwardMessage)
        → b ≢ []
        → IsPacked (packed_chunk (b, none) m).0
        → let (sent, (chunk, err)) = packed_chunk (b, none) m in
          ChunkIs rd (packed_marshal_msg apd sent) (gives chunk)
    unfolding packed_chunk
    get_chunk-packed_chunk b m h k =
        subst (ChunkIs rd (packed_marshal_msg apd (packed_chunk (b, none) m).0))
          (chunk_option-chunk_of b (or_empty m.options) h)
          (get_chunk-packed_marshal_msg w fmt rd rlaws apd alaws (packed_chunk (b, none) m).0 k)
