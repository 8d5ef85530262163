-- ===== src/Protocol/ChunkEncoder/Found.antt =====
-- The chunk that `Chunk` of a `ChunkEncoder` returns, found by `GetChunk` in what `EncodeMsg` writes.
use fluent_forward_go.Common.{Bool, true, false, none, Bytes, [], ◌≡◌, ◌≢◌, refl, sym, ◌∙◌}
use fluent_forward_go.Msgp.Put.{Put, wrote, Writes, Appends, Emits}
use fluent_forward_go.Msgp.Get.{Outcome, done, failed}
use fluent_forward_go.Msgp.Format.{Wire, Reads, IsFormat, IsWriter, IsAppender, IsReader}
use fluent_forward_go.Protocol.Message.{message_chunk, message_ext_chunk}
use fluent_forward_go.Protocol.Message.Write.{
  message_marshal_msg_lem, message_ext_marshal_msg_lem, message_marshal_msg,
  message_ext_marshal_msg,
}
use fluent_forward_go.Protocol.Forward.{forward_chunk}
use fluent_forward_go.Protocol.Forward.Write.{forward_marshal_msg_lem, forward_marshal_msg}
use fluent_forward_go.Protocol.PackedForward.{packed_chunk}
use fluent_forward_go.Protocol.PackedForward.Write.{packed_marshal_msg_lem, packed_marshal_msg}
use fluent_forward_go.Protocol.Raw.{raw_chunk}
use fluent_forward_go.Protocol.Chunk.Found.{
  Answer, gives, lacking, answer, chunk_option, last_option,
}
use fluent_forward_go.Protocol.ChunkOption.{
  ChunkIs, get_chunk-message_marshal_msg, get_chunk-message_ext_marshal_msg,
  get_chunk-packed_marshal_msg, get_chunk-forward_marshal_msg,
}
use fluent_forward_go.Protocol.ChunkOption.Drawn.{
  get_chunk-message_chunk, get_chunk-message_ext_chunk, get_chunk-forward_chunk,
  get_chunk-packed_chunk,
}
use fluent_forward_go.Protocol.ChunkEncoder.{
  ChunkEncoder, plain, extended, forward, packed, raw, encoder_chunk, encoder_encode_msg,
  IsEncodable, encoder_encode_msg_lem, found,
}

-- What holds of the bytes of one writer holds of those of another that writes the same.
ChunkIs-Emits :
    {Intf : Type 0} (rd : Reads Intf) (p q : Put) (bs : Bytes) (o : Answer)
    → Emits p bs
    → Emits q bs
    → ChunkIs rd p o
    → ChunkIs rd q o
ChunkIs-Emits rd p q bs o hp hq (bs', e, left, holds) =
    let t : wrote bs ≡ wrote bs' = sym (hp []) ∙ e in (bs', hq [] ∙ t, left, holds)

found-answer :
    (o : Outcome (Unit {0}) Bytes)
    → (found o).1 ≡ none
    → (left : Bytes) × (o ≡ answer (gives (found o).0) left)
found-answer (done chunk tt left) h = (left, refl)
found-answer (failed x u left) h = cc

module _ {Intf : Type 0} where
  abbrev pub is_raw : ChunkEncoder Intf → Bool
  is_raw (raw m) = true
  is_raw _ = false

  -- A ForwardMessage writes nothing for absent options, the others a nil.
  abbrev pub option_answer : ChunkEncoder Intf → Answer
  option_answer (plain m) = chunk_option m.options
  option_answer (extended m) = chunk_option m.options
  option_answer (forward m) = last_option m.options
  option_answer (packed m) = chunk_option m.options
  option_answer (raw m) = lacking

module _ {Intf : Type 0} (w : Wire Intf) (fmt : IsFormat w) (rd : Reads Intf)
    (rlaws : IsReader w rd) (wr : Writes Intf) (wlaws : IsWriter w wr) (apd : Appends Intf)
    (alaws : IsAppender w apd) where
  -- After a call of Chunk without an error on any of the five kinds of ChunkEncoder, that draws an
  -- ID with at least a byte where it draws one, GetChunk on the bytes of EncodeMsg finds the chunk
  -- that Chunk returned, where the message then has strings that fit the lengths of the format,
  -- timestamps in its range (64 bits for a Message, 32 bits of seconds otherwise) and records that
  -- the package reads back as written, or is a RawMessage that is not empty. The package of the
  -- codec obeys the laws of Msgp.Format.
  pub get_chunk-encoder_chunk :
      (b : Bytes) (e : ChunkEncoder Intf)
      → b ≢ []
      → IsEncodable w (encoder_chunk rd (b, none) e).0
      → (encoder_chunk rd (b, none) e).1.1 ≡ none
      → let (sent, (chunk, err)) = encoder_chunk rd (b, none) e in
        ChunkIs rd (encoder_encode_msg wr sent) (gives chunk)
  unfolding encoder_chunk raw_chunk
  get_chunk-encoder_chunk b (plain m) h k fine =
      ChunkIs-Emits rd (message_marshal_msg apd (message_chunk (b, none) m).0) _ _
        (gives (message_chunk (b, none) m).1.0)
        (message_marshal_msg_lem w fmt apd alaws (message_chunk (b, none) m).0 k)
        (encoder_encode_msg_lem w fmt wr wlaws (plain (message_chunk (b, none) m).0) k)
        (get_chunk-message_chunk w fmt rd rlaws apd alaws b m h k)
  get_chunk-encoder_chunk b (extended m) h k fine =
      ChunkIs-Emits rd (message_ext_marshal_msg apd (message_ext_chunk (b, none) m).0) _ _
        (gives (message_ext_chunk (b, none) m).1.0)
        (message_ext_marshal_msg_lem w fmt apd alaws (message_ext_chunk (b, none) m).0 k)
        (encoder_encode_msg_lem w fmt wr wlaws (extended (message_ext_chunk (b, none) m).0) k)
        (get_chunk-message_ext_chunk w fmt rd rlaws apd alaws b m h k)
  get_chunk-encoder_chunk b (forward m) h k fine =
      ChunkIs-Emits rd (forward_marshal_msg apd (forward_chunk (b, none) m).0) _ _
        (gives (forward_chunk (b, none) m).1.0)
        (forward_marshal_msg_lem w fmt apd alaws (forward_chunk (b, none) m).0 k)
        (encoder_encode_msg_lem w fmt wr wlaws (forward (forward_chunk (b, none) m).0) k)
        (get_chunk-forward_chunk w fmt rd rlaws apd alaws b m h k)
  get_chunk-encoder_chunk b (packed m) h k fine =
      ChunkIs-Emits rd (packed_marshal_msg apd (packed_chunk (b, none) m).0) _ _
        (gives (packed_chunk (b, none) m).1.0)
        (packed_marshal_msg_lem w fmt apd alaws (packed_chunk (b, none) m).0 k)
        (encoder_encode_msg_lem w fmt wr wlaws (packed (packed_chunk (b, none) m).0) k)
        (get_chunk-packed_chunk w fmt rd rlaws apd alaws b m h k)
  get_chunk-encoder_chunk b (raw m) h k fine =
      let (left, e) = found-answer (raw_chunk rd m) fine in
      (m, encoder_encode_msg_lem w fmt wr wlaws (raw m) k [], left, e)

  -- For a Message, a MessageExt, a ForwardMessage and a PackedForwardMessage with strings that fit
  -- the lengths of the format, timestamps in its range (64 bits for a Message, 32 bits of seconds
  -- otherwise) and records that the package reads back as written, GetChunk on the bytes of
  -- EncodeMsg gives the chunk of its options, and where they have an empty chunk the error "chunk
  -- not found". Without options this is the error of a ForwardMessage too, and that of the others
  -- has the text "chunk not found: %!w(<nil>)". The package of the codec obeys the laws of
  -- Msgp.Format.
  pub get_chunk-encoder_encode_msg :
      (e : ChunkEncoder Intf)
      → is_raw e ≡ false
      → IsEncodable w e
      → ChunkIs rd (encoder_encode_msg wr e) (option_answer e)
  get_chunk-encoder_encode_msg (plain m) h k =
      ChunkIs-Emits rd (message_marshal_msg apd m) _ _ (chunk_option m.options)
        (message_marshal_msg_lem w fmt apd alaws m k)
        (encoder_encode_msg_lem w fmt wr wlaws (plain m) k)
        (get_chunk-message_marshal_msg w fmt rd rlaws apd alaws m k)
  get_chunk-encoder_encode_msg (extended m) h k =
      ChunkIs-Emits rd (message_ext_marshal_msg apd m) _ _ (chunk_option m.options)
        (message_ext_marshal_msg_lem w fmt apd alaws m k)
        (encoder_encode_msg_lem w fmt wr wlaws (extended m) k)
        (get_chunk-message_ext_marshal_msg w fmt rd rlaws apd alaws m k)
  get_chunk-encoder_encode_msg (forward m) h k =
      ChunkIs-Emits rd (forward_marshal_msg apd m) _ _ (last_option m.options)
        (forward_marshal_msg_lem w fmt apd alaws m k)
        (encoder_encode_msg_lem w fmt wr wlaws (forward m) k)
        (get_chunk-forward_marshal_msg w fmt rd rlaws apd alaws m k)
  get_chunk-encoder_encode_msg (packed m) h k =
      ChunkIs-Emits rd (packed_marshal_msg apd m) _ _ (chunk_option m.options)
        (packed_marshal_msg_lem w fmt apd alaws m k)
        (encoder_encode_msg_lem w fmt wr wlaws (packed m) k)
        (get_chunk-packed_marshal_msg w fmt rd rlaws apd alaws m k)
  get_chunk-encoder_encode_msg (raw m) h k = cc
