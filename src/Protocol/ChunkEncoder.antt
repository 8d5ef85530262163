-- ===== src/Protocol/ChunkEncoder.antt =====
-- `ChunkEncoder` of fluent/protocol/chunk.go: the five types that have its two methods.
pub mod Found
mod Runs
use fluent_forward_go.Common.{refl, Option, none, some, Bytes, [], ◌∷◌, ◌≢◌}
use fluent_forward_go.Msgp.Errors.{Error}
use fluent_forward_go.Msgp.Put.{Put, Writes, Emits}
use fluent_forward_go.Msgp.Get.{Outcome, done, failed}
use fluent_forward_go.Msgp.Format.{Wire, Reads, IsFormat, IsWriter}
use fluent_forward_go.Protocol.ChunkId.{Uuid}
use fluent_forward_go.Protocol.Message.{
  Message, MessageExt, message_chunk, message_ext_chunk, message_wire, message_ext_wire, IsMessage,
  IsMessageExt,
}
use fluent_forward_go.Protocol.Message.Write.{
  message_encode_msg, message_ext_encode_msg, message_encode_msg_lem, message_ext_encode_msg_lem,
}
use fluent_forward_go.Protocol.Forward.{ForwardMessage, forward_chunk, forward_wire, IsForward}
use fluent_forward_go.Protocol.Forward.Write.{forward_encode_msg, forward_encode_msg_lem}
use fluent_forward_go.Protocol.PackedForward.{
  PackedForwardMessage, packed_chunk, packed_wire, IsPacked,
}
use fluent_forward_go.Protocol.PackedForward.Write.{packed_encode_msg, packed_encode_msg_lem}
use fluent_forward_go.Protocol.Raw.{RawMessage, raw_chunk, raw_encode_msg}

pub data ChunkEncoder (Intf : Type 0) : Type 0 where
  plain : Message Intf → ChunkEncoder Intf
  extended : MessageExt Intf → ChunkEncoder Intf
  forward : ForwardMessage Intf → ChunkEncoder Intf
  packed : PackedForwardMessage → ChunkEncoder Intf
  raw : RawMessage → ChunkEncoder Intf

-- The results of `GetChunk`.
abbrev pub found : Outcome (Unit {0}) Bytes → Bytes × Option Error
found (done chunk u left) = (chunk, none)
found (failed e u left) = ([], some e)

module _ {Intf : Type 0} where
  abbrev wrap :
      {A : Type 0}
      → (A → ChunkEncoder Intf)
      → A × (Bytes × Option Error)
      → ChunkEncoder Intf × (Bytes × Option Error)
  wrap f (a, r) = (f a, r)

  -- `Chunk`; `uuid` is what the generator of identifiers returns.
  unfoldable pub encoder_chunk :
      Reads Intf → Uuid → ChunkEncoder Intf → ChunkEncoder Intf × (Bytes × Option Error)
  encoder_chunk rd uuid (plain m) = wrap plain (message_chunk uuid m)
  encoder_chunk rd uuid (extended m) = wrap extended (message_ext_chunk uuid m)
  encoder_chunk rd uuid (forward m) = wrap forward (forward_chunk uuid m)
  encoder_chunk rd uuid (packed m) = wrap packed (packed_chunk uuid m)
  encoder_chunk rd uuid (raw m) = (raw m, found (raw_chunk rd m))

  unfoldable pub encoder_encode_msg : Writes Intf → ChunkEncoder Intf → Put
  encoder_encode_msg wr (plain m) = message_encode_msg wr m
  encoder_encode_msg wr (extended m) = message_ext_encode_msg wr m
  encoder_encode_msg wr (forward m) = forward_encode_msg wr m
  encoder_encode_msg wr (packed m) = packed_encode_msg wr m
  encoder_encode_msg wr (raw m) = raw_encode_msg wr m

  module _ (w : Wire Intf) where
    abbrev pub encoder_wire : ChunkEncoder Intf → Bytes
    encoder_wire (plain m) = message_wire w m
    encoder_wire (extended m) = message_ext_wire w m
    encoder_wire (forward m) = forward_wire w m
    encoder_wire (packed m) = packed_wire w m
    encoder_wire (raw m) = m

    -- What can be encoded: see the four predicates; a raw message has a byte.
    abbrev pub IsEncodable : ChunkEncoder Intf → Type 0
    IsEncodable (plain m) = IsMessage w m
    IsEncodable (extended m) = IsMessageExt w m
    IsEncodable (forward m) = IsForward w m
    IsEncodable (packed m) = IsPacked m
    IsEncodable (raw m) = m ≢ []

    module _ (fmt : IsFormat w) (wr : Writes Intf) (laws : IsWriter w wr) where
      raw_lem : (m : RawMessage) → m ≢ [] → Emits (raw_encode_msg wr m) m
      unfolding raw_encode_msg
      raw_lem [] h = absurd (h refl)
      raw_lem (b ∷ m) h = laws.write (b ∷ m)

      pub encoder_encode_msg_lem :
          (e : ChunkEncoder Intf) → IsEncodable e → Emits (encoder_encode_msg wr e) (encoder_wire e)
      unfolding encoder_encode_msg
      encoder_encode_msg_lem (plain m) h = message_encode_msg_lem w fmt wr laws m h
      encoder_encode_msg_lem (extended m) h = message_ext_encode_msg_lem w fmt wr laws m h
      encoder_encode_msg_lem (forward m) h = forward_encode_msg_lem w fmt wr laws m h
      encoder_encode_msg_lem (packed m) h = packed_encode_msg_lem w fmt wr laws m h
      encoder_encode_msg_lem (raw m) h = raw_lem m h
