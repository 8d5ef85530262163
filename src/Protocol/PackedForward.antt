-- ===== src/Protocol/PackedForward.antt =====
-- `PackedForwardMessage` and `GzipCompressor` of fluent/protocol/packed_forward_message.go: a list
-- of events as one byte stream, which may be compressed.
pub mod Write
pub mod Read
pub mod Compressed
use fluent_forward_go.Common.{ℕ, ◌+◌, Option, none, some, ◌++◌, Bytes, length, pos}
use fluent_forward_go.Msgp.Put.{Writes}
use fluent_forward_go.Msgp.Format.{Wire, IsShort}
use fluent_forward_go.Msgp.Errors.{Error}
use fluent_forward_go.Protocol.Entries.{EntryList}
use fluent_forward_go.Protocol.Entries.Packed.{marshal_packed}
use fluent_forward_go.Protocol.Options.{MessageOptions, empty}
use fluent_forward_go.Protocol.Tail.{tail_wire, IsTail}
use fluent_forward_go.Protocol.ChunkId.{Uuid, or_empty, chunk_of}
use fluent_forward_go.Protocol.Message.{tail_msgsize}

pub record PackedForwardMessage : Type 0 where
  pub tag : Bytes
  pub event_stream : Bytes
  pub options : Option MessageOptions

unfoldable pub new_packed_forward_message_from_bytes : Bytes → Bytes → PackedForwardMessage
new_packed_forward_message_from_bytes tag entries = record {
  tag = tag;
  event_stream = entries;
  options = none;
}

-- A result with an error has no message.
abbrev pub Built : Type 0
Built = Option PackedForwardMessage × Option Error

abbrev pub packed_of : Bytes → ℕ → Bytes × Option Error → Built
packed_of tag len (bits, some e) = (none, some e)
packed_of tag len (bits, none) = (
  some (record (new_packed_forward_message_from_bytes tag bits) {
    options = some (record empty { size = some (pos len) });
  }),
  none,
)

unfoldable pub new_packed_forward_message :
    {Intf : Type 0} → Writes Intf → Bytes → EntryList Intf → Built
unfolding new_packed_forward_message_from_bytes
new_packed_forward_message wr tag entries =
    packed_of tag (length entries) (marshal_packed wr entries)

unfoldable pub packed_chunk :
    Uuid → PackedForwardMessage → PackedForwardMessage × (Bytes × Option Error)
packed_chunk uuid msg =
    let c = chunk_of uuid (or_empty msg.options) in
    (record msg { options = some c.options }, (c.chunk, c.error))

unfoldable pub packed_msgsize : ℕ → ℕ → (MessageOptions → ℕ) → PackedForwardMessage → ℕ
packed_msgsize string_prefix_size bytes_prefix_size options_msgsize msg =
    1
    + string_prefix_size
    + length msg.tag
    + bytes_prefix_size
    + length msg.event_stream
    + tail_msgsize options_msgsize msg.options

module _ {Intf : Type 0} (w : Wire Intf) where
  abbrev pub packed_wire : PackedForwardMessage → Bytes
  packed_wire m =
      w.array_header 3 ++ (w.string m.tag ++ (w.bytes m.event_stream ++ tail_wire w m.options))

pub record IsPacked (m : PackedForwardMessage) : Type 0 where
  pub tag_short : IsShort m.tag
  pub stream_short : IsShort m.event_stream
  pub tail : IsTail m.options
