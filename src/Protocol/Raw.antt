-- ===== src/Protocol/Raw.antt =====
-- `RawMessage` of fluent/protocol/transport.go: bytes that are a message already, with the methods in
-- transport_gen.go.
use fluent_forward_go.Common.{ℕ, ◌+◌, ap, [], ◌∷◌, Bytes, length}
use fluent_forward_go.Msgp.Put.{Put, total, Writes, Appends, Emits}
use fluent_forward_go.Msgp.Get.{
  Outcome, Get, read_into, wrap, nil_on_error, nil_outcome, Takes, Takes-into,
}
use fluent_forward_go.Msgp.Format.{Wire, Reads, IsShort, IsAppender, IsReader}
use fluent_forward_go.Protocol.Chunk.{get_chunk}

abbrev pub RawMessage : Type 0
RawMessage = Bytes

module _ {Intf : Type 0} where
  -- An empty message is written as a nil, and any other as it is.
  unfoldable pub raw_encode_msg : Writes Intf → RawMessage → Put
  raw_encode_msg wr [] = wr.write_nil
  raw_encode_msg wr (b ∷ rm) = wr.write (b ∷ rm)

  unfoldable pub raw_chunk : Reads Intf → RawMessage → Outcome (Unit {0}) Bytes
  raw_chunk rd rm = get_chunk rd rm

  unfoldable pub raw_marshal_msg : Appends Intf → RawMessage → Put
  raw_marshal_msg ap z = total (ap.append_bytes z)

  unfoldable pub raw_decode_msg : Reads Intf → Get RawMessage (Unit {0})
  raw_decode_msg rd = wrap [] (read_into rd.read_bytes (λ s z. s))

  unfoldable pub raw_unmarshal_msg : Reads Intf → Get RawMessage (Unit {0})
  raw_unmarshal_msg rd = nil_on_error (wrap [] (read_into rd.read_bytes (λ s z. s)))

-- `Msgsize`, with the package's size of a header of bytes.
unfoldable pub raw_msgsize : ℕ → RawMessage → ℕ
raw_msgsize bytes_prefix_size z = bytes_prefix_size + length z

module _ {Intf : Type 0} (w : Wire Intf) where
  pub raw_marshal_msg_lem :
      (ap : Appends Intf)
      → IsAppender w ap
      → (z : RawMessage) → IsShort z
      → Emits (raw_marshal_msg ap z) (w.bytes z)
  unfolding raw_marshal_msg
  raw_marshal_msg_lem ap laws z h = laws.bytes z h

  pub raw_unmarshal_msg_lem :
      (rd : Reads Intf)
      → IsReader w rd
      → (z r : RawMessage) → IsShort z
      → Takes (raw_unmarshal_msg rd) (w.bytes z) r tt z
  unfolding raw_unmarshal_msg
  raw_unmarshal_msg_lem rd laws z r h rest =
      ap nil_outcome (Takes-into [] rd.read_bytes (λ s z'. s) (w.bytes z) r (laws.bytes z h) rest)
