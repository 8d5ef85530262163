-- ===== src/Protocol/PackedForward/Read.antt =====
-- `DecodeMsg` and `UnmarshalMsg` of `PackedForwardMessage`.
use fluent_forward_go.Common.{Option, [], ◌∷◌, arith, Bytes}
use fluent_forward_go.Msgp.Get.{
  Get, read_into, wrap, ◌>>=◌, ◌>>◌, Takes, Takes-into, Takes-fields₂, header, header_lem, last_if,
}
use fluent_forward_go.Msgp.Format.{Wire, Reads, IsReader}
use fluent_forward_go.Msgp.Errors.{name}
use fluent_forward_go.Protocol.Options.{MessageOptions}
use fluent_forward_go.Protocol.Tail.{tail_wire}
use fluent_forward_go.Protocol.Tail.Read.{
  decode_tail_any, unmarshal_tail, with_tail, decode_tail_any_lem, unmarshal_tail_lem,
}
use fluent_forward_go.Protocol.PackedForward.{PackedForwardMessage, packed_wire, IsPacked}

abbrev pub put_options : Option MessageOptions → PackedForwardMessage → PackedForwardMessage
put_options o m = record m { options = o }

abbrev put_tag : Bytes → PackedForwardMessage → PackedForwardMessage
put_tag s m = record m { tag = s }

abbrev put_stream : Bytes → PackedForwardMessage → PackedForwardMessage
put_stream s m = record m { event_stream = s }

-- `r` once the message `m` has been read into it: where `m` has no options, those of `r` stay.
abbrev pub packed_over : PackedForwardMessage → PackedForwardMessage → PackedForwardMessage
packed_over m r = with_tail put_options m.options (record m { options = r.options })

module _ {Intf : Type 0} (rd : Reads Intf) where
  abbrev read_tag : Get PackedForwardMessage (Unit {0})
  read_tag = wrap (name "Tag" ∷ []) (read_into rd.read_string put_tag)

  abbrev read_stream : Get PackedForwardMessage (Unit {0})
  read_stream = wrap (name "EventStream" ∷ []) (read_into rd.read_bytes put_stream)

  unfoldable pub packed_decode_msg : Get PackedForwardMessage (Unit {0})
  packed_decode_msg = do
    sz ← header rd.read_array_header
    read_tag >> (read_stream >> last_if 3 (decode_tail_any put_options rd) sz)

  unfoldable pub packed_unmarshal_msg : Get PackedForwardMessage (Unit {0})
  packed_unmarshal_msg = do
    sz ← header rd.read_array_header
    read_tag >> (read_stream >> last_if 3 (unmarshal_tail put_options rd) sz)

module _ {Intf : Type 0} (w : Wire Intf) (rd : Reads Intf) (laws : IsReader w rd) where
  fields_lem :
      (tail : Get PackedForwardMessage (Unit {0})) (m r s : PackedForwardMessage)
      → IsPacked m
      → Takes tail (tail_wire w m.options) (record m { options = r.options }) tt s
      → Takes
          (header rd.read_array_header >>= λ sz.
            read_tag rd >> (read_stream rd >> last_if 3 tail sz))
          (packed_wire w m)
          r
          tt
          s
  fields_lem tail m r s h k =
      let r1 : PackedForwardMessage = put_tag m.tag r in
      Takes-fields₂ (header rd.read_array_header) (read_tag rd) (read_stream rd) (last_if 3 tail)
        (w.array_header 3) (w.string m.tag) (w.bytes m.event_stream) (tail_wire w m.options) 3 r r1
        (put_stream m.event_stream r1) s
        (header_lem rd.read_array_header (w.array_header 3) 3 r (laws.array_header 3 (omega arith)))
        (Takes-into (name "Tag" ∷ []) rd.read_string put_tag (w.string m.tag) r
          (laws.string m.tag h.tag_short))
        (Takes-into (name "EventStream" ∷ []) rd.read_bytes put_stream (w.bytes m.event_stream) r1
          (laws.bytes m.event_stream h.stream_short))
        k

  pub packed_decode_msg_lem :
      (m r : PackedForwardMessage)
      → IsPacked m
      → Takes (packed_decode_msg rd) (packed_wire w m) r tt (packed_over m r)
  unfolding packed_decode_msg
  packed_decode_msg_lem m r h =
      fields_lem (decode_tail_any put_options rd) m r (packed_over m r) h (
        decode_tail_any_lem put_options rd w laws m.options (record m { options = r.options })
          h.tail)

  pub packed_unmarshal_msg_lem :
      (m r : PackedForwardMessage)
      → IsPacked m
      → Takes (packed_unmarshal_msg rd) (packed_wire w m) r tt (packed_over m r)
  unfolding packed_unmarshal_msg
  packed_unmarshal_msg_lem m r h =
      fields_lem (unmarshal_tail put_options rd) m r (packed_over m r) h (
        unmarshal_tail_lem put_options rd w laws m.options (record m { options = r.options })
          h.tail)
