-- ===== src/Protocol/PackedForward/Write.antt =====
-- `EncodeMsg` and `MarshalMsg` of `PackedForwardMessage`, in packed_forward_message_gen.go.
use fluent_forward_go.Common.{sym, ap, [], ◌∷◌, arith}
use fluent_forward_go.Msgp.Put.{
  Put, ◌>>◌, wrap, total, literal, Writes, Appends, Emits, Emits-wrap, Emits-literal, Emits-eq,
}
use fluent_forward_go.Msgp.Format.{Wire, IsFormat, IsWriter, IsAppender}
use fluent_forward_go.Msgp.Errors.{name}
use fluent_forward_go.Protocol.Tail.{tail_wire}
use fluent_forward_go.Protocol.Tail.Write.{
  encode_tail, marshal_tail, encode_tail_lem, marshal_tail_lem, four,
}
use fluent_forward_go.Protocol.PackedForward.{PackedForwardMessage, packed_wire, IsPacked}

module _ {Intf : Type 0} where
  unfoldable pub packed_encode_msg : Writes Intf → PackedForwardMessage → Put
  packed_encode_msg wr z =
      wr.append (0x93 ∷ [])
      >> wrap (name "Tag" ∷ []) (wr.write_string z.tag)
      >> wrap (name "EventStream" ∷ []) (wr.write_bytes z.event_stream)
      >> encode_tail wr z.options

  unfoldable pub packed_marshal_msg : Appends Intf → PackedForwardMessage → Put
  packed_marshal_msg ap z =
      literal (0x93 ∷ [])
      >> total (ap.append_string z.tag)
      >> total (ap.append_bytes z.event_stream)
      >> marshal_tail ap z.options

  module _ (w : Wire Intf) (fmt : IsFormat w) where
    -- `EncodeMsg` writes an array of three: the tag, the stream, and the options or a nil.
    pub packed_encode_msg_lem :
        (wr : Writes Intf)
        → IsWriter w wr
        → (m : PackedForwardMessage) → IsPacked m
        → Emits (packed_encode_msg wr m) (packed_wire w m)
    unfolding packed_encode_msg
    packed_encode_msg_lem wr laws m h =
        four _ _ _ _ (w.array_header 3) (w.string m.tag) (w.bytes m.event_stream)
          (tail_wire w m.options)
          (Emits-eq (wr.append (0x93 ∷ [])) (sym (fmt.fix_array 3 (omega arith)))
            (laws.append (0x93 ∷ [])))
          (Emits-wrap _ _ _ (laws.string m.tag h.tag_short))
          (Emits-wrap _ _ _ (laws.bytes m.event_stream h.stream_short))
          (encode_tail_lem w fmt wr laws m.options h.tail)

    pub packed_marshal_msg_lem :
        (ap : Appends Intf)
        → IsAppender w ap
        → (m : PackedForwardMessage) → IsPacked m
        → Emits (packed_marshal_msg ap m) (packed_wire w m)
    unfolding packed_marshal_msg
    packed_marshal_msg_lem ap laws m h =
        four _ _ _ _ (w.array_header 3) (w.string m.tag) (w.bytes m.event_stream)
          (tail_wire w m.options)
          (Emits-eq (literal (0x93 ∷ [])) (sym (fmt.fix_array 3 (omega arith)))
            (Emits-literal (0x93 ∷ [])))
          (laws.string m.tag h.tag_short) (laws.bytes m.event_stream h.stream_short)
          (marshal_tail_lem w fmt ap laws m.options h.tail)
