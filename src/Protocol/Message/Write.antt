-- ===== src/Protocol/Message/Write.antt =====
-- `EncodeMsg` and `MarshalMsg` of `Message` and `MessageExt`, in message_gen.go.
use fluent_forward_go.Common.{sym, [], ◌∷◌, ◌++◌, arith, Bytes}
use fluent_forward_go.Msgp.Put.{
  Put, ◌>>◌, wrap, total, literal, Writes, Appends, Emits, Emits-seq, Emits-wrap, Emits-literal,
  Emits-eq,
}
use fluent_forward_go.Msgp.Format.{Wire, IsFormat, IsWriter, IsAppender}
use fluent_forward_go.Msgp.Errors.{name}
use fluent_forward_go.Protocol.EventTime.{event_time_wire, write_event_time, append_event_time}
use fluent_forward_go.Protocol.EventTime.Binary.{marshal_binary_to-IsShort}
use fluent_forward_go.Protocol.Tail.{tail_wire}
use fluent_forward_go.Protocol.Tail.Write.{
  encode_tail, marshal_tail, encode_tail_lem, marshal_tail_lem, four,
}
use fluent_forward_go.Protocol.Message.{
  Message, MessageExt, message_wire, message_ext_wire, IsMessage, IsMessageExt,
}

module _ {Intf : Type 0} (wr : Writes Intf) where
  unfoldable pub message_encode_msg : Message Intf → Put
  message_encode_msg z =
      wr.append (0x94 ∷ [])
      >> (wrap (name "Tag" ∷ []) (wr.write_string z.tag)
          >> wrap (name "Timestamp" ∷ []) (wr.write_int64 z.timestamp)
          >> wrap (name "Record" ∷ []) (wr.write_intf z.event)
          >> encode_tail wr z.options)

  unfoldable pub message_ext_encode_msg : MessageExt Intf → Put
  message_ext_encode_msg z =
      wr.append (0x94 ∷ [])
      >> (wrap (name "Tag" ∷ []) (wr.write_string z.tag)
          >> wrap (name "Timestamp" ∷ []) (write_event_time wr z.timestamp)
          >> wrap (name "Record" ∷ []) (wr.write_intf z.event)
          >> encode_tail wr z.options)

module _ {Intf : Type 0} (ap : Appends Intf) where
  unfoldable pub message_marshal_msg : Message Intf → Put
  message_marshal_msg z =
      literal (0x94 ∷ [])
      >> (total (ap.append_string z.tag)
          >> total (ap.append_int64 z.timestamp)
          >> wrap (name "Record" ∷ []) (ap.append_intf z.event)
          >> marshal_tail ap z.options)

  unfoldable pub message_ext_marshal_msg : MessageExt Intf → Put
  message_ext_marshal_msg z =
      literal (0x94 ∷ [])
      >> (total (ap.append_string z.tag)
          >> wrap (name "Timestamp" ∷ []) (append_event_time ap z.timestamp)
          >> wrap (name "Record" ∷ []) (ap.append_intf z.event)
          >> marshal_tail ap z.options)

module _ {Intf : Type 0} (w : Wire Intf) (fmt : IsFormat w) where
  headed :
      (p q : Put) (bs : Bytes)
      → Emits p (0x94 ∷ [])
      → Emits q bs
      → Emits (p >> q) (w.array_header 4 ++ bs)
  headed p q bs hp hq =
      Emits-seq p q (w.array_header 4) bs (Emits-eq p (sym (fmt.fix_array 4 (omega arith))) hp) hq

  module _ (wr : Writes Intf) (laws : IsWriter w wr) where
    -- `EncodeMsg` writes an array of four: the tag, the time, the record, and the options or a nil.
    pub message_encode_msg_lem :
        (m : Message Intf) → IsMessage w m → Emits (message_encode_msg wr m) (message_wire w m)
    unfolding message_encode_msg
    message_encode_msg_lem m h = headed _ _ _ (laws.append (0x94 ∷ [])) (
        four _ _ _ _ (w.string m.tag) (w.int m.timestamp) (w.intf m.event) (tail_wire w m.options)
          (Emits-wrap _ _ _ (laws.string m.tag h.tag_short))
          (Emits-wrap _ _ _ (laws.int64 m.timestamp h.time))
          (Emits-wrap _ _ _ (laws.intf m.event h.plain))
          (encode_tail_lem w fmt wr laws m.options h.tail))

    pub message_ext_encode_msg_lem :
        (m : MessageExt Intf)
        → IsMessageExt w m
        → Emits (message_ext_encode_msg wr m) (message_ext_wire w m)
    unfolding message_ext_encode_msg
    message_ext_encode_msg_lem m h = headed _ _ _ (laws.append (0x94 ∷ [])) (
        four _ _ _ _ (w.string m.tag) (event_time_wire w m.timestamp) (w.intf m.event)
          (tail_wire w m.options) (Emits-wrap _ _ _ (laws.string m.tag h.tag_short))
          (Emits-wrap _ _ _ (laws.extension 0 _ (marshal_binary_to-IsShort m.timestamp)))
          (Emits-wrap _ _ _ (laws.intf m.event h.plain))
          (encode_tail_lem w fmt wr laws m.options h.tail))

  module _ (ap : Appends Intf) (laws : IsAppender w ap) where
    pub message_marshal_msg_lem :
        (m : Message Intf) → IsMessage w m → Emits (message_marshal_msg ap m) (message_wire w m)
    unfolding message_marshal_msg
    message_marshal_msg_lem m h = headed _ _ _ (Emits-literal (0x94 ∷ [])) (
        four _ _ _ _ (w.string m.tag) (w.int m.timestamp) (w.intf m.event) (tail_wire w m.options)
          (laws.string m.tag h.tag_short) (laws.int64 m.timestamp h.time)
          (Emits-wrap _ _ _ (laws.intf m.event h.plain))
          (marshal_tail_lem w fmt ap laws m.options h.tail))

    pub message_ext_marshal_msg_lem :
        (m : MessageExt Intf)
        → IsMessageExt w m
        → Emits (message_ext_marshal_msg ap m) (message_ext_wire w m)
    unfolding message_ext_marshal_msg
    message_ext_marshal_msg_lem m h = headed _ _ _ (Emits-literal (0x94 ∷ [])) (
        four _ _ _ _ (w.string m.tag) (event_time_wire w m.timestamp) (w.intf m.event)
          (tail_wire w m.options) (laws.string m.tag h.tag_short)
          (Emits-wrap _ _ _ (laws.extension 0 _ (marshal_binary_to-IsShort m.timestamp)))
          (Emits-wrap _ _ _ (laws.intf m.event h.plain))
          (marshal_tail_lem w fmt ap laws m.options h.tail))
