-- ===== src/Protocol/Message/Read.antt =====
-- `DecodeMsg` and `UnmarshalMsg` of `Message` and `MessageExt`, in message.go.
pub mod Ext
use fluent_forward_go.Common.{◌-◌, Option, [], ◌∷◌, arith, Bytes, ℤ}
use fluent_forward_go.Msgp.Get.{
  Get, read_into, wrap, ◌>>=◌, ◌>>◌, Takes, Takes-into, Takes-fields₃, header, header_lem, last_if,
}
use fluent_forward_go.Msgp.Format.{Wire, Reads, IsReader}
use fluent_forward_go.Msgp.Errors.{name}
use fluent_forward_go.Protocol.Options.{MessageOptions}
use fluent_forward_go.Protocol.Tail.{tail_wire}
use fluent_forward_go.Protocol.Tail.Read.{
  decode_tail, unmarshal_tail, with_tail, decode_tail_lem, unmarshal_tail_lem,
}
use fluent_forward_go.Protocol.Message.{Message, message_wire, IsMessage}

module _ {Intf : Type 0} where
  abbrev pub put_options : Option MessageOptions → Message Intf → Message Intf
  put_options o m = record m { options = o }

  abbrev put_tag : Bytes → Message Intf → Message Intf
  put_tag s m = record m { tag = s }

  abbrev put_timestamp : ℤ → Message Intf → Message Intf
  put_timestamp t m = record m { timestamp = t }

  abbrev put_event : Intf → Message Intf → Message Intf
  put_event x m = record m { event = x }

  -- `r` once the message `m` has been read into it: where `m` has no options, those of `r` stay.
  abbrev pub message_over : Message Intf → Message Intf → Message Intf
  message_over m r = with_tail put_options m.options (record m { options = r.options })

  module _ (rd : Reads Intf) where
    abbrev read_tag : Get (Message Intf) (Unit {0})
    read_tag = wrap (name "Tag" ∷ []) (read_into rd.read_string put_tag)

    abbrev read_timestamp : Get (Message Intf) (Unit {0})
    read_timestamp = wrap (name "Timestamp" ∷ []) (read_into rd.read_int64 put_timestamp)

    abbrev read_record : Get (Message Intf) (Unit {0})
    read_record = wrap (name "Record" ∷ []) (read_into rd.read_intf put_event)

    unfoldable pub message_decode_msg : Get (Message Intf) (Unit {0})
    message_decode_msg = do
      sz ← header rd.read_array_header
      read_tag >> (read_timestamp >> (read_record >> last_if 4 (decode_tail put_options rd) sz))

    unfoldable pub message_unmarshal_msg : Get (Message Intf) (Unit {0})
    message_unmarshal_msg = do
      sz ← header rd.read_array_header
      read_tag >> (read_timestamp >> (read_record >> last_if 4 (unmarshal_tail put_options rd) sz))

  module _ (w : Wire Intf) (rd : Reads Intf) (laws : IsReader w rd) where
    fields_lem :
        (tail : Get (Message Intf) (Unit {0})) (m r s : Message Intf)
        → IsMessage w m
        → Takes tail (tail_wire w m.options) (record m { options = r.options }) tt s
        → Takes
            (header rd.read_array_header >>= λ sz.
              read_tag rd >> (read_timestamp rd >> (read_record rd >> last_if 4 tail sz)))
            (message_wire w m)
            r
            tt
            s
    fields_lem tail m r s h k =
        let r1 : Message Intf = put_tag m.tag r in
        let r2 : Message Intf = put_timestamp m.timestamp r1 in
        Takes-fields₃ (header rd.read_array_header) (read_tag rd) (read_timestamp rd)
          (read_record rd) (last_if 4 tail) (w.array_header 4) (w.string m.tag) (w.int m.timestamp)
          (w.intf m.event) (tail_wire w m.options) 4 r r1 r2 (put_event m.event r2) s
          (header_lem rd.read_array_header (w.array_header 4) 4 r
            (laws.array_header 4 (omega arith)))
          (Takes-into (name "Tag" ∷ []) rd.read_string put_tag (w.string m.tag) r
            (laws.string m.tag h.tag_short))
          (Takes-into (name "Timestamp" ∷ []) rd.read_int64 put_timestamp (w.int m.timestamp) r1
            (laws.int64 m.timestamp h.time))
          (Takes-into (name "Record" ∷ []) rd.read_intf put_event (w.intf m.event) r2
            (laws.intf m.event h.plain))
          k

    -- `DecodeMsg` and `UnmarshalMsg` take exactly the message, and leave what follows.
    pub message_decode_msg_lem :
        (m r : Message Intf)
        → IsMessage w m
        → Takes (message_decode_msg rd) (message_wire w m) r tt (message_over m r)
    unfolding message_decode_msg
    message_decode_msg_lem m r h =
        fields_lem (decode_tail put_options rd) m r (message_over m r) h (
          decode_tail_lem put_options rd w laws m.options (record m { options = r.options }) h.tail)

    pub message_unmarshal_msg_lem :
        (m r : Message Intf)
        → IsMessage w m
        → Takes (message_unmarshal_msg rd) (message_wire w m) r tt (message_over m r)
    unfolding message_unmarshal_msg
    message_unmarshal_msg_lem m r h =
        fields_lem (unmarshal_tail put_options rd) m r (message_over m r) h (
          unmarshal_tail_lem put_options rd w laws m.options (record m { options = r.options })
            h.tail)
