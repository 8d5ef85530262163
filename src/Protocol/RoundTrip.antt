-- ===== src/Protocol/RoundTrip.antt =====
-- The four messages and the list of entries: what `MarshalMsg` and `EncodeMsg` write, `UnmarshalMsg` and
-- `DecodeMsg` read back, and `GetChunk` finds the chunk option in it.
pub mod Parts
pub mod Handshake
use fluent_forward_go.Common.{◌≡◌, [], append-nil, Bytes}
use fluent_forward_go.Msgp.Put.{wrote, Put, Writes, Appends, Emits}
use fluent_forward_go.Msgp.Get.{done, Get, Takes}
use fluent_forward_go.Msgp.Format.{Wire, Reads, IsFormat, IsWriter, IsAppender, IsReader}
use fluent_forward_go.Protocol.Options.{MessageOptions, IsOptions, options_wire}
use fluent_forward_go.Protocol.Options.Write.{
  encode_msg, marshal_msg, encode_msg_lem, marshal_msg_lem,
}
use fluent_forward_go.Protocol.Options.Read.{
  decode_msg, unmarshal_msg, decode_msg_lem, unmarshal_msg_lem, merged,
}
use fluent_forward_go.Protocol.Message.{
  Message, MessageExt, message_wire, message_ext_wire, IsMessage, IsMessageExt,
}
use fluent_forward_go.Protocol.Message.Write.{
  message_encode_msg, message_marshal_msg, message_ext_encode_msg, message_ext_marshal_msg,
  message_encode_msg_lem, message_marshal_msg_lem, message_ext_encode_msg_lem,
  message_ext_marshal_msg_lem,
}
use fluent_forward_go.Protocol.Message.Read.{
  message_decode_msg, message_unmarshal_msg, message_over, message_decode_msg_lem,
  message_unmarshal_msg_lem,
}
use fluent_forward_go.Protocol.Message.Read.Ext.{
  message_ext_decode_msg, message_ext_unmarshal_msg, message_ext_over, message_ext_decode_msg_lem,
  message_ext_unmarshal_msg_lem,
}
use fluent_forward_go.Protocol.Forward.{ForwardMessage, forward_wire, IsForward}
use fluent_forward_go.Protocol.Forward.Write.{
  forward_encode_msg, forward_marshal_msg, forward_encode_msg_lem, forward_marshal_msg_lem,
}
use fluent_forward_go.Protocol.Forward.Read.{
  forward_decode_msg, forward_unmarshal_msg, forward_over, forward_decode_msg_lem,
  forward_unmarshal_msg_lem,
}
use fluent_forward_go.Protocol.PackedForward.{PackedForwardMessage, packed_wire, IsPacked}
use fluent_forward_go.Protocol.PackedForward.Write.{
  packed_encode_msg, packed_marshal_msg, packed_encode_msg_lem, packed_marshal_msg_lem,
}
use fluent_forward_go.Protocol.PackedForward.Read.{
  packed_decode_msg, packed_unmarshal_msg, packed_over, packed_decode_msg_lem,
  packed_unmarshal_msg_lem,
}

-- Both writers write `bs`, and both readers, from the object `r`, take all of it and end with `r'`.
abbrev pub RoundTrips :
    {R : Type 0} → Put → Put → Get R (Unit {0}) → Get R (Unit {0}) → R → R → Type 0
RoundTrips marshal encode unmarshal decode r r' =
    (bs : Bytes) × (marshal [] ≡ wrote bs)
    × (encode [] ≡ wrote bs)
    × (unmarshal r bs ≡ done tt r' [])
    × (decode r bs ≡ done tt r' [])

pub round_trips :
    {R : Type 0} (marshal encode : Put) (unmarshal decode : Get R (Unit {0})) (bs : Bytes)
    (r r' : R)
    → Emits marshal bs
    → Emits encode bs
    → Takes unmarshal bs r tt r'
    → Takes decode bs r tt r'
    → RoundTrips marshal encode unmarshal decode r r'
round_trips marshal encode unmarshal decode bs r r' hm he hu hd =
    (bs, hm [], he [], rw (append-nil bs) at (hu []), rw (append-nil bs) at (hd []))

module _ {Intf : Type 0} (w : Wire Intf) (fmt : IsFormat w) (rd : Reads Intf)
    (rlaws : IsReader w rd) where
  module _ (wr : Writes Intf) (wlaws : IsWriter w wr) (ap : Appends Intf)
      (alaws : IsAppender w ap) where
    -- For options whose size fits 64 bits and whose strings fit the lengths of the format,
    -- MarshalMsg and EncodeMsg write the same bytes, and from any receiver UnmarshalMsg and
    -- DecodeMsg read all of these bytes, without an error: they set the fields that are not empty,
    -- and keep the rest of the receiver. The package of the codec obeys the laws of Msgp.Format.
    pub options_round_trip :
        (z r : MessageOptions)
        → IsOptions z
        → RoundTrips
            (marshal_msg ap z)
            (encode_msg wr z)
            (unmarshal_msg rd)
            (decode_msg rd)
            r
            (merged r z)
    options_round_trip z r h =
        round_trips _ _ (unmarshal_msg rd) (decode_msg rd) (options_wire w z) r (merged r z)
          (marshal_msg_lem w fmt ap alaws z h) (encode_msg_lem w fmt wr wlaws z h)
          (unmarshal_msg_lem w rd rlaws z r h) (decode_msg_lem w rd rlaws z r h)

    -- For a Message with a tag and options that fit the lengths of the format, a timestamp of 64
    -- bits and a record that the package reads back as written, MarshalMsg and EncodeMsg write the
    -- same bytes, and from any receiver UnmarshalMsg and DecodeMsg read all of these bytes, without
    -- an error, and leave the message in it, where options that are absent leave those that the
    -- receiver had. The package of the codec obeys the laws of Msgp.Format.
    pub message_round_trip :
        (m r : Message Intf)
        → IsMessage w m
        → RoundTrips
            (message_marshal_msg ap m)
            (message_encode_msg wr m)
            (message_unmarshal_msg rd)
            (message_decode_msg rd)
            r
            (message_over m r)
    message_round_trip m r h =
        round_trips _ _ (message_unmarshal_msg rd) (message_decode_msg rd) (message_wire w m) r
          (message_over m r) (message_marshal_msg_lem w fmt ap alaws m h)
          (message_encode_msg_lem w fmt wr wlaws m h) (message_unmarshal_msg_lem w rd rlaws m r h)
          (message_decode_msg_lem w rd rlaws m r h)

    -- For a MessageExt with a tag and options that fit the lengths of the format, a timestamp of 32
    -- bits of seconds with nanoseconds below a second, and a record that the package reads back as
    -- written, MarshalMsg and EncodeMsg write the same bytes, and from any receiver UnmarshalMsg
    -- and DecodeMsg read all of these bytes, without an error, and leave the message in it, where
    -- options that are absent leave those that the receiver had. The package of the codec obeys the
    -- laws of Msgp.Format.
    pub message_ext_round_trip :
        (m r : MessageExt Intf)
        → IsMessageExt w m
        → RoundTrips
            (message_ext_marshal_msg ap m)
            (message_ext_encode_msg wr m)
            (message_ext_unmarshal_msg rd)
            (message_ext_decode_msg rd)
            r
            (message_ext_over m r)
    message_ext_round_trip m r h =
        round_trips _ _ (message_ext_unmarshal_msg rd) (message_ext_decode_msg rd)
          (message_ext_wire w m) r (message_ext_over m r)
          (message_ext_marshal_msg_lem w fmt ap alaws m h)
          (message_ext_encode_msg_lem w fmt wr wlaws m h)
          (message_ext_unmarshal_msg_lem w rd rlaws m r h)
          (message_ext_decode_msg_lem w rd rlaws m r h)

    -- For a ForwardMessage with a tag, entries and options that fit the lengths of the format,
    -- timestamps of 32 bits of seconds with nanoseconds below a second, and records that the
    -- package reads back as written, MarshalMsg and EncodeMsg write the same bytes, and from any
    -- receiver UnmarshalMsg and DecodeMsg read all of these bytes, without an error, and leave the
    -- message in it with all its entries in their order, where options that are absent leave those
    -- that the receiver had. The package of the codec obeys the laws of Msgp.Format.
    pub forward_round_trip :
        (nil_record : Intf) (m r : ForwardMessage Intf)
        → IsForward w m
        → RoundTrips
            (forward_marshal_msg ap m)
            (forward_encode_msg wr m)
            (forward_unmarshal_msg rd nil_record)
            (forward_decode_msg rd nil_record)
            r
            (forward_over m r)
    forward_round_trip nil_record m r h =
        round_trips _ _ (forward_unmarshal_msg rd nil_record) (forward_decode_msg rd nil_record)
          (forward_wire w m) r (forward_over m r) (forward_marshal_msg_lem w fmt ap alaws m h)
          (forward_encode_msg_lem w fmt wr wlaws m h)
          (forward_unmarshal_msg_lem w rd rlaws nil_record m r h)
          (forward_decode_msg_lem w rd rlaws nil_record m r h)

    -- For a PackedForwardMessage with a tag, a stream and options that fit the lengths of the
    -- format, MarshalMsg and EncodeMsg write the same bytes, and from any receiver UnmarshalMsg and
    -- DecodeMsg read all of these bytes, without an error, and leave the message in it, where
    -- options that are absent leave those that the receiver had. The package of the codec obeys the
    -- laws of Msgp.Format.
    pub packed_round_trip :
        (m r : PackedForwardMessage)
        → IsPacked m
        → RoundTrips
            (packed_marshal_msg ap m)
            (packed_encode_msg wr m)
            (packed_unmarshal_msg rd)
            (packed_decode_msg rd)
            r
            (packed_over m r)
    packed_round_trip m r h =
        round_trips _ _ (packed_unmarshal_msg rd) (packed_decode_msg rd) (packed_wire w m) r
          (packed_over m r) (packed_marshal_msg_lem w fmt ap alaws m h)
          (packed_encode_msg_lem w fmt wr wlaws m h) (packed_unmarshal_msg_lem w rd rlaws m r h)
          (packed_decode_msg_lem w rd rlaws m r h)
