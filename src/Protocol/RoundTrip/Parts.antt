-- ===== src/Protocol/RoundTrip/Parts.antt =====
-- Round trips of the entries of a message, and of the ack.
use fluent_forward_go.Msgp.Put.{Writes, Appends}
use fluent_forward_go.Msgp.Format.{Wire, Reads, IsShort, IsFormat, IsWriter, IsAppender, IsReader}
use fluent_forward_go.Protocol.Entries.{
  EntryExt, Entry, IsEntryExt, IsEntry, entry_ext_wire, entry_wire,
}
use fluent_forward_go.Protocol.Entries.Write.{
  entry_ext_encode_msg, entry_ext_marshal_msg, entry_encode_msg, entry_marshal_msg,
  entry_ext_encode_msg_lem, entry_ext_marshal_msg_lem, entry_encode_msg_lem, entry_marshal_msg_lem,
}
use fluent_forward_go.Protocol.Entries.Read.{
  entry_ext_decode_msg, entry_ext_unmarshal_msg, entry_decode_msg, entry_unmarshal_msg,
  entry_ext_decode_msg_lem, entry_ext_unmarshal_msg_lem, entry_decode_msg_lem,
  entry_unmarshal_msg_lem,
}
use fluent_forward_go.Protocol.Ack.{
  AckMessage, ack_wire, ack_encode_msg, ack_marshal_msg, ack_encode_msg_lem, ack_marshal_msg_lem,
}
use fluent_forward_go.Protocol.Ack.Read.{
  ack_decode_msg, ack_unmarshal_msg, ack_decode_msg_lem, ack_unmarshal_msg_lem,
}
use fluent_forward_go.Protocol.RoundTrip.{RoundTrips, round_trips}

module _ {Intf : Type 0} (w : Wire Intf) (fmt : IsFormat w) (rd : Reads Intf)
    (rlaws : IsReader w rd) where
  module _ (wr : Writes Intf) (wlaws : IsWriter w wr) (ap : Appends Intf)
      (alaws : IsAppender w ap) where
    -- For an EntryExt with a timestamp of 32 bits of seconds with nanoseconds below a second, and a
    -- record that the package reads back as written, MarshalMsg and EncodeMsg write the same bytes,
    -- and from any receiver UnmarshalMsg and DecodeMsg read all of these bytes, without an error,
    -- and leave the same value. The package of the codec obeys the laws of Msgp.Format.
    pub entry_ext_round_trip :
        (e r : EntryExt Intf)
        → IsEntryExt w e
        → RoundTrips
            (entry_ext_marshal_msg ap e)
            (entry_ext_encode_msg wr e)
            (entry_ext_unmarshal_msg rd)
            (entry_ext_decode_msg rd)
            r
            e
    entry_ext_round_trip e r h =
        round_trips _ _ (entry_ext_unmarshal_msg rd) (entry_ext_decode_msg rd) (entry_ext_wire w e)
          r e (entry_ext_marshal_msg_lem w fmt ap alaws e h)
          (entry_ext_encode_msg_lem w fmt wr wlaws e h)
          (entry_ext_unmarshal_msg_lem w rd rlaws e r h) (entry_ext_decode_msg_lem w rd rlaws e r h)

    -- For an Entry with a timestamp of 64 bits and a record that the package reads back as written,
    -- MarshalMsg and EncodeMsg write the same bytes, and from any receiver UnmarshalMsg and
    -- DecodeMsg read all of these bytes, without an error, and leave the same value. The package of
    -- the codec obeys the laws of Msgp.Format.
    pub entry_round_trip :
        (e r : Entry Intf)
        → IsEntry w e
        → RoundTrips
            (entry_marshal_msg ap e)
            (entry_encode_msg wr e)
            (entry_unmarshal_msg rd)
            (entry_decode_msg rd)
            r
            e
    entry_round_trip e r h =
        round_trips _ _ (entry_unmarshal_msg rd) (entry_decode_msg rd) (entry_wire w e) r e
          (entry_marshal_msg_lem w fmt ap alaws e h) (entry_encode_msg_lem w fmt wr wlaws e h)
          (entry_unmarshal_msg_lem w rd rlaws e r h) (entry_decode_msg_lem w rd rlaws e r h)

    -- For an AckMessage with a string that fits the lengths of the format, MarshalMsg and EncodeMsg
    -- write the same bytes, and from any receiver UnmarshalMsg and DecodeMsg read all of these
    -- bytes, without an error, and leave the same value. The package of the codec obeys the laws of
    -- Msgp.Format.
    pub ack_round_trip :
        (m r : AckMessage)
        → IsShort m.ack
        → RoundTrips
            (ack_marshal_msg ap m)
            (ack_encode_msg wr m)
            (ack_unmarshal_msg rd)
            (ack_decode_msg rd)
            r
            m
    ack_round_trip m r h =
        round_trips _ _ (ack_unmarshal_msg rd) (ack_decode_msg rd) (ack_wire w m) r m
          (ack_marshal_msg_lem w fmt ap alaws m h) (ack_encode_msg_lem w fmt wr wlaws m h)
          (ack_unmarshal_msg_lem w rd rlaws m r h) (ack_decode_msg_lem w rd rlaws m r h)
