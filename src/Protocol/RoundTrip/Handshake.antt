-- ===== src/Protocol/RoundTrip/Handshake.antt =====
-- Round trips of the messages of the handshake.
use fluent_forward_go.Msgp.Put.{Writes, Appends}
use fluent_forward_go.Msgp.Format.{Wire, Reads, IsFormat, IsWriter, IsAppender, IsReader}
use fluent_forward_go.Protocol.Handshake.{HeloOpts, Helo, Ping, Pong}
use fluent_forward_go.Protocol.Handshake.Wire.{
  helo_opts_wire, helo_wire, ping_wire, pong_wire, IsHeloOpts, IsHelo, IsPing, IsPong,
}
use fluent_forward_go.Protocol.Handshake.Write.{
  helo_opts_encode_msg, helo_opts_marshal_msg, helo_encode_msg, helo_marshal_msg, ping_encode_msg,
  ping_marshal_msg, pong_encode_msg, pong_marshal_msg,
}
use fluent_forward_go.Protocol.Handshake.Write.Output.{
  helo_opts_encode_msg_lem, helo_opts_marshal_msg_lem, helo_encode_msg_lem, helo_marshal_msg_lem,
  ping_encode_msg_lem, ping_marshal_msg_lem, pong_encode_msg_lem, pong_marshal_msg_lem,
}
use fluent_forward_go.Protocol.Handshake.Read.{
  helo_opts_decode_msg, helo_opts_unmarshal_msg, helo_decode_msg, helo_unmarshal_msg,
  ping_decode_msg, ping_unmarshal_msg, pong_decode_msg, pong_unmarshal_msg,
}
use fluent_forward_go.Protocol.Handshake.Read.Input.{
  helo_opts_decode_msg_lem, helo_opts_unmarshal_msg_lem, helo_decode_msg_lem,
  helo_unmarshal_msg_lem,
}
use fluent_forward_go.Protocol.Handshake.Read.Exchange.{
  ping_decode_msg_lem, ping_unmarshal_msg_lem, pong_decode_msg_lem, pong_unmarshal_msg_lem,
}
use fluent_forward_go.Protocol.RoundTrip.{RoundTrips, round_trips}

module _ {Intf : Type 0} (w : Wire Intf) (fmt : IsFormat w) (rd : Reads Intf)
    (rlaws : IsReader w rd) where
  module _ (wr : Writes Intf) (wlaws : IsWriter w wr) (ap : Appends Intf)
      (alaws : IsAppender w ap) where
    pub helo_opts_round_trip :
        (z r : HeloOpts)
        → IsHeloOpts z
        → RoundTrips
            (helo_opts_marshal_msg ap z)
            (helo_opts_encode_msg wr z)
            (helo_opts_unmarshal_msg rd)
            (helo_opts_decode_msg rd)
            r
            z
    helo_opts_round_trip z r h =
        round_trips _ _ (helo_opts_unmarshal_msg rd) (helo_opts_decode_msg rd) (helo_opts_wire w z)
          r z (helo_opts_marshal_msg_lem w fmt ap alaws z h)
          (helo_opts_encode_msg_lem w fmt wr wlaws z h)
          (helo_opts_unmarshal_msg_lem w rd rlaws z r h) (helo_opts_decode_msg_lem w rd rlaws z r h)

    helo_round_trip :
        (z r : Helo)
        → IsHelo z
        → RoundTrips
            (helo_marshal_msg ap z)
            (helo_encode_msg wr z)
            (helo_unmarshal_msg rd)
            (helo_decode_msg rd)
            r
            z
    helo_round_trip z r h =
        round_trips _ _ (helo_unmarshal_msg rd) (helo_decode_msg rd) (helo_wire w z) r z
          (helo_marshal_msg_lem w fmt ap alaws z h) (helo_encode_msg_lem w fmt wr wlaws z h)
          (helo_unmarshal_msg_lem w rd rlaws z r h) (helo_decode_msg_lem w rd rlaws z r h)

    ping_round_trip :
        (z r : Ping)
        → IsPing z
        → RoundTrips
            (ping_marshal_msg ap z)
            (ping_encode_msg wr z)
            (ping_unmarshal_msg rd)
            (ping_decode_msg rd)
            r
            z
    ping_round_trip z r h =
        round_trips _ _ (ping_unmarshal_msg rd) (ping_decode_msg rd) (ping_wire w z) r z
          (ping_marshal_msg_lem w fmt ap alaws z h) (ping_encode_msg_lem w fmt wr wlaws z h)
          (ping_unmarshal_msg_lem w rd rlaws z r h) (ping_decode_msg_lem w rd rlaws z r h)

    pong_round_trip :
        (z r : Pong)
        → IsPong z
        → RoundTrips
            (pong_marshal_msg ap z)
            (pong_encode_msg wr z)
            (pong_unmarshal_msg rd)
            (pong_decode_msg rd)
            r
            z
    pong_round_trip z r h =
        round_trips _ _ (pong_unmarshal_msg rd) (pong_decode_msg rd) (pong_wire w z) r z
          (pong_marshal_msg_lem w fmt ap alaws z h) (pong_encode_msg_lem w fmt wr wlaws z h)
          (pong_unmarshal_msg_lem w rd rlaws z r h) (pong_decode_msg_lem w rd rlaws z r h)

    -- For a HELO, a PING and a PONG whose strings fit the lengths of the format, MarshalMsg and
    -- EncodeMsg write the same bytes, and from any receiver UnmarshalMsg and DecodeMsg read all of
    -- these bytes, without an error, and leave the same value. The package of the codec obeys the
    -- laws of Msgp.Format.
    pub handshake_round_trip :
        (helo helo' : Helo) (ping ping' : Ping) (pong pong' : Pong)
        → IsHelo helo
        → IsPing ping
        → IsPong pong
        → RoundTrips
            (helo_marshal_msg ap helo)
            (helo_encode_msg wr helo)
            (helo_unmarshal_msg rd)
            (helo_decode_msg rd)
            helo'
            helo
          × RoundTrips
              (ping_marshal_msg ap ping)
              (ping_encode_msg wr ping)
              (ping_unmarshal_msg rd)
              (ping_decode_msg rd)
              ping'
              ping
          × RoundTrips
              (pong_marshal_msg ap pong)
              (pong_encode_msg wr pong)
              (pong_unmarshal_msg rd)
              (pong_decode_msg rd)
              pong'
              pong
    handshake_round_trip helo helo' ping ping' pong pong' h i o =
        (helo_round_trip helo helo' h, ping_round_trip ping ping' i, pong_round_trip pong pong' o)
