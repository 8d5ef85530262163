-- ===== src/Protocol/EventTime/Codec.antt =====
-- The generated methods of `EventTime` in fluent/protocol/transport_gen.go, which write it as a map of
-- its embedded time. The messages use the extension of `Protocol.EventTime` instead.
use fluent_forward_go.Common.{
  ◌<◌, ◌^◌, IsInt64, ℕ, ◌+◌, ◌≡◌, refl, sym, ap, [], ◌∷◌, ◌++◌, append_assoc, arith, if◌then◌else◌,
  Bytes, same, codes, IsInt64,
}
use fluent_forward_go.Msgp.Errors.{name}
use fluent_forward_go.Msgp.Put.{
  Put, ◌>>◌, total, literal, wrap, Writes, Emits, Emits-seq, Emits-wrap, Emits-literal, Emits-eq,
}
use fluent_forward_go.Msgp.Get
use fluent_forward_go.Msgp.Get.{
  Get, Read, read_into, nil_on_error, nil_outcome, act, Takes, Takes-eq, Takes-into,
}
use fluent_forward_go.Msgp.Format.{Wire, Reads, IsFormat, IsWriter, IsReader, Delivers}
use fluent_forward_go.Msgp.Fields.{read_map, last_field, map_lem}
use fluent_forward_go.Protocol.EventTime.{EventTime}
use fluent_forward_go.Protocol.RoundTrip.{RoundTrips, round_trips}

-- A map of one field, and its key.
abbrev key_time : Bytes
key_time = 0x81 ∷ 0xa4 ∷ 0x54 ∷ 0x69 ∷ 0x6d ∷ 0x65 ∷ []

-- `Msgsize`, with the package's size of a time.
unfoldable pub event_time_msgsize : ℕ → ℕ
event_time_msgsize time_size = 1 + 5 + time_size

-- `WriteTime` of a writer, `msgp.AppendTime`, and `ReadTime` of a reader or `msgp.ReadTimeBytes`.
pub record Times : Type 0 where
  pub write_time : EventTime → Put
  pub append_time : EventTime → Bytes → Bytes
  pub read_time : Read EventTime

unfoldable pub event_time_marshal_msg : Times → EventTime → Put
event_time_marshal_msg times z = literal key_time >> total (times.append_time z)

module _ {Intf : Type 0} where
  unfoldable pub event_time_encode_msg : Writes Intf → Times → EventTime → Put
  event_time_encode_msg wr times z =
      wr.append key_time >> wrap (name "Time" ∷ []) (times.write_time z)

  module _ (rd : Reads Intf) (times : Times) where
    abbrev pub read_time_field : Bytes → Get EventTime (Unit {0})
    read_time_field key =
        if same key (codes "Time")
        then Get.wrap (name "Time" ∷ []) (read_into times.read_time (λ t z. t))
        else Get.wrap [] (act rd.skip)

    unfoldable pub event_time_decode_msg : Get EventTime (Unit {0})
    event_time_decode_msg = read_map rd [] read_time_field

    unfoldable pub event_time_unmarshal_msg : Get EventTime (Unit {0})
    event_time_unmarshal_msg = nil_on_error (read_map rd [] read_time_field)

-- A time is written as `bytes` of it, and read back, where its seconds fit 64 bits and its
-- nanoseconds are below a second.
pub record IsTimes (bytes : EventTime → Bytes) (times : Times) : Type 0 where
  pub written :
      (t : EventTime)
      → IsInt64 t.unix
      → t.nanosecond < 10 ^ 9
      → Emits (times.write_time t) (bytes t)
  pub appended :
      (t : EventTime)
      → IsInt64 t.unix
      → t.nanosecond < 10 ^ 9
      → Emits (total (times.append_time t)) (bytes t)
  pub delivered :
      (t : EventTime)
      → IsInt64 t.unix
      → t.nanosecond < 10 ^ 9
      → Delivers times.read_time (bytes t) t

module _ {Intf : Type 0} (w : Wire Intf) (fmt : IsFormat w) (rd : Reads Intf)
    (rlaws : IsReader w rd) (wr : Writes Intf) (wlaws : IsWriter w wr) where
  module _ (bytes : EventTime → Bytes) (times : Times) (tlaws : IsTimes bytes times) where
    event_time_map : EventTime → Bytes
    event_time_map z = (w.map_header 1 ++ w.string (codes "Time")) ++ bytes z

    key_time_lem : key_time ≡ w.map_header 1 ++ w.string (codes "Time")
    key_time_lem =
        sym (rw (fmt.fix_map 1 (omega arith), fmt.fix_string (codes "Time") (omega arith)) refl)

    module _ (z r : EventTime) (seconds : IsInt64 z.unix) (below : z.nanosecond < 10 ^ 9) where
      encode_lem : Emits (event_time_encode_msg wr times z) (event_time_map z)
      unfolding event_time_encode_msg event_time_map
      encode_lem =
          Emits-seq _ _ _ _ (Emits-eq _ key_time_lem (wlaws.append key_time))
            (Emits-wrap _ _ _ (tlaws.written z seconds below))

      marshal_lem : Emits (event_time_marshal_msg times z) (event_time_map z)
      unfolding event_time_marshal_msg event_time_map
      marshal_lem =
          Emits-seq _ _ _ _ (Emits-eq _ key_time_lem (Emits-literal key_time))
            (tlaws.appended z seconds below)

      decode_lem : Takes (event_time_decode_msg rd times) (event_time_map z) r tt z
      unfolding event_time_decode_msg event_time_map same
      decode_lem =
          Takes-eq (event_time_decode_msg rd times)
            (sym (append_assoc (w.map_header 1) (w.string (codes "Time")) (bytes z)))
            (map_lem w rd rlaws [] (read_time_field rd times) 1 _ r z (omega arith) (
              last_field w rd rlaws [] (read_time_field rd times) (codes "Time") (bytes z) r z
                (omega arith)
                (Takes-into _ times.read_time (λ t z. t) (bytes z) r
                  (tlaws.delivered z seconds below))))

      unmarshal_lem : Takes (event_time_unmarshal_msg rd times) (event_time_map z) r tt z
      unfolding event_time_unmarshal_msg event_time_decode_msg
      unmarshal_lem rest = ap nil_outcome (decode_lem rest)

      -- From the bytes of either writer, either reader takes the time whole.
      pub event_time_round_trip :
          RoundTrips
            (event_time_marshal_msg times z)
            (event_time_encode_msg wr times z)
            (event_time_unmarshal_msg rd times)
            (event_time_decode_msg rd times)
            r
            z
      event_time_round_trip =
          round_trips _ _ (event_time_unmarshal_msg rd times) (event_time_decode_msg rd times)
            (event_time_map z) r z marshal_lem encode_lem unmarshal_lem decode_lem
