-- ===== src/Protocol/EventTime/Binary.antt =====
-- The eight bytes of a timestamp, written and read.
use fluent_forward_go.Common.{
  ℕ, ◌+◌, ◌*◌, ◌/◌, ◌%◌, ◌^◌, ◌<◌, ◌≡◌, ap, ◌∙◌, append-nil, Option, none, some, [], ◌∷◌, ◌++◌,
  length, All, Bytes, ℤ, pos, negsuc, to_u32, arith, ◌≢◌,
}
use mathlib.Core.Path.{ap₂}
use fluent_forward_go.Msgp.Errors.{Error, text}
use fluent_forward_go.Msgp.Get.{Takes, Takes-read, Takes-bind, Takes-eq, read}
use fluent_forward_go.Msgp.Format.{Wire, Reads, IsReader, IsShort}
use fluent_forward_go.Protocol.EventTime.{
  EventTime, time_unix, assign_time, put_uint32, uint32, marshal_binary_to, unmarshal_binary,
  IsSeconds, IsEventTime, read_event_time, unmarshal_time, event_time_wire, extension_type,
}

uint32-put_uint32 : (n : ℕ) (more : Bytes) → n < 2 ^ 32 → uint32 (put_uint32 n ++ more) ≡ n
uint32-put_uint32 n more h = omega arith

to_u32-lt : (i : ℤ) → to_u32 i < 2 ^ 32
to_u32-lt (pos n) = omega arith
to_u32-lt (negsuc n) = omega arith

time_unix-below : (s n : ℕ) → n < 10 ^ 9 → time_unix s n ≡ record { unix = pos s; nanosecond = n }
time_unix-below s n h = λ i. record { unix = pos (seconds i); nanosecond = nanoseconds i }
  where
    seconds : s + n / 10 ^ 9 ≡ s
    seconds = omega arith

    nanoseconds : n % 10 ^ 9 ≡ n
    nanoseconds = omega arith

-- UnmarshalBinary of what MarshalBinaryTo wrote gives the nanoseconds unchanged and the seconds
-- modulo 2 ^ 32, for seconds of any size and sign, nanoseconds below a second and any receiver.
pub unmarshal_binary-marshal_binary_to :
    (et old : EventTime)
    → et.nanosecond < 10 ^ 9
    → unmarshal_binary (marshal_binary_to et) old
      ≡ (record { unix = pos (to_u32 et.unix); nanosecond = et.nanosecond }, none)
unfolding unmarshal_binary marshal_binary_to
unmarshal_binary-marshal_binary_to et old h =
    ap (λ (t : EventTime). let r : EventTime × Option Error = (t, none) in r)
      (ap₂ time_unix (uint32-put_uint32 (to_u32 et.unix) [] (to_u32-lt et.unix)) nanoseconds
        ∙ time_unix-below (to_u32 et.unix) et.nanosecond h)
  where
    nanoseconds : uint32 (put_uint32 (et.nanosecond % 2 ^ 32)) ≡ et.nanosecond
    nanoseconds = omega arith

-- UnmarshalBinary refuses a payload that has not eight bytes, and the receiver keeps its time.
unmarshal_binary-length :
    (payload : Bytes) (old : EventTime)
    → length payload ≢ 8
    → unmarshal_binary payload old ≡ (old, some (text "Invalid length"))
unfolding unmarshal_binary
unmarshal_binary-length payload old h = ground arith

pub seconds_lem : (i : ℤ) → IsSeconds i → pos (to_u32 i) ≡ i
seconds_lem (pos n) h = ap pos (omega arith)
seconds_lem (negsuc n) h = absurd h

-- In range the timestamp itself comes back.
pub unmarshal_binary-marshal_binary_to_id :
    (et old : EventTime) → IsEventTime et → unmarshal_binary (marshal_binary_to et) old ≡ (et, none)
unmarshal_binary-marshal_binary_to_id et old h =
    unmarshal_binary-marshal_binary_to et old h.nanoseconds
    ∙ ap (λ (i : ℤ). let r : EventTime × Option Error = (record et { unix = i }, none) in r)
        (seconds_lem et.unix h.seconds)

-- The number that bytes are, the first of them the highest, behind `n`.
abbrev pub big_endian : ℕ → Bytes → ℕ
big_endian n [] = n
big_endian n (b ∷ bs) = big_endian (n * 256 + b) bs

-- For any time, MarshalBinaryTo writes eight numbers below 256: as one big-endian number, the seconds
-- modulo 2 ^ 32 above the nanoseconds modulo 2 ^ 32.
pub marshal_binary_to-big_endian :
    (et : EventTime)
    → (length (marshal_binary_to et) ≡ 8)
      × All (λ (b : ℕ). b < 256) (marshal_binary_to et)
      × (big_endian 0 (marshal_binary_to et) ≡ to_u32 et.unix * 2 ^ 32 + et.nanosecond % 2 ^ 32)
unfolding marshal_binary_to
marshal_binary_to-big_endian et = (omega arith, omega arith, omega (arith, to_u32-lt et.unix))

pub marshal_binary_to-IsShort : (et : EventTime) → IsShort (marshal_binary_to et)
marshal_binary_to-IsShort et = omega (arith, (marshal_binary_to-big_endian et).0)

module _ {Intf R : Type 0} (w : Wire Intf) (rd : Reads Intf) (laws : IsReader w rd) where
  module _ (get : R → EventTime) (put : EventTime → R → R) where
    unmarshal_time_lem :
        (et : EventTime) (r : R)
        → IsEventTime et
        → Takes (unmarshal_time get put (marshal_binary_to et)) [] r tt (put et r)
    unmarshal_time_lem et r h rest =
        ap (λ t. assign_time get put t r rest) (unmarshal_binary-marshal_binary_to_id et (get r) h)

    pub read_event_time_lem :
        (et : EventTime) (r : R)
        → IsEventTime et
        → Takes (read_event_time get put rd) (event_time_wire w et) r tt (put et r)
    read_event_time_lem et r h =
        Takes-eq (read_event_time get put rd) (append-nil (event_time_wire w et)) (
          Takes-bind (read (rd.read_extension extension_type)) (unmarshal_time get put)
            (event_time_wire w et) []
            (Takes-read (rd.read_extension extension_type) (event_time_wire w et) r
              (laws.extension extension_type (marshal_binary_to et) (marshal_binary_to-IsShort et)))
            (unmarshal_time_lem et r h))
