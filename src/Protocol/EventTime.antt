-- ===== src/Protocol/EventTime.antt =====
-- `EventTime` of fluent/protocol/transport.go: a timestamp as a MessagePack extension of eight bytes.
pub mod Binary
pub mod Codec
use fluent_forward_go.Common.{
  ℕ, ◌+◌, ◌*◌, ◌/◌, ◌%◌, ◌^◌, ◌<◌, Option, none, some, [], ◌∷◌, ◌++◌, length, Bytes, ◌==◌,
  if◌then◌else◌, ℤ, pos, negsuc, to_u32,
}
use fluent_forward_go.Msgp.Errors.{Error, text}
use fluent_forward_go.Msgp.Put.{Put, Writes, Appends}
use fluent_forward_go.Msgp.Get.{Get, read, stepped, ◌>>=◌}
use fluent_forward_go.Msgp.Format.{Wire, Reads}

-- The embedded `time.Time`, as `Unix()` and `Nanosecond()` show it.
pub record EventTime : Type 0 where
  pub unix : ℤ
  pub nanosecond : ℕ

abbrev pub zero_time : EventTime
zero_time = record { unix = negsuc 62135596799; nanosecond = 0 }

abbrev pub extension_type : ℕ
extension_type = 0

abbrev pub event_time_len : ℕ
event_time_len = 8

-- `binary.BigEndian.PutUint32`
abbrev pub put_uint32 : ℕ → Bytes
put_uint32 n = (n / 2 ^ 24 % 256) ∷ (n / 2 ^ 16 % 256) ∷ (n / 2 ^ 8 % 256) ∷ (n % 256) ∷ []

-- `binary.BigEndian.Uint32`, which panics on fewer than four bytes; the caller has checked for eight.
abbrev pub uint32 : Bytes → ℕ
uint32 (a ∷ b ∷ c ∷ d ∷ _) = a * 2 ^ 24 + b * 2 ^ 16 + c * 2 ^ 8 + d
uint32 _ = 0

-- `b[4:]`
abbrev pub from_fourth : Bytes → Bytes
from_fourth (_ ∷ _ ∷ _ ∷ _ ∷ more) = more
from_fourth _ = []

-- `time.Unix(sec, nsec)`: nanoseconds of a second or more are carried over.
abbrev pub time_unix : ℕ → ℕ → EventTime
time_unix sec nsec = record { unix = pos (sec + nsec / 10 ^ 9); nanosecond = nsec % 10 ^ 9 }

-- The eight bytes that are written into the slice.
unfoldable pub marshal_binary_to : EventTime → Bytes
marshal_binary_to et = put_uint32 (to_u32 et.unix) ++ put_uint32 (et.nanosecond % 2 ^ 32)

-- The receiver after the call, and the error.
unfoldable pub unmarshal_binary : Bytes → EventTime → EventTime × Option Error
unmarshal_binary time_bytes et =
    if length time_bytes == event_time_len
    then (time_unix (uint32 time_bytes) (uint32 (from_fourth time_bytes)), none)
    else (et, some (text "Invalid length"))

-- `WriteExtension(&t)` and `AppendExtension(o, &t)`, which call `MarshalBinaryTo`.
module _ {Intf : Type 0} where
  abbrev pub write_event_time : Writes Intf → EventTime → Put
  write_event_time wr et = wr.write_extension extension_type (marshal_binary_to et)

  abbrev pub append_event_time : Appends Intf → EventTime → Put
  append_event_time ap et = ap.append_extension extension_type (marshal_binary_to et)

-- `ReadExtension(&r.t)` and `ReadExtensionBytes(bits, &r.t)`, which call `UnmarshalBinary`.
module _ {R : Type 0} (get : R → EventTime) (put : EventTime → R → R) where
  abbrev pub assign_time : EventTime × Option Error → Get R (Unit {0})
  assign_time (et, e) r bs = stepped (put et r) (bs, e)

  abbrev pub unmarshal_time : Bytes → Get R (Unit {0})
  unmarshal_time payload r bs = assign_time (unmarshal_binary payload (get r)) r bs

  abbrev pub read_event_time : {Intf : Type 0} → Reads Intf → Get R (Unit {0})
  read_event_time rd = read (rd.read_extension extension_type) >>= unmarshal_time

-- The extension object of a timestamp.
abbrev pub event_time_wire : {Intf : Type 0} → Wire Intf → EventTime → Bytes
event_time_wire w et = w.extension extension_type (marshal_binary_to et)

-- From 1970 on and before February 2106, as a `time.Time` shows it.
abbrev pub IsSeconds : ℤ → Type 0
IsSeconds (pos n) = n < 2 ^ 32
IsSeconds (negsuc n) = ⊥

pub record IsEventTime (et : EventTime) : Type 0 where
  pub seconds : IsSeconds et.unix
  pub nanoseconds : et.nanosecond < 10 ^ 9
