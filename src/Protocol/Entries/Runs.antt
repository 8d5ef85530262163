-- ===== src/Protocol/Entries/Runs.antt =====
-- The theorems on lists of entries, applied.
use fluent_forward_go.Protocol.Entries.{zero_time}
use fluent_forward_go.Protocol.Entries.Write.{entry_ext_encode_msg, entry_ext_marshal_msg}
use fluent_forward_go.Protocol.Entries.Read.{entry_ext_decode_msg, entry_ext_unmarshal_msg}
use fluent_forward_go.Protocol.Ack.{AckMessage, ack_encode_msg, ack_marshal_msg}
use fluent_forward_go.Protocol.Ack.Read.{ack_decode_msg, ack_unmarshal_msg}
use fluent_forward_go.Protocol.RoundTrip.{RoundTrips}
use fluent_forward_go.Protocol.RoundTrip.Parts.{entry_ext_round_trip, ack_round_trip}
use fluent_forward_go.Common.{
  ℕ, ◌∷◌, [], none, ℤ, pos, negsuc, arith, All, ◌≡◌, ◌≢◌, refl, Bool, true, ◌==◌, ==_iff, ◌↔◌,
  codes,
}
use fluent_forward_go.Msgp.Model.{wire, writes, appends}
use fluent_forward_go.Msgp.Model.Laws.{
  reads, wire-IsFormat, writes-IsWriter, reads-IsReader, reads-Consumes, appends-IsAppender,
}
use fluent_forward_go.Protocol.EventTime.{EventTime, IsEventTime}
use fluent_forward_go.Protocol.Entries.{EntryExt, EntryList, IsEntryExt}
use fluent_forward_go.Protocol.Entries.Packed.{
  marshal_packed, unmarshal_packed, unpacked, stuck, unmarshal_packed-marshal_packed,
  unmarshal_packed-ne-stuck,
}
use fluent_forward_go.Protocol.Entries.Equal.{
  matching, equal, AreDistinct, equal-AreDistinct, same_int,
}

abbrev a_time : EventTime
a_time = record { unix = pos 1700000000; nanosecond = 999999999 }

a_time-IsEventTime : IsEventTime a_time
a_time-IsEventTime = record { seconds = omega arith; nanoseconds = omega arith }

abbrev two_entries : EntryList ℕ
two_entries =
    record { timestamp = a_time; event = 7 } ∷ record { timestamp = a_time; event = 300 } ∷ []

an_entry-IsEntryExt : IsEntryExt wire (record { timestamp = a_time; event = 7 })
an_entry-IsEntryExt = record { time = a_time-IsEventTime; plain = refl }

two_entries-plain : All (IsEntryExt wire) two_entries
two_entries-plain = (an_entry-IsEntryExt, (record { time = a_time-IsEventTime; plain = refl }, tt))

unmarshal_packed-marshal_packed_example :
    unmarshal_packed reads 0 (marshal_packed writes two_entries).0 ≡ unpacked two_entries [] none
unmarshal_packed-marshal_packed_example =
    unmarshal_packed-marshal_packed wire wire-IsFormat reads reads-IsReader writes 0 two_entries
      writes-IsWriter two_entries-plain

unmarshal_packed-ne-stuck_example : unmarshal_packed reads 0 (0x92 ∷ 5 ∷ 0x91 ∷ []) ≢ stuck
unmarshal_packed-ne-stuck_example =
    unmarshal_packed-ne-stuck reads reads-Consumes 0 (0x92 ∷ 5 ∷ 0x91 ∷ [])

abbrev same_number : ℕ → ℕ → Bool
same_number a b = a == b

same_int_comm : (i j : ℤ) → same_int i j ≡ same_int j i
same_int_comm (pos m) (pos n) = ground arith
same_int_comm (pos m) (negsuc n) = refl
same_int_comm (negsuc m) (pos n) = refl
same_int_comm (negsuc m) (negsuc n) = ground arith

same_int_refl : (i : ℤ) → same_int i i ≡ true
same_int_refl (pos m) = ground arith
same_int_refl (negsuc m) = ground arith

matching_comm : (a b : EntryExt ℕ) → matching same_number a b ≡ matching same_number b a
matching_comm a b =
    rw
      (
        same_int_comm a.timestamp.unix b.timestamp.unix,
        ==_comm a.timestamp.nanosecond b.timestamp.nanosecond,
        ==_comm a.event b.event,
      )
      refl
  where
    ==_comm : (m n : ℕ) → (m == n) ≡ (n == m)
    ==_comm m n = ground arith

matching_refl : (a : EntryExt ℕ) → matching same_number a a ≡ true
matching_refl a =
    rw
      (
        same_int_refl a.timestamp.unix,
        (==_iff a.timestamp.nanosecond a.timestamp.nanosecond).1 refl,
        (==_iff a.event a.event).1 refl,
      )
      refl

equal-AreDistinct_example :
    (equal same_number two_entries two_entries ≡ true) ↔ AreDistinct same_number two_entries
equal-AreDistinct_example = equal-AreDistinct same_number matching_comm matching_refl two_entries

abbrev an_entry : EntryExt ℕ
an_entry = record { timestamp = a_time; event = 7 }

abbrev old_entry : EntryExt ℕ
old_entry = record { timestamp = zero_time; event = 0 }

entry_ext_round_trip_example :
    RoundTrips
      (entry_ext_marshal_msg appends an_entry)
      (entry_ext_encode_msg writes an_entry)
      (entry_ext_unmarshal_msg reads)
      (entry_ext_decode_msg reads)
      old_entry
      an_entry
entry_ext_round_trip_example =
    entry_ext_round_trip wire wire-IsFormat reads reads-IsReader writes writes-IsWriter appends
      appends-IsAppender an_entry old_entry an_entry-IsEntryExt

abbrev an_ack : AckMessage
an_ack = record { ack = codes "p8n9gmxTQVC8" }

abbrev old_ack : AckMessage
old_ack = record { ack = [] }

ack_round_trip_example :
    RoundTrips
      (ack_marshal_msg appends an_ack)
      (ack_encode_msg writes an_ack)
      (ack_unmarshal_msg reads)
      (ack_decode_msg reads)
      old_ack
      an_ack
ack_round_trip_example =
    ack_round_trip wire wire-IsFormat reads reads-IsReader writes writes-IsWriter appends
      appends-IsAppender an_ack old_ack (omega arith)
