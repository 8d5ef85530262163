-- ===== src/Protocol/Entries.antt =====
-- `EntryExt`, `Entry` and `EntryList` of fluent/protocol/transport.go.
pub mod Write
pub mod Read
pub mod Packed
pub mod Equal
mod Runs
use fluent_forward_go.Common.{ℕ, ◌+◌, ◌≡◌, true, List, [], ◌∷◌, ◌++◌, Bytes, length, ℤ, IsInt64}
use fluent_forward_go.Msgp.Format.{Wire}
use fluent_forward_go.Protocol.EventTime.{
  EventTime, zero_time, event_time_wire, IsEventTime, event_time_len,
}

-- `Record`, the event itself, is a value behind an `interface{}`.
pub record EntryExt (Intf : Type 0) : Type 0 where
  pub timestamp : EventTime
  pub event : Intf

pub record Entry (Intf : Type 0) : Type 0 where
  pub timestamp : ℤ
  pub event : Intf

abbrev pub EntryList : Type 0 → Type 0
EntryList Intf = List (EntryExt Intf)

-- The zero value; `nil_record` is the nil interface.
abbrev pub zero_entry : {Intf : Type 0} → Intf → EntryExt Intf
zero_entry nil_record = record { timestamp = zero_time; event = nil_record }

-- The objects, and what a value must meet to be one: the format's lengths, the range of a
-- timestamp, and a record that MessagePack carries.
module _ {Intf : Type 0} (w : Wire Intf) where
  abbrev pub entry_ext_wire : EntryExt Intf → Bytes
  entry_ext_wire e = w.array_header 2 ++ (event_time_wire w e.timestamp ++ w.intf e.event)

  abbrev pub entry_wire : Entry Intf → Bytes
  entry_wire e = w.array_header 2 ++ (w.int e.timestamp ++ w.intf e.event)

  abbrev pub entries_wire : EntryList Intf → Bytes
  entries_wire [] = []
  entries_wire (e ∷ es) = entry_ext_wire e ++ entries_wire es

  abbrev pub entry_list_wire : EntryList Intf → Bytes
  entry_list_wire es = w.array_header (length es) ++ entries_wire es

  pub record IsEntryExt (e : EntryExt Intf) : Type 0 where
    pub time : IsEventTime e.timestamp
    pub plain : w.plain e.event ≡ true

  pub record IsEntry (e : Entry Intf) : Type 0 where
    pub time : IsInt64 e.timestamp
    pub plain : w.plain e.event ≡ true

-- `Msgsize`, with the package's sizes: of an array header, an extension header, an int64, and what
-- `msgp.GuessSize` says of a record.
module _ {Intf : Type 0} (extension_prefix_size : ℕ) (guess_size : Intf → ℕ) where
  unfoldable pub entry_ext_msgsize : EntryExt Intf → ℕ
  entry_ext_msgsize e = 1 + extension_prefix_size + event_time_len + guess_size e.event

  unfoldable pub entry_msgsize : ℕ → Entry Intf → ℕ
  entry_msgsize int64_size e = 1 + int64_size + guess_size e.event

  -- The loop adds to `s`.
  abbrev pub add_sizes : ℕ → EntryList Intf → ℕ
  add_sizes s [] = s
  add_sizes s (e ∷ es) =
      add_sizes (s + (1 + extension_prefix_size + event_time_len + guess_size e.event)) es

  unfoldable pub entry_list_msgsize : ℕ → EntryList Intf → ℕ
  entry_list_msgsize array_header_size es = add_sizes array_header_size es
