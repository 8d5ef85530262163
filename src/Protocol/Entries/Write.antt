-- ===== src/Protocol/Entries/Write.antt =====
-- `EncodeMsg` and `MarshalMsg` of `EntryExt`, `Entry` and `EntryList`.
use fluent_forward_go.Common.{
  ℕ, ◌+◌, ◌%◌, ◌^◌, sym, List, [], ◌∷◌, ◌++◌, append_assoc, arith, Bytes, length, All,
}
use fluent_forward_go.Msgp.Put.{
  Put, ◌>>◌, wrap, total, literal, nothing, Writes, Appends, Emits, Emits-seq, Emits-wrap,
  Emits-literal, Emits-nothing, Emits-eq,
}
use fluent_forward_go.Msgp.Format.{Wire, IsShort, IsFormat, IsWriter, IsAppender}
use fluent_forward_go.Msgp.Errors.{Context, name, index}
use native.Mathlib.Nat.{mod-eq_of_lt}
use fluent_forward_go.Protocol.EventTime.{
  event_time_wire, write_event_time, append_event_time, extension_type,
}
use fluent_forward_go.Protocol.EventTime.Binary.{marshal_binary_to-IsShort}
use fluent_forward_go.Protocol.Entries.{
  EntryExt, Entry, EntryList, entry_ext_wire, entry_wire, entries_wire, entry_list_wire, IsEntryExt,
  IsEntry,
}

module _ {Intf : Type 0} (wr : Writes Intf) where
  -- One entry; `at` is what the errors of an entry in a list are marked with.
  abbrev encode_entry : List Context → EntryExt Intf → Put
  encode_entry at e =
      wr.append (0x92 ∷ [])
      >> wrap (at ++ (name "Timestamp" ∷ [])) (write_event_time wr e.timestamp)
      >> wrap (at ++ (name "Record" ∷ [])) (wr.write_intf e.event)

  unfoldable pub entry_ext_encode_msg : EntryExt Intf → Put
  entry_ext_encode_msg e = encode_entry [] e

  unfoldable pub entry_encode_msg : Entry Intf → Put
  entry_encode_msg e =
      wr.append (0x92 ∷ [])
      >> wrap (name "Timestamp" ∷ []) (wr.write_int64 e.timestamp)
      >> wrap (name "Record" ∷ []) (wr.write_intf e.event)

  -- `for zb0004 := range z`
  encode_from : ℕ → EntryList Intf → Put
  encode_from i [] = nothing
  encode_from i (e ∷ es) = encode_entry (index i ∷ []) e >> encode_from (i + 1) es

  unfoldable pub entry_list_encode_msg : EntryList Intf → Put
  unfolding encode_from
  entry_list_encode_msg es =
      wrap [] (wr.write_array_header (length es % 2 ^ 32)) >> encode_from 0 es

module _ {Intf : Type 0} (ap : Appends Intf) where
  abbrev marshal_entry : List Context → EntryExt Intf → Put
  marshal_entry at e =
      literal (0x92 ∷ [])
      >> wrap (at ++ (name "Timestamp" ∷ [])) (append_event_time ap e.timestamp)
      >> wrap (at ++ (name "Record" ∷ [])) (ap.append_intf e.event)

  unfoldable pub entry_ext_marshal_msg : EntryExt Intf → Put
  entry_ext_marshal_msg e = marshal_entry [] e

  unfoldable pub entry_marshal_msg : Entry Intf → Put
  entry_marshal_msg e =
      literal (0x92 ∷ [])
      >> total (ap.append_int64 e.timestamp)
      >> wrap (name "Record" ∷ []) (ap.append_intf e.event)

  marshal_from : ℕ → EntryList Intf → Put
  marshal_from i [] = nothing
  marshal_from i (e ∷ es) = marshal_entry (index i ∷ []) e >> marshal_from (i + 1) es

  unfoldable pub entry_list_marshal_msg : EntryList Intf → Put
  unfolding marshal_from
  entry_list_marshal_msg es =
      total (ap.append_array_header (length es % 2 ^ 32)) >> marshal_from 0 es

module _ {Intf : Type 0} (w : Wire Intf) (fmt : IsFormat w) where
  -- Three writes, as an entry's.
  three :
      (p q r : Put) (b c : Bytes)
      → Emits p (0x92 ∷ [])
      → Emits q b
      → Emits r c
      → Emits (p >> q >> r) (w.array_header 2 ++ (b ++ c))
  three p q r b c hp hq hr = Emits-eq (p >> q >> r) (append_assoc (w.array_header 2) b c) (
      Emits-seq (p >> q) r (w.array_header 2 ++ b) c
        (Emits-seq p q (w.array_header 2) b (Emits-eq p (sym (fmt.fix_array 2 (omega arith))) hp)
          hq)
        hr)

  module _ (wr : Writes Intf) (laws : IsWriter w wr) where
    encode_entry_lem :
        (at : List Context) (e : EntryExt Intf)
        → IsEntryExt w e
        → Emits (encode_entry wr at e) (entry_ext_wire w e)
    encode_entry_lem at e h =
        three _ _ _ (event_time_wire w e.timestamp) (w.intf e.event) (laws.append (0x92 ∷ []))
          (Emits-wrap _ _ _
            (laws.extension extension_type _ (marshal_binary_to-IsShort e.timestamp)))
          (Emits-wrap _ _ _ (laws.intf e.event h.plain))

    pub entry_ext_encode_msg_lem :
        (e : EntryExt Intf)
        → IsEntryExt w e
        → Emits (entry_ext_encode_msg wr e) (entry_ext_wire w e)
    unfolding entry_ext_encode_msg
    entry_ext_encode_msg_lem e h = encode_entry_lem [] e h

    pub entry_encode_msg_lem :
        (e : Entry Intf) → IsEntry w e → Emits (entry_encode_msg wr e) (entry_wire w e)
    unfolding entry_encode_msg
    entry_encode_msg_lem e h =
        three _ _ _ (w.int e.timestamp) (w.intf e.event) (laws.append (0x92 ∷ []))
          (Emits-wrap _ _ _ (laws.int64 e.timestamp h.time))
          (Emits-wrap _ _ _ (laws.intf e.event h.plain))

    encode_from_lem :
        (i : ℕ) (es : EntryList Intf)
        → All (IsEntryExt w) es
        → Emits (encode_from wr i es) (entries_wire w es)
    unfolding encode_from
    encode_from_lem i [] h = Emits-nothing
    encode_from_lem i (e ∷ es) h =
        Emits-seq _ _ _ _ (encode_entry_lem (index i ∷ []) e h.0) (encode_from_lem (i + 1) es h.1)

    pub entry_list_encode_msg_lem :
        (es : EntryList Intf)
        → IsShort es
        → All (IsEntryExt w) es
        → Emits (entry_list_encode_msg wr es) (entry_list_wire w es)
    unfolding entry_list_encode_msg
    entry_list_encode_msg_lem es short h = rw (mod-eq_of_lt short) (
        Emits-seq _ _ _ _ (Emits-wrap _ _ _ (laws.array_header (length es) short))
          (encode_from_lem 0 es h))

  module _ (ap : Appends Intf) (laws : IsAppender w ap) where
    marshal_entry_lem :
        (at : List Context) (e : EntryExt Intf)
        → IsEntryExt w e
        → Emits (marshal_entry ap at e) (entry_ext_wire w e)
    marshal_entry_lem at e h =
        three _ _ _ (event_time_wire w e.timestamp) (w.intf e.event) (Emits-literal (0x92 ∷ []))
          (Emits-wrap _ _ _
            (laws.extension extension_type _ (marshal_binary_to-IsShort e.timestamp)))
          (Emits-wrap _ _ _ (laws.intf e.event h.plain))

    pub entry_ext_marshal_msg_lem :
        (e : EntryExt Intf)
        → IsEntryExt w e
        → Emits (entry_ext_marshal_msg ap e) (entry_ext_wire w e)
    unfolding entry_ext_marshal_msg
    entry_ext_marshal_msg_lem e h = marshal_entry_lem [] e h

    pub entry_marshal_msg_lem :
        (e : Entry Intf) → IsEntry w e → Emits (entry_marshal_msg ap e) (entry_wire w e)
    unfolding entry_marshal_msg
    entry_marshal_msg_lem e h =
        three _ _ _ (w.int e.timestamp) (w.intf e.event) (Emits-literal (0x92 ∷ []))
          (laws.int64 e.timestamp h.time) (Emits-wrap _ _ _ (laws.intf e.event h.plain))

    marshal_from_lem :
        (i : ℕ) (es : EntryList Intf)
        → All (IsEntryExt w) es
        → Emits (marshal_from ap i es) (entries_wire w es)
    unfolding marshal_from
    marshal_from_lem i [] h = Emits-nothing
    marshal_from_lem i (e ∷ es) h =
        Emits-seq _ _ _ _ (marshal_entry_lem (index i ∷ []) e h.0) (marshal_from_lem (i + 1) es h.1)

    pub entry_list_marshal_msg_lem :
        (es : EntryList Intf)
        → IsShort es
        → All (IsEntryExt w) es
        → Emits (entry_list_marshal_msg ap es) (entry_list_wire w es)
    unfolding entry_list_marshal_msg
    entry_list_marshal_msg_lem es short h =
        rw (mod-eq_of_lt short)
          (Emits-seq _ _ _ _ (laws.array_header (length es) short) (marshal_from_lem 0 es h))
