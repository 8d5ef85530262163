-- ===== src/Protocol/Entries/Read.antt =====
-- `DecodeMsg` and `UnmarshalMsg` of `EntryExt`, `Entry` and `EntryList`.
use fluent_forward_go.Common.{
  ℕ, zero, suc, ◌+◌, ◌≡◌, refl, sym, ap, ◌∙◌, inl, inr, List, [], ◌∷◌, ◌++◌, append_assoc, arith,
  leb, ◌==◌, if◌then◌else◌, Bool-cases, length, length-append, All, take, replicate, modify,
  length-replicate, length-take_le, modify-append, leb→le,
}
use fluent_forward_go.Msgp.Get.{
  done, Get, read_into, read, fail, wrap, nil_on_error, update, pass, ◌>>=◌, ◌>>◌, zoom,
  nil_outcome, put_back, Takes, Takes-bind, Takes-read, Takes-wrap, Takes-pass, Takes-into,
  Takes-then,
}
use fluent_forward_go.Msgp.Format.{Wire, Reads, IsShort, IsReader}
use fluent_forward_go.Msgp.Errors.{Context, name, index, array_error}
use fluent_forward_go.Protocol.EventTime.{EventTime, event_time_wire, read_event_time}
use fluent_forward_go.Protocol.EventTime.Binary.{read_event_time_lem}
use fluent_forward_go.Protocol.Entries.{
  EntryExt, Entry, EntryList, zero_entry, entry_ext_wire, entry_wire, entries_wire, entry_list_wire,
  IsEntryExt, IsEntry,
}

-- `if zb0001 != 2 { err = msgp.ArrayError{…}; return }`
abbrev pub check_array : {R : Type 0} → ℕ → ℕ → Get R (Unit {0})
check_array wanted got = if got == wanted then pass else fail (array_error wanted got)

module _ {Intf : Type 0} where
  abbrev pub put_time : EventTime → EntryExt Intf → EntryExt Intf
  put_time t e = record e { timestamp = t }

  abbrev pub put_event : Intf → EntryExt Intf → EntryExt Intf
  put_event x e = record e { event = x }

module _ {Intf : Type 0} (rd : Reads Intf) where
  abbrev read_time : List Context → Get (EntryExt Intf) (Unit {0})
  read_time at =
      wrap (at ++ (name "Timestamp" ∷ [])) (read_event_time (λ e. e.timestamp) put_time rd)

  abbrev read_record : List Context → Get (EntryExt Intf) (Unit {0})
  read_record at = wrap (at ++ (name "Record" ∷ [])) (read_into rd.read_intf put_event)

  abbrev read_fields : List Context → ℕ → Get (EntryExt Intf) (Unit {0})
  read_fields at n = check_array 2 n >> (read_time at >> read_record at)

  abbrev read_entry : List Context → Get (EntryExt Intf) (Unit {0})
  read_entry at = wrap at (read rd.read_array_header) >>= read_fields at

  unfoldable pub entry_ext_decode_msg : Get (EntryExt Intf) (Unit {0})
  entry_ext_decode_msg = read_entry []

  unfoldable pub entry_ext_unmarshal_msg : Get (EntryExt Intf) (Unit {0})
  entry_ext_unmarshal_msg = nil_on_error (read_entry [])

  abbrev read_plain_fields : ℕ → Get (Entry Intf) (Unit {0})
  read_plain_fields n =
      check_array 2 n
      >> (wrap (name "Timestamp" ∷ []) (read_into rd.read_int64 (λ t e. record e { timestamp = t }))
          >> wrap (name "Record" ∷ []) (read_into rd.read_intf (λ x e. record e { event = x })))

  unfoldable pub entry_decode_msg : Get (Entry Intf) (Unit {0})
  entry_decode_msg = wrap [] (read rd.read_array_header) >>= read_plain_fields

  unfoldable pub entry_unmarshal_msg : Get (Entry Intf) (Unit {0})
  entry_unmarshal_msg = nil_on_error (wrap [] (read rd.read_array_header) >>= read_plain_fields)

  -- A list that is filled is given as its backing array, up to the capacity of the slice.
  module _ (nil_record : Intf) where
    abbrev entry_at : EntryList Intf → ℕ → EntryExt Intf
    entry_at [] i = zero_entry nil_record
    entry_at (e ∷ es) zero = e
    entry_at (e ∷ es) (suc i) = entry_at es i

    -- `if cap(*z) >= int(n) { *z = (*z)[:n] } else { *z = make(EntryList, n) }`
    abbrev resize : ℕ → EntryList Intf → EntryList Intf
    resize n es = if leb n (length es) then take n es else replicate n (zero_entry nil_record)

    -- The entry at `i` of the list.
    abbrev read_at : ℕ → Get (EntryList Intf) (Unit {0})
    read_at i =
        zoom (λ es. entry_at es i) (λ e es. modify es i (λ _. e)) (read_entry (index i ∷ []))

    -- `for zb0001 := range *z`, with the rounds that are left.
    read_from : ℕ → ℕ → Get (EntryList Intf) (Unit {0})
    read_from zero i = pass
    read_from (suc k) i = read_at i >> read_from k (i + 1)

    abbrev fill : ℕ → Get (EntryList Intf) (Unit {0})
    fill n = update (resize n) >> read_from n 0

    unfoldable pub entry_list_decode_msg : Get (EntryList Intf) (Unit {0})
    unfolding read_from
    entry_list_decode_msg = wrap [] (read rd.read_array_header) >>= fill

    unfoldable pub entry_list_unmarshal_msg : Get (EntryList Intf) (Unit {0})
    unfolding read_from
    entry_list_unmarshal_msg = nil_on_error (wrap [] (read rd.read_array_header) >>= fill)

module _ {Intf : Type 0} (w : Wire Intf) (rd : Reads Intf) (laws : IsReader w rd) where
  read_entry_lem :
      (at : List Context) (e r : EntryExt Intf)
      → IsEntryExt w e
      → Takes (read_entry rd at) (entry_ext_wire w e) r tt e
  read_entry_lem at e r h =
      Takes-bind (wrap at (read rd.read_array_header)) (read_fields rd at) (w.array_header 2) _
        (Takes-wrap at (read rd.read_array_header) (w.array_header 2) (
          Takes-read rd.read_array_header (w.array_header 2) r (laws.array_header 2 (omega arith))))
        (Takes-then (read_time rd at) (read_record rd at) (event_time_wire w e.timestamp)
          (w.intf e.event)
          (Takes-wrap (at ++ (name "Timestamp" ∷ []))
            (read_event_time (λ e'. e'.timestamp) put_time rd) (event_time_wire w e.timestamp)
            (read_event_time_lem w rd laws (λ e'. e'.timestamp) put_time e.timestamp r h.time))
          (Takes-into _ rd.read_intf put_event (w.intf e.event) (put_time e.timestamp r)
            (laws.intf e.event h.plain)))

  pub entry_ext_decode_msg_lem :
      (e r : EntryExt Intf)
      → IsEntryExt w e
      → Takes (entry_ext_decode_msg rd) (entry_ext_wire w e) r tt e
  unfolding entry_ext_decode_msg
  entry_ext_decode_msg_lem e r h = read_entry_lem [] e r h

  pub entry_ext_unmarshal_msg_lem :
      (e r : EntryExt Intf)
      → IsEntryExt w e
      → Takes (entry_ext_unmarshal_msg rd) (entry_ext_wire w e) r tt e
  unfolding entry_ext_unmarshal_msg
  entry_ext_unmarshal_msg_lem e r h rest = ap nil_outcome (read_entry_lem [] e r h rest)

module _ {Intf : Type 0} (w : Wire Intf) (rd : Reads Intf) (laws : IsReader w rd) where
  entry_plain_lem :
      (e r : Entry Intf)
      → IsEntry w e
      → Takes (wrap [] (read rd.read_array_header) >>= read_plain_fields rd) (entry_wire w e) r tt e
  entry_plain_lem e r h =
      Takes-bind (wrap [] (read rd.read_array_header)) (read_plain_fields rd) (w.array_header 2) _
        (Takes-wrap [] (read rd.read_array_header) (w.array_header 2) (
          Takes-read rd.read_array_header (w.array_header 2) r (laws.array_header 2 (omega arith))))
        (Takes-then
          (wrap (name "Timestamp" ∷ [])
            (read_into rd.read_int64 (λ t e'. record e' { timestamp = t })))
          (wrap (name "Record" ∷ []) (read_into rd.read_intf (λ x e'. record e' { event = x })))
          (w.int e.timestamp) (w.intf e.event) {r = r}
          (Takes-into _ rd.read_int64 (λ t e'. record e' { timestamp = t }) (w.int e.timestamp) r
            (laws.int64 e.timestamp h.time))
          (Takes-into _ rd.read_intf (λ x e'. record e' { event = x }) (w.intf e.event)
            (record r { timestamp = e.timestamp }) (laws.intf e.event h.plain)))

  pub entry_decode_msg_lem :
      (e r : Entry Intf) → IsEntry w e → Takes (entry_decode_msg rd) (entry_wire w e) r tt e
  unfolding entry_decode_msg
  entry_decode_msg_lem e r h = entry_plain_lem e r h

  pub entry_unmarshal_msg_lem :
      (e r : Entry Intf) → IsEntry w e → Takes (entry_unmarshal_msg rd) (entry_wire w e) r tt e
  unfolding entry_unmarshal_msg
  entry_unmarshal_msg_lem e r h rest = ap nil_outcome (entry_plain_lem e r h rest)

  module _ (nil_record : Intf) where
    entry_at-append :
        (front : EntryList Intf) (e : EntryExt Intf) (back : EntryList Intf)
        → entry_at rd nil_record (front ++ (e ∷ back)) (length front) ≡ e
    entry_at-append [] e back = refl
    entry_at-append (x ∷ front) e back = entry_at-append front e back

    read_at_lem :
        (front : EntryList Intf) (old e : EntryExt Intf) (back : EntryList Intf)
        → IsEntryExt w e
        → Takes
            (read_at rd nil_record (length front))
            (entry_ext_wire w e)
            (front ++ (old ∷ back))
            tt
            (front ++ (e ∷ back))
    read_at_lem front old e back h rest =
        ap (put_back put (front ++ (old ∷ back))) (
          read_entry_lem w rd laws (index i ∷ []) e
            (entry_at rd nil_record (front ++ (old ∷ back)) i) h rest)
        ∙ ap (λ es. done tt es rest) (modify-append front old back (λ _. e))
      where
        i : ℕ
        i = length front

        put : EntryExt Intf → EntryList Intf → EntryList Intf
        put e' es = modify es i (λ _. e')

    read_from_lem :
        (es front slots : EntryList Intf)
        → length slots ≡ length es
        → All (IsEntryExt w) es
        → Takes
            (read_from rd nil_record (length es) (length front))
            (entries_wire w es)
            (front ++ slots)
            tt
            (front ++ es)
    unfolding read_from
    read_from_lem [] front [] n h = Takes-pass (front ++ [])
    read_from_lem [] front (x ∷ slots) n h = absurd (omega arith)
    read_from_lem (e ∷ es) front [] n h = absurd (omega arith)
    read_from_lem (e ∷ es) front (x ∷ slots) n h =
        Takes-then (read_at rd nil_record (length front))
          (read_from rd nil_record (length es) (length front + 1)) (entry_ext_wire w e)
          (entries_wire w es) (read_at_lem front x e slots h.0)
          (rw
            (
              sym next,
              sym (append_assoc front (e ∷ []) slots),
              sym (append_assoc front (e ∷ []) es),
            )
            (read_from_lem es (front ++ (e ∷ [])) slots (omega arith) h.1))
      where
        next : length (front ++ (e ∷ [])) ≡ length front + 1
        next = length-append front (e ∷ [])

    length-resize : (n : ℕ) (r : EntryList Intf) → length (resize rd nil_record n r) ≡ n
    length-resize n r = elim (Bool-cases (leb n (length r))) [
      | inl e ↦ rw e (length-take_le n r (leb→le n (length r) e))
      | inr e ↦ rw e (length-replicate n (zero_entry nil_record))
    ]

    list_lem :
        (es r : EntryList Intf)
        → IsShort es
        → All (IsEntryExt w) es
        → Takes
            (wrap [] (read rd.read_array_header) >>= fill rd nil_record)
            (entry_list_wire w es)
            r
            tt
            es
    list_lem es r short h =
        Takes-bind (wrap [] (read rd.read_array_header)) (fill rd nil_record)
          (w.array_header (length es)) (entries_wire w es)
          (Takes-wrap [] (read rd.read_array_header) (w.array_header (length es)) (
            Takes-read rd.read_array_header (w.array_header (length es)) r
              (laws.array_header (length es) short)))
          (read_from_lem es [] (resize rd nil_record (length es) r) (length-resize (length es) r) h)

    -- Reading a list replaces whatever the slice held.
    pub entry_list_decode_msg_lem :
        (es r : EntryList Intf)
        → IsShort es
        → All (IsEntryExt w) es
        → Takes (entry_list_decode_msg rd nil_record) (entry_list_wire w es) r tt es
    unfolding entry_list_decode_msg
    entry_list_decode_msg_lem es r short h = list_lem es r short h

    pub entry_list_unmarshal_msg_lem :
        (es r : EntryList Intf)
        → IsShort es
        → All (IsEntryExt w) es
        → Takes (entry_list_unmarshal_msg rd nil_record) (entry_list_wire w es) r tt es
    unfolding entry_list_unmarshal_msg
    entry_list_unmarshal_msg_lem es r short h rest = ap nil_outcome (list_lem es r short h rest)
