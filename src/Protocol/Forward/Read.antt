-- ===== src/Protocol/Forward/Read.antt =====
-- `DecodeMsg` and `UnmarshalMsg` of `ForwardMessage`.
use fluent_forward_go.Common.{Option, none, some, [], ◌∷◌, arith, Bytes}
use fluent_forward_go.Msgp.Get.{
  Get, read_into, wrap, ◌>>=◌, ◌>>◌, zoom, Takes, Takes-wrap, Takes-zoom, Takes-pass, Takes-into,
  Takes-fields₂, header, header_lem, last_if,
}
use fluent_forward_go.Msgp.Format.{Wire, Reads, IsReader}
use fluent_forward_go.Msgp.Errors.{name}
use fluent_forward_go.Protocol.Entries.{EntryList, entry_list_wire}
use fluent_forward_go.Protocol.Entries.Read.{
  entry_list_decode_msg, entry_list_unmarshal_msg, entry_list_decode_msg_lem,
  entry_list_unmarshal_msg_lem,
}
use fluent_forward_go.Protocol.Options.{MessageOptions}
use fluent_forward_go.Protocol.Tail.{IsTail}
use fluent_forward_go.Protocol.Tail.Read.{
  decode_tail, unmarshal_tail, with_tail, decode_tail_lem, unmarshal_tail_lem,
}
use fluent_forward_go.Protocol.Forward.{
  ForwardMessage, array_size, last_wire, forward_wire, IsForward,
}

module _ {Intf : Type 0} where
  abbrev pub put_options : Option MessageOptions → ForwardMessage Intf → ForwardMessage Intf
  put_options o m = record m { options = o }

  abbrev put_tag : Bytes → ForwardMessage Intf → ForwardMessage Intf
  put_tag s m = record m { tag = s }

  abbrev put_entries : EntryList Intf → ForwardMessage Intf → ForwardMessage Intf
  put_entries es m = record m { entries = es }

  -- `r` once the message `m` has been read into it: where `m` has no options, those of `r` stay.
  abbrev pub forward_over : ForwardMessage Intf → ForwardMessage Intf → ForwardMessage Intf
  forward_over m r = with_tail put_options m.options (record m { options = r.options })

  module _ (rd : Reads Intf) (nil_record : Intf) where
    abbrev read_tag : Get (ForwardMessage Intf) (Unit {0})
    read_tag = wrap (name "Tag" ∷ []) (read_into rd.read_string put_tag)

    -- `fm.Entries = EntryList{}`, and a read into it.
    abbrev into_entries : Get (EntryList Intf) (Unit {0}) → Get (ForwardMessage Intf) (Unit {0})
    into_entries = zoom (λ _. []) put_entries

    unfoldable pub forward_decode_msg : Get (ForwardMessage Intf) (Unit {0})
    forward_decode_msg = do
      sz ← header rd.read_array_header
      read_tag
          >> (wrap (name "Entries" ∷ []) (into_entries (entry_list_decode_msg rd nil_record))
              >> last_if 3 (decode_tail put_options rd) sz)

    unfoldable pub forward_unmarshal_msg : Get (ForwardMessage Intf) (Unit {0})
    forward_unmarshal_msg = do
      sz ← header rd.read_array_header
      read_tag
          >> (into_entries (entry_list_unmarshal_msg rd nil_record)
              >> last_if 3 (unmarshal_tail put_options rd) sz)

  module _ (w : Wire Intf) (rd : Reads Intf) (laws : IsReader w rd) (nil_record : Intf) where
    last_lem :
        (tail : Get (ForwardMessage Intf) (Unit {0})) (o : Option MessageOptions)
        (r : ForwardMessage Intf)
        → ((z : MessageOptions)
            → IsTail (some z)
            → Takes tail (last_wire w (some z)) r tt (put_options (some z) r))
        → IsTail o
        → Takes (last_if 3 tail (array_size o)) (last_wire w o) r tt (with_tail put_options o r)
    last_lem tail none r h k = Takes-pass r
    last_lem tail (some o) r h k = h o k

    fields_lem :
        (entries tail : Get (ForwardMessage Intf) (Unit {0})) (m r s : ForwardMessage Intf)
        → IsForward w m
        → Takes entries
            (entry_list_wire w m.entries)
            (put_tag m.tag r)
            tt
            (record m { options = r.options })
        → Takes
            (last_if 3 tail (array_size m.options))
            (last_wire w m.options)
            (record m { options = r.options })
            tt
            s
        → Takes
            (header rd.read_array_header >>= λ sz.
              read_tag rd nil_record >> (entries >> last_if 3 tail sz))
            (forward_wire w m)
            r
            tt
            s
    fields_lem entries tail m r s h he ht =
        Takes-fields₂ (header rd.read_array_header) (read_tag rd nil_record) entries
          (last_if 3 tail) (w.array_header (array_size m.options)) (w.string m.tag)
          (entry_list_wire w m.entries) (last_wire w m.options) (array_size m.options) r
          (put_tag m.tag r) (record m { options = r.options }) s
          (header_lem rd.read_array_header (w.array_header (array_size m.options))
            (array_size m.options) r (laws.array_header (array_size m.options) (ground arith)))
          (Takes-into (name "Tag" ∷ []) rd.read_string put_tag (w.string m.tag) r
            (laws.string m.tag h.tag_short))
          he ht

    pub forward_decode_msg_lem :
        (m r : ForwardMessage Intf)
        → IsForward w m
        → Takes (forward_decode_msg rd nil_record) (forward_wire w m) r tt (forward_over m r)
    unfolding forward_decode_msg
    forward_decode_msg_lem m r h =
        let r2 : ForwardMessage Intf = record m { options = r.options } in
        fields_lem
          (wrap (name "Entries" ∷ [])
            (into_entries rd nil_record (entry_list_decode_msg rd nil_record)))
          (decode_tail put_options rd) m r (forward_over m r) h
          (Takes-wrap (name "Entries" ∷ [])
            (into_entries rd nil_record (entry_list_decode_msg rd nil_record))
            (entry_list_wire w m.entries) {r = put_tag m.tag r}
            (Takes-zoom (λ _. []) put_entries (entry_list_decode_msg rd nil_record)
              (entry_list_wire w m.entries) (put_tag m.tag r)
              (entry_list_decode_msg_lem w rd laws nil_record m.entries [] h.entries_short
                h.entries_plain)))
          (last_lem (decode_tail put_options rd) m.options r2
            (λ z. decode_tail_lem put_options rd w laws (some z) r2) h.tail)

    pub forward_unmarshal_msg_lem :
        (m r : ForwardMessage Intf)
        → IsForward w m
        → Takes (forward_unmarshal_msg rd nil_record) (forward_wire w m) r tt (forward_over m r)
    unfolding forward_unmarshal_msg
    forward_unmarshal_msg_lem m r h =
        let r2 : ForwardMessage Intf = record m { options = r.options } in
        fields_lem (into_entries rd nil_record (entry_list_unmarshal_msg rd nil_record))
          (unmarshal_tail put_options rd) m r (forward_over m r) h
          (Takes-zoom (λ _. []) put_entries (entry_list_unmarshal_msg rd nil_record)
            (entry_list_wire w m.entries) (put_tag m.tag r)
            (entry_list_unmarshal_msg_lem w rd laws nil_record m.entries [] h.entries_short
              h.entries_plain))
          (last_lem (unmarshal_tail put_options rd) m.options r2
            (λ z. unmarshal_tail_lem put_options rd w laws (some z) r2) h.tail)
