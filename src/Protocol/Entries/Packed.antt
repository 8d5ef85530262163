-- ===== src/Protocol/Entries/Packed.antt =====
-- `MarshalPacked` and `UnmarshalPacked` of `EntryList`: entries one behind the other, with no header.
use fluent_forward_go.Common.{
  ℕ, zero, suc, ◌≤◌, ◌<◌, ◌≡◌, sym, ap, ◌∙◌, ◌≢◌, inl, inr, Option, none, some, [], ◌∷◌, ◌++◌,
  append_assoc, append-nil, arith, Bytes, length, length-append, All,
}
use fluent_forward_go.Msgp.Put.{Written, wrote, broke, Writes}
use fluent_forward_go.Msgp.Get.{done, failed, Outcome-cases}
use fluent_forward_go.Msgp.Format.{Wire, Reads, IsFormat, IsWriter, IsReader}
use fluent_forward_go.Msgp.Errors.{Error}
use fluent_forward_go.Protocol.EventTime.{event_time_wire}
use fluent_forward_go.Protocol.Entries.{
  EntryExt, EntryList, zero_entry, entry_ext_wire, entries_wire, IsEntryExt,
}
use fluent_forward_go.Protocol.Entries.Write.{entry_ext_encode_msg, entry_ext_encode_msg_lem}
use fluent_forward_go.Protocol.Entries.Read.{entry_ext_unmarshal_msg, entry_ext_unmarshal_msg_lem}

-- The result of `MarshalPacked`: the bytes of the buffer, or nil and an error.
abbrev pub packed_result : Written → Bytes × Option Error
packed_result (wrote out) = (out, none)
packed_result (broke e out) = ([], some e)

module _ {Intf : Type 0} (wr : Writes Intf) where
  -- The loop over the list; `buf` is a buffer that `Reset` has emptied, and `msgp.Encode(buf, e)`
  -- runs `EncodeMsg` on a writer over it.
  encode_all : EntryList Intf → Written → Written
  encode_all [] out = out
  encode_all (e ∷ es) (wrote out) = encode_all es (entry_ext_encode_msg wr e out)
  encode_all (e ∷ es) (broke x out) = broke x out

  unfoldable pub marshal_packed : EntryList Intf → Bytes × Option Error
  unfolding encode_all
  marshal_packed el = packed_result (encode_all el (wrote []))

-- What `UnmarshalPacked` leaves in the receiver, and returns. `stuck` is no result of the code: the
-- rounds that were allowed to the loop are used up.
pub data Unpacked (Intf : Type 0) : Type 0 where
  unpacked : EntryList Intf → Bytes → Option Error → Unpacked Intf
  stuck : Unpacked Intf

module _ {Intf : Type 0} (rd : Reads Intf) where
  -- `for len(bits) > 0`; the variable `entry` is filled again in each round.
  unpack : ℕ → EntryExt Intf → EntryList Intf → Bytes → Unpacked Intf
  unpack fuel entry el [] = unpacked el [] none
  unpack zero entry el (b ∷ bits) = stuck
  unpack (suc fuel) entry el (b ∷ bits) = elim (entry_ext_unmarshal_msg rd entry (b ∷ bits)) [
    | done _ entry' rest ↦ unpack fuel entry' (el ++ (entry' ∷ [])) rest
    | failed e _ rest ↦ unpacked el rest (some e)
  ]

  -- A round consumes a byte at least, so that as many rounds as there are bytes are enough.
  unfoldable pub unmarshal_packed : Intf → Bytes → Unpacked Intf
  unfolding unpack
  unmarshal_packed nil_record bits = unpack (length bits) (zero_entry nil_record) [] bits

module _ {Intf : Type 0} (w : Wire Intf) (fmt : IsFormat w) where
  module _ (wr : Writes Intf) (laws : IsWriter w wr) where
    encode_all_lem :
        (es : EntryList Intf) (out : Bytes)
        → All (IsEntryExt w) es
        → encode_all wr es (wrote out) ≡ wrote (out ++ entries_wire w es)
    unfolding encode_all
    encode_all_lem [] out h = ap wrote (sym (append-nil out))
    encode_all_lem (e ∷ es) out h =
        ap (encode_all wr es) (entry_ext_encode_msg_lem w fmt wr laws e h.0 out)
        ∙ encode_all_lem es (out ++ entry_ext_wire w e) h.1
        ∙ ap wrote (append_assoc out (entry_ext_wire w e) (entries_wire w es))

    pub marshal_packed_lem :
        (es : EntryList Intf)
        → All (IsEntryExt w) es
        → marshal_packed wr es ≡ (entries_wire w es, none)
    unfolding marshal_packed
    marshal_packed_lem es h = ap packed_result (encode_all_lem es [] h)

  module _ (rd : Reads Intf) (laws : IsReader w rd) where
    step_lem :
        (e r : EntryExt Intf) (fuel : ℕ) (el : EntryList Intf) (more : Bytes)
        → IsEntryExt w e
        → unpack rd (suc fuel) r el (entry_ext_wire w e ++ more)
          ≡ unpack rd fuel e (el ++ (e ∷ [])) more
    step_lem e r fuel el more h =
        started (entry_ext_wire w e ++ more) head (entry_ext_unmarshal_msg_lem w rd laws e r h more)
      where
        head :
            entry_ext_wire w e ++ more
            ≡ 0x92 ∷ ((event_time_wire w e.timestamp ++ w.intf e.event) ++ more)
        head = rw (fmt.fix_array 2 (omega arith))

        started :
            (bs : Bytes) {tl : Bytes}
            → bs ≡ 0x92 ∷ tl
            → entry_ext_unmarshal_msg rd r bs ≡ done tt e more
            → unpack rd (suc fuel) r el bs ≡ unpack rd fuel e (el ++ (e ∷ [])) more
        started [] q k = cc
        started (b ∷ bs) q k = unfold unpack in rw (k, unpack)

    unpack_lem :
        (es : EntryList Intf) (fuel : ℕ) (r : EntryExt Intf) (el : EntryList Intf)
        → length es ≤ fuel
        → All (IsEntryExt w) es
        → unpack rd fuel r el (entries_wire w es) ≡ unpacked (el ++ es) [] none
    unpack_lem [] fuel r el n h =
        unfold unpack in ap (λ l. unpacked l [] none) (sym (append-nil el))
    unpack_lem (e ∷ es) zero r el n h = absurd (omega arith)
    unpack_lem (e ∷ es) (suc fuel) r el n h =
        step_lem e r fuel el (entries_wire w es) h.0
        ∙ unpack_lem es fuel e (el ++ (e ∷ [])) (omega arith) h.1
        ∙ ap (λ l. unpacked l [] none) (append_assoc el (e ∷ []) es)

    length-entries_wire : (es : EntryList Intf) → length es ≤ length (entries_wire w es)
    length-entries_wire [] = omega arith
    length-entries_wire (e ∷ es) =
        rw
          (
            fmt.fix_array 2 (omega arith),
            length-append (event_time_wire w e.timestamp ++ w.intf e.event) (entries_wire w es),
          )
          (omega (arith, length-entries_wire es))

    -- UnmarshalPacked reads back the entries that MarshalPacked wrote, in their order and with no
    -- byte left, where the timestamps have 32 bits of seconds with nanoseconds below a second and
    -- the package reads the records back as written. The package of the codec obeys the laws of
    -- Msgp.Format.
    pub unmarshal_packed-marshal_packed :
        (wr : Writes Intf) (nil_record : Intf) (es : EntryList Intf)
        → IsWriter w wr
        → All (IsEntryExt w) es
        → unmarshal_packed rd nil_record (marshal_packed wr es).0 ≡ unpacked es [] none
    unfolding unmarshal_packed
    unmarshal_packed-marshal_packed wr nil_record es wlaws h =
        rw (marshal_packed_lem wr wlaws es h) (
          unpack_lem es (length (entries_wire w es)) (zero_entry nil_record) []
            (length-entries_wire es) h)

-- A call that succeeds consumes what it reads: a header has a byte at least.
pub record Consumes {Intf : Type 0} (rd : Reads Intf) : Type 0 where
  pub array_header :
      (bs : Bytes)
      → (rd.read_array_header bs).2 ≡ none
      → length (rd.read_array_header bs).1 < length bs
  pub extension :
      (t : ℕ) (bs : Bytes)
      → (rd.read_extension t bs).2 ≡ none
      → length (rd.read_extension t bs).1 ≤ length bs
  pub intf : (bs : Bytes) → (rd.read_intf bs).2 ≡ none → length (rd.read_intf bs).1 ≤ length bs

module _ {Intf : Type 0} (rd : Reads Intf) (c : Consumes rd) where
  entry_consumes :
      (bs rest : Bytes) (r e : EntryExt Intf)
      → entry_ext_unmarshal_msg rd r bs ≡ done tt e rest
      → length rest < length bs
  unfolding entry_ext_unmarshal_msg
  entry_consumes bs rest r e h =
      let (n, bs1, e1) = rd.read_array_header bs in
      let (s, bs2, e2) = rd.read_extension 0 bs1 in
      ground (arith, c.array_header bs, c.extension 0 bs1, c.intf bs2)

  unpack-ne-stuck :
      (fuel : ℕ) (r : EntryExt Intf) (el : EntryList Intf) (bs : Bytes)
      → length bs ≤ fuel
      → unpack rd fuel r el bs ≢ stuck
  unfolding unpack
  unpack-ne-stuck fuel r el [] h = λ e. cc
  unpack-ne-stuck zero r el (b ∷ bs) h = absurd (omega arith)
  unpack-ne-stuck (suc fuel) r el (b ∷ bs) h =
      elim (Outcome-cases (entry_ext_unmarshal_msg rd r (b ∷ bs))) [
        | inl (e, (rest, q)) ↦
            rw (q, unpack)
              (unpack-ne-stuck fuel e (el ++ (e ∷ [])) rest
                (omega (arith, entry_consumes (b ∷ bs) rest r e q)))
        | inr (x, (s, (rest, q))) ↦ rw (q, unpack) (λ k. cc)
      ]

  -- On every input the loop of UnmarshalPacked ends, by its own test or by an error, within as many
  -- rounds as there are bytes, where a call of the reader that succeeds consumes what it reads, an
  -- array header at least a byte.
  pub unmarshal_packed-ne-stuck :
      (nil_record : Intf) (bs : Bytes) → unmarshal_packed rd nil_record bs ≢ stuck
  unfolding unmarshal_packed
  unmarshal_packed-ne-stuck nil_record bs =
      unpack-ne-stuck (length bs) (zero_entry nil_record) [] bs (omega arith)
