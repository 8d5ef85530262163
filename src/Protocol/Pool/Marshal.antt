-- ===== src/Protocol/Pool/Marshal.antt =====
-- `MarshalPacked` of fluent/protocol/transport.go over the pool: its bytes, and what becomes of them.
use fluent_forward_go.Common.{
  take, length-append, subst, ℕ, ◌+◌, ◌≤◌, ◌<◌, ◌≡◌, ◌≢◌, refl, sym, ap, ◌∙◌, true, false, Option,
  none, some, [], ◌∷◌, ◌++◌, append_assoc, append-nil, Bytes, length, All, arith, update,
}
use fluent_forward_go.Msgp.Put.{Writes}
use fluent_forward_go.Msgp.Format.{Wire, IsFormat, IsWriter}
use fluent_forward_go.Protocol.Entries.{
  EntryExt, EntryList, entry_ext_wire, entries_wire, IsEntryExt,
}
use fluent_forward_go.Protocol.Entries.Write.{entry_ext_encode_msg_lem}
use fluent_forward_go.Protocol.Entries.Packed.{marshal_packed, marshal_packed_lem}
use fluent_forward_go.Protocol.Pool.{
  Store, Slice, contents, get_buffer, put_buffer, write_buffer, Marshalled, put_back, after_entry,
  marshal_loop, pooled_marshal_packed,
}
use fluent_forward_go.Protocol.Pool.Buffers.{
  put_buffer-IsStore, IsStore, get_buffer_lem, Holds, Keeps, write_buffer-Holds, write_buffer-Keeps,
  write_buffer_room,
}

-- The loop's end, and the store before the buffer is put back.
record Marshals (spare : ℕ → ℕ → ℕ) (st : Store) (b : Slice) (bs more : Bytes)
    (m : Marshalled spare) : Type 0 where
  left : Store
  slice : Slice
  result : m ≡ put_back spare (left, slice)
  holds : Holds left slice (bs ++ more)
  keeps : Keeps st b left slice
  room : b.len + length more ≤ length (st.arrays b.array) → slice.array ≡ b.array

same_slice :
    (st : Store) (s t : Slice) → s.array ≡ t.array → s.len ≡ t.len → contents st s ≡ contents st t
same_slice st s t a l = rw (a, l) refl

Keeps-trans :
    {st st1 st2 : Store} {b b1 b2 : Slice}
    → Keeps st b st1 b1
    → Keeps st1 b1 st2 b2
    → Keeps st b st2 b2
Keeps-trans k l = record {
  grows = omega (arith, k.grows, l.grows);
  same = λ j u n. l.same j (omega (arith, k.grows)) (k.apart j u n) ∙ k.same j u n;
  apart = λ j u n. l.apart j (omega (arith, k.grows)) (k.apart j u n);
  pool = l.pool ∙ k.pool;
}

module _ {Intf : Type 0} (w : Wire Intf) (fmt : IsFormat w) (wr : Writes Intf)
    (laws : IsWriter w wr) (spare : ℕ → ℕ → ℕ) (flushed : Bytes → ℕ) where
  module _ (e : EntryExt Intf) (es : EntryList Intf) (st : Store) (b : Slice) where
    abbrev bits : Bytes
    bits = entry_ext_wire w e

    abbrev next_store : Store
    next_store = (write_buffer spare bits st b).0

    abbrev next_buffer : Slice
    next_buffer = (write_buffer spare bits st b).1

    step_lem :
        IsEntryExt w e
        → marshal_loop spare flushed wr (e ∷ es) (st, b)
          ≡ marshal_loop spare flushed wr es (next_store, next_buffer)
    unfolding marshal_loop
    step_lem h =
        ap (after_entry spare flushed (marshal_loop spare flushed wr es) (st, b))
          (entry_ext_encode_msg_lem w fmt wr laws e h [])

    cons_lem :
        (bs : Bytes)
        → IsEntryExt w e
        → Holds st b bs
        → Marshals spare next_store next_buffer
            (bs ++ bits)
            (entries_wire w es)
            (marshal_loop spare flushed wr es (next_store, next_buffer))
        → Marshals spare st b bs
            (entries_wire w (e ∷ es))
            (marshal_loop spare flushed wr (e ∷ es) (st, b))
    cons_lem bs he k rest = record {
      left = rest.left;
      slice = rest.slice;
      result = step_lem he ∙ rest.result;
      holds =
          subst (Holds rest.left rest.slice) (append_assoc bs bits (entries_wire w es)) rest.holds;
      keeps = Keeps-trans (write_buffer-Keeps k bits spare) rest.keeps;
      room = λ r. stays r (write_buffer-Holds k bits spare);
    }
      where
        stays :
            b.len + length (bits ++ entries_wire w es) ≤ length (st.arrays b.array)
            → Holds next_store next_buffer (bs ++ bits)
            → rest.slice.array ≡ b.array
        stays r next =
            let sum = length-append bits (entries_wire w es) in
            let sum' = length-append bs bits in
            let (same, more) = write_buffer_room k bits spare (omega arith) in
            rest.room (omega (arith, next.size, k.size)) ∙ same

  marshal_loop_lem :
      (es : EntryList Intf) (st : Store) (b : Slice) (bs : Bytes)
      → All (IsEntryExt w) es
      → Holds st b bs
      → Marshals spare st b bs (entries_wire w es) (marshal_loop spare flushed wr es (st, b))
  unfolding marshal_loop
  marshal_loop_lem [] st b bs h k = record {
    left = st;
    slice = b;
    result = refl;
    holds = rw (append-nil bs) k;
    keeps = record { grows = omega arith; same = λ j u n. refl; apart = λ j u n. n; pool = refl };
    room = λ _. refl;
  }
  marshal_loop_lem (e ∷ es) st b bs (he, hs) k = cons_lem e es st b bs he k (
      marshal_loop_lem es _ _ (bs ++ entry_ext_wire w e) hs
        (write_buffer-Holds k (entry_ext_wire w e) spare))

  -- For entries with timestamps of 32 bits of seconds, nanoseconds below a second and records that
  -- the package reads back as written, over the pool of buffers and whichever buffer the pool
  -- gives, MarshalPacked returns a slice without an error, which reads as the bytes of the list,
  -- while its buffer is back in the pool; and each slice of an array in use reads as before, but
  -- where the pool gave the buffer of its array. The package of the codec obeys the laws of
  -- Msgp.Format.
  pub pooled_marshal_packed_lem :
      (es : EntryList Intf) (pick : Option ℕ) (st : Store)
      → All (IsEntryExt w) es
      → IsStore st
      → (st' : Store) × (s : Slice) × (pooled_marshal_packed spare flushed wr pick es st
          ≡ (st', (some s, none)))
        × (contents st' s ≡ (marshal_packed wr es).0)
        × (st'.pooled s.array ≡ true)
        × IsStore st'
        × ((t : Slice) → t.array < st.next → pick ≢ some t.array → contents st' t ≡ contents st t)
  unfolding pooled_marshal_packed
  pooled_marshal_packed_lem es pick st h k =
      let got = get_buffer_lem pick st k in
      let m = marshal_loop_lem es _ _ [] h got.empty in
      (
        put_buffer m.slice m.left,
        m.slice,
        m.result,
        m.holds.read ∙ sym (ap (λ r. r.0) (marshal_packed_lem w fmt wr laws es h)),
        ground arith,
        put_buffer-IsStore m.slice (get_buffer pick st).0 m.left got.valid m.keeps.grows
            m.keeps.pool m.holds.used,
        λ t u n. ap (take t.len) (
            m.keeps.same t.array (omega (arith, got.grows)) (got.apart t.array u n)
            ∙ got.same t.array u),
      )

  overwrite_lem :
      (es : EntryList Intf) (s : Slice) (st : Store)
      → All (IsEntryExt w) es
      → IsStore st
      → st.pooled s.array ≡ true
      → s.len ≡ length (entries_wire w es)
      → s.len ≤ length (st.arrays s.array)
      → contents (pooled_marshal_packed spare flushed wr (some s.array) es st).0 s
        ≡ entries_wire w es
  unfolding pooled_marshal_packed
  overwrite_lem es s st h k there size fits =
      let b : Slice = record { array = s.array; len = 0 } in
      let st1 : Store = record st { pooled = update st.pooled s.array false } in
      let taken : get_buffer (some s.array) st ≡ (st1, b) = rw there refl in
      let m =
        marshal_loop_lem es st1 b [] h
          (record { read = refl; fits = omega arith; size = refl; used = k s.array there }) in
      ap (λ sb. contents (marshal_loop spare flushed wr es sb).0 s) taken
      ∙ ap (λ r. contents r.0 s) m.result
      ∙ same_slice m.left s m.slice (sym (m.room (omega arith))) (size ∙ sym m.holds.size)
      ∙ m.holds.read

  -- For two lists of entries with timestamps of 32 bits of seconds, nanoseconds below a second and
  -- records that the package reads back as written, whose bytes are equally many: the slice that
  -- MarshalPacked returns for the first list reads as its bytes until a call for the second list is
  -- given the same buffer by the pool; after it, the slice of the first call reads as the bytes of
  -- the second list. The package of the codec obeys the laws of Msgp.Format.
  pub contents-pooled_marshal_packed :
      (es es' : EntryList Intf) (pick : Option ℕ) (st : Store)
      → All (IsEntryExt w) es
      → All (IsEntryExt w) es'
      → IsStore st
      → length (marshal_packed wr es').0 ≡ length (marshal_packed wr es).0
      → (st' : Store) × (s : Slice) × (pooled_marshal_packed spare flushed wr pick es st
          ≡ (st', (some s, none)))
        × (contents st' s ≡ (marshal_packed wr es).0)
        × (contents (pooled_marshal_packed spare flushed wr (some s.array) es' st').0 s
            ≡ (marshal_packed wr es').0)
  unfolding pooled_marshal_packed
  contents-pooled_marshal_packed es es' pick st h h' k e =
      let got = get_buffer_lem pick st k in
      let m = marshal_loop_lem es _ _ [] h got.empty in
      let bytes : (xs : EntryList Intf)
          → All (IsEntryExt w) xs
          → (marshal_packed wr xs).0 ≡ entries_wire w xs =
        λ xs hx. ap (λ r. r.0) (marshal_packed_lem w fmt wr laws xs hx) in
      let same_size : m.slice.len ≡ length (entries_wire w es') =
        m.holds.size ∙ ap length (sym (bytes es h)) ∙ sym e ∙ ap length (bytes es' h') in
      (
        put_buffer m.slice m.left,
        m.slice,
        m.result,
        m.holds.read ∙ sym (bytes es h),
        overwrite_lem es' m.slice (put_buffer m.slice m.left) h'
              (put_buffer-IsStore m.slice (get_buffer pick st).0 m.left got.valid m.keeps.grows
                m.keeps.pool m.holds.used)
              (ground arith) same_size m.holds.fits
            ∙ sym (bytes es' h'),
      )
