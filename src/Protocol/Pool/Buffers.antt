-- ===== src/Protocol/Pool/Buffers.antt =====
-- What a write to a buffer of fluent/protocol/transport.go leaves in it, and in other arrays.
use native.Mathlib.Decide.{ℕ_discrete}
use fluent_forward_go.Common.{
  Option, none, some, true, le→leb, zero, suc, [], ◌∷◌, update, Bool-cases, inl, inr, ℕ, ◌+◌, ◌≤◌,
  ◌<◌, ◌≡◌, ◌≢◌, sym, ap, ◌∙◌, refl, ◌++◌, append_assoc, Bytes, length, take, drop, length-append,
  length-take_le, take-length_append, leb, arith,
}
use fluent_forward_go.Protocol.Pool.{
  Store, Slice, contents, write_buffer, put_buffer, new_buffer, get_buffer,
}

-- A buffer with what was written to it.
pub record Holds (st : Store) (b : Slice) (bs : Bytes) : Type 0 where
  pub read : contents st b ≡ bs
  pub fits : b.len ≤ length (st.arrays b.array)
  pub size : b.len ≡ length bs
  pub used : b.array < st.next

update_same : {A : Type 0} (f : ℕ → A) (i : ℕ) {a : A} → update f i a i ≡ a
update_same f i = ground arith

-- Arrays in use stay as they are, but for that of the buffer, and the buffer gets none of them.
pub record Keeps (st : Store) (b : Slice) (st' : Store) (b' : Slice) : Type 0 where
  pub grows : st.next ≤ st'.next
  pub same : (j : ℕ) → j < st.next → j ≢ b.array → st'.arrays j ≡ st.arrays j
  pub apart : (j : ℕ) → j < st.next → j ≢ b.array → j ≢ b'.array
  pub pool : st'.pooled ≡ st.pooled

take_more :
    (n : ℕ) (cells bs rest : Bytes)
    → n ≤ length cells
    → take (n + length bs) (take n cells ++ (bs ++ rest)) ≡ take n cells ++ bs
take_more n cells bs rest h =
    rw (sym (append_assoc (take n cells) bs rest), sym size)
      (take-length_append (take n cells ++ bs) rest)
  where
    size : length (take n cells ++ bs) ≡ n + length bs
    size = rw (length-append (take n cells) bs, length-take_le n cells h) refl

length_more :
    (n : ℕ) (cells bs rest : Bytes)
    → n ≤ length cells
    → n + length bs ≤ length (take n cells ++ (bs ++ rest))
length_more n cells bs rest h =
    rw (length-append (take n cells) (bs ++ rest), length-append bs rest, length-take_le n cells h)
      (omega arith)

le_length-drop : (n : ℕ) (xs : Bytes) → length xs ≤ n + length (drop n xs)
le_length-drop zero xs = omega arith
le_length-drop (suc n) [] = omega arith
le_length-drop (suc n) (x ∷ xs) = omega (arith, le_length-drop n xs)

capacity_lem :
    (n : ℕ) (cells bs : Bytes)
    → n ≤ length cells
    → length cells ≤ length (take n cells ++ (bs ++ drop (n + length bs) cells))
capacity_lem n cells bs h =
    rw
      (
        length-append (take n cells) (bs ++ drop (n + length bs) cells),
        length-append bs (drop (n + length bs) cells),
        length-take_le n cells h,
      )
      (omega (arith, le_length-drop (n + length bs) cells))

-- Both kinds of write put the kept bytes, the new ones and some more into array `a`.
abbrev placed : ℕ → ℕ → Bytes → Bytes → Store → Slice → Store
placed a next more rest st b = record st {
  arrays = update st.arrays a (take b.len (st.arrays b.array) ++ (more ++ rest));
  next = next;
}

module _ {st : Store} {b : Slice} {bs : Bytes} (h : Holds st b bs) (more : Bytes) where
  open h use {read, fits, size, used}

  placed-Holds :
      (a next : ℕ) (rest : Bytes)
      → a < next
      → Holds
          (placed a next more rest st b)
          (record { array = a; len = b.len + length more })
          (bs ++ more)
  placed-Holds a next rest k = record {
    read =
        rw (update_same st.arrays a, take_more b.len (st.arrays b.array) more rest fits, read) refl;
    fits = rw (update_same st.arrays a) (length_more b.len (st.arrays b.array) more rest fits);
    size = rw (length-append bs more, size) refl;
    used = k;
  }

  -- A write adds its bytes to the buffer.
  pub write_buffer-Holds :
      (spare : ℕ → ℕ → ℕ)
      → let (st', b') = write_buffer spare more st b in Holds st' b' (bs ++ more)
  write_buffer-Holds spare =
      elim (Bool-cases (leb (b.len + length more) (length (st.arrays b.array)))) [
        | inl room ↦ rw room (placed-Holds b.array st.next _ used)
        | inr full ↦ rw full (placed-Holds st.next (st.next + 1) _ (omega arith))
      ]

  pub write_buffer-Keeps :
      (spare : ℕ → ℕ → ℕ) → let (st', b') = write_buffer spare more st b in Keeps st b st' b'
  write_buffer-Keeps spare =
      elim (Bool-cases (leb (b.len + length more) (length (st.arrays b.array)))) [
        | inl room ↦ rw room (record {
          grows = omega arith;
          same = λ j u n. ground arith;
          apart = λ j u n. n;
          pool = refl;
        })
        | inr full ↦ rw full (record {
          grows = omega arith;
          same = λ j u n. ground arith;
          apart = λ j u n e. absurd (omega arith);
          pool = refl;
        })
      ]

  -- In its array it has as much room as before.
  pub write_buffer_room :
      (spare : ℕ → ℕ → ℕ)
      → b.len + length more ≤ length (st.arrays b.array)
      → let (st', b') = write_buffer spare more st b in
        (b'.array ≡ b.array) × (length (st.arrays b.array) ≤ length (st'.arrays b'.array))
  write_buffer_room spare k =
      rw
        (le→leb (b.len + length more) (length (st.arrays b.array)) k, update_same st.arrays b.array)
        (refl, capacity_lem b.len (st.arrays b.array) more fits)

-- The pool holds no unused array.
abbrev pub IsStore : Store → Type 0
IsStore st = (a : ℕ) → st.pooled a ≡ true → a < st.next

-- An empty buffer, in an array that no slice has, unless the pool picked it.
pub record Gets (pick : Option ℕ) (st st' : Store) (b : Slice) : Type 0 where
  pub empty : Holds st' b []
  pub grows : st.next ≤ st'.next
  pub same : (j : ℕ) → j < st.next → st'.arrays j ≡ st.arrays j
  pub apart : (j : ℕ) → j < st.next → pick ≢ some j → j ≢ b.array
  pub valid : IsStore st'

new_buffer_lem :
    (pick : Option ℕ) (st : Store) → IsStore st → Gets pick st (new_buffer st).0 (new_buffer st).1
new_buffer_lem pick st k = record {
  empty = record { read = ground arith; fits = omega arith; size = refl; used = omega arith };
  grows = omega arith;
  same = λ j u. ground arith;
  apart = λ j u n e. absurd (omega arith);
  valid = λ a p. omega (arith, k a p);
}

pub get_buffer_lem :
    (pick : Option ℕ) (st : Store)
    → IsStore st
    → Gets pick st (get_buffer pick st).0 (get_buffer pick st).1
get_buffer_lem none st k = new_buffer_lem none st k
get_buffer_lem (some a) st k = elim (Bool-cases (st.pooled a)) [
  | inr gone ↦ rw gone (new_buffer_lem (some a) st k)
  | inl there ↦ rw there (record {
    empty = record { read = refl; fits = omega arith; size = refl; used = k a there };
    grows = omega arith;
    same = λ j u. refl;
    apart = λ j u n e. n (ap some (sym e));
    valid = λ j p. k j (ground arith);
  })
]

pub put_buffer-IsStore :
    (s : Slice) (st st' : Store)
    → IsStore st
    → st.next ≤ st'.next
    → st'.pooled ≡ st.pooled
    → s.array < st'.next
    → IsStore (put_buffer s st')
put_buffer-IsStore s st st' k h e u a p = elim (ℕ_discrete s.array a) [
  | yes same ↦ omega arith
  | no other ↦ omega (arith, k a (ap (λ f. f a) (sym e) ∙ ground arith))
]
