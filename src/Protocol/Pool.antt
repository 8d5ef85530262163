-- ===== src/Protocol/Pool.antt =====
-- The pool of buffers of fluent/protocol/transport.go, with the arrays that its buffers share with
-- the bytes that `MarshalPacked` returns.
pub mod Buffers
pub mod Marshal
pub mod Compressed
mod Runs
use fluent_forward_go.Common.{
  ℕ, ◌+◌, Bool, true, false, Option, none, some, [], ◌∷◌, ◌++◌, Bytes, length, take, drop,
  replicate, leb, if◌then◌else◌, update,
}
use fluent_forward_go.Msgp.Errors.{Error}
use fluent_forward_go.Msgp.Put.{Written, wrote, broke, Writes}
use fluent_forward_go.Protocol.Entries.{EntryList}
use fluent_forward_go.Protocol.Entries.Write.{entry_ext_encode_msg}

-- The arrays behind slices of bytes, each as long as its capacity, and those from `next` on unused.
-- `pooled` are the arrays whose buffer is in `bufferPool`.
pub record Store : Type 0 where
  pub arrays : ℕ → Bytes
  pub next : ℕ
  pub pooled : ℕ → Bool

-- A `bytes.Buffer` that nothing has been read from, or a slice: the first `len` bytes of an array.
pub record Slice : Type 0 where
  pub array : ℕ
  pub len : ℕ

abbrev pub contents : Store → Slice → Bytes
contents st s = take s.len (st.arrays s.array)

abbrev pub new_buffer : Store → Store × Slice
new_buffer st = (
  record st { arrays = update st.arrays st.next []; next = st.next + 1 },
  record { array = st.next; len = 0 },
)

-- `bufferPool.Get`, and `Reset` of the buffer, which keeps its array. The pool gives one of its
-- buffers, or a new one: `pick` is its choice.
abbrev pub get_buffer : Option ℕ → Store → Store × Slice
get_buffer none st = new_buffer st
get_buffer (some a) st =
    if st.pooled a
    then (record st { pooled = update st.pooled a false }, record { array = a; len = 0 })
    else new_buffer st

abbrev pub put_buffer : Slice → Store → Store
put_buffer b st = record st { pooled = update st.pooled b.array true }

-- `Write` of a buffer: in its array where the bytes have room, else in a new array, with `spare`
-- bytes more than are needed, by the capacity and the length.
module _ (spare : ℕ → ℕ → ℕ) where
  abbrev pub write_buffer : Bytes → Store → Slice → Store × Slice
  write_buffer bs st b =
      let cells = st.arrays b.array in
      let len = b.len + length bs in
      let kept = take b.len cells in
      if leb len (length cells)
      then (
        record st { arrays = update st.arrays b.array (kept ++ (bs ++ drop len cells)) },
        record { array = b.array; len = len },
      )
      else (
        record st {
          arrays =
              update st.arrays st.next (kept ++ (bs ++ replicate (spare (length cells) len) 0));
          next = st.next + 1;
        },
        record { array = st.next; len = len },
      )

  -- What a call of `MarshalPacked` returns: nil, or a slice.
  abbrev pub Marshalled : Type 0
  Marshalled = Store × (Option Slice × Option Error)

  abbrev pub put_back : Store × Slice → Marshalled
  put_back (st, b) = (put_buffer b st, (some b, none))

  abbrev pub put_back_failed : Error → Store × Slice → Marshalled
  put_back_failed e (st, b) = (put_buffer b st, (none, some e))

  -- What `msgp.Encode` made of an entry goes to the buffer. On an error its writer is not flushed:
  -- the buffer has what the writer had passed on before, `flushed` bytes.
  module _ (flushed : Bytes → ℕ) where
    abbrev pub after_entry : (Store × Slice → Marshalled) → Store × Slice → Written → Marshalled
    after_entry loop (st, b) (wrote bs) = loop (write_buffer bs st b)
    after_entry loop (st, b) (broke e bs) =
        put_back_failed e (write_buffer (take (flushed bs) bs) st b)

    module _ {Intf : Type 0} (wr : Writes Intf) where
      -- The loop over the list.
      unfoldable pub marshal_loop : EntryList Intf → Store × Slice → Marshalled
      marshal_loop [] sb = put_back sb
      marshal_loop (e ∷ es) sb = after_entry (marshal_loop es) sb (entry_ext_encode_msg wr e [])

      unfoldable pub pooled_marshal_packed : Option ℕ → EntryList Intf → Store → Marshalled
      unfolding marshal_loop
      pooled_marshal_packed pick el st = marshal_loop el (get_buffer pick st)
