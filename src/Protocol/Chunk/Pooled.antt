-- ===== src/Protocol/Chunk/Pooled.antt =====
-- `ChunkReader` of fluent/protocol/chunk.go, and `GetChunk` with the readers of `chunkReaderPool`.
use fluent_forward_go.Common.{List, [], ◌∷◌, Bytes, ◌≡◌, refl}
use fluent_forward_go.Msgp.Get.{Outcome, done, failed}
use fluent_forward_go.Msgp.Format.{Reads}
use fluent_forward_go.Protocol.Chunk.{get_chunk}

-- A new reader has no `bytes.Reader`; after that it has one over the bytes that are left.
pub data ChunkReader : Type 0 where
  unset : ChunkReader
  over : Bytes → ChunkReader

abbrev pub reset : Bytes → ChunkReader → ChunkReader
reset b unset = over b
reset b (over left) = over b

abbrev pub unread : ChunkReader → Bytes
unread unset = []
unread (over left) = left

abbrev pub left_over : Outcome (Unit {0}) Bytes → ChunkReader
left_over (done chunk u left) = over left
left_over (failed e u left) = over left

-- The pool is the readers that were put back, the last one first.
abbrev pub reader_of : List ChunkReader → ChunkReader × List ChunkReader
reader_of [] = (unset, [])
reader_of (cr ∷ crs) = (cr, crs)

module _ {Intf : Type 0} (rd : Reads Intf) where
  abbrev pub read_and_put :
      Outcome (Unit {0}) Bytes → List ChunkReader → Outcome (Unit {0}) Bytes × List ChunkReader
  read_and_put o crs = (o, left_over o ∷ crs)

  unfoldable pub pooled_get_chunk :
      Bytes → List ChunkReader → Outcome (Unit {0}) Bytes × List ChunkReader
  pooled_get_chunk b pool =
      let (cr, crs) = reader_of pool in read_and_put (get_chunk rd (unread (reset b cr))) crs

  -- Whatever a reader of the pool has left, GetChunk searches the bytes that it is given.
  pooled_get_chunk_lem :
      (b : Bytes) (pool : List ChunkReader) → (pooled_get_chunk b pool).0 ≡ get_chunk rd b
  unfolding pooled_get_chunk
  pooled_get_chunk_lem b [] = refl
  pooled_get_chunk_lem b (unset ∷ crs) = refl
  pooled_get_chunk_lem b (over left ∷ crs) = refl
