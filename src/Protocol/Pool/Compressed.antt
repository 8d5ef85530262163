-- ===== src/Protocol/Pool/Compressed.antt =====
-- `NewCompressedPackedForwardMessageFromBytes` of fluent/protocol/packed_forward_message.go over
-- `compressorPool`: a compressor keeps its buffer, and the message shares the array.
use fluent_forward_go.Common.{sym, ℕ, Option, none, some, Bytes, codes, ◌≡◌, ap, ◌∙◌, true, arith}
use fluent_forward_go.Msgp.Errors.{Error}
use fluent_forward_go.Protocol.Options.{MessageOptions, empty}
use fluent_forward_go.Protocol.PackedForward.{PackedForwardMessage}
use fluent_forward_go.Protocol.PackedForward.Compressed.{
  Gzip, compressor_write, compressor_reset, new_compressed_from_bytes, compressed_of,
}
use fluent_forward_go.Protocol.Pool.{Store, Slice, contents, get_buffer, put_buffer, write_buffer}
use fluent_forward_go.Protocol.Pool.Buffers.{
  Holds, IsStore, get_buffer_lem, put_buffer-IsStore, write_buffer-Holds, write_buffer-Keeps,
}

-- A message whose stream is a slice.
pub record SharedMessage : Type 0 where
  pub tag : Bytes
  pub event_stream : Slice
  pub options : Option MessageOptions

-- The message as the store has it.
abbrev pub read_message : Store → SharedMessage → PackedForwardMessage
read_message st m = record {
  tag = m.tag;
  event_stream = contents st m.event_stream;
  options = m.options;
}

abbrev pub SharedBuilt : Type 0
SharedBuilt = Store × (Option SharedMessage × Option Error)

-- The deferred call puts the compressor back on each path.
abbrev pub built_of : Bytes → Option Error → Store × Slice → SharedBuilt
built_of tag (some e) (st, b) = (put_buffer b st, (none, some e))
built_of tag none (st, b) = (
  put_buffer b st,
  (
    some (record {
      tag = tag;
      event_stream = b;
      options = some (record empty { compressed = codes "gzip" });
    }),
    none,
  ),
)

module _ {W : Type 0} (gz : Gzip W) (spare : ℕ → ℕ → ℕ) where
  -- What the compressor puts out goes to its buffer.
  abbrev pub compressed_into : Bytes → W × Option Error → Store × Slice → SharedBuilt
  compressed_into tag (mc, e) (st, b) = built_of tag e (write_buffer spare (gz.output mc) st b)

  unfoldable pub pooled_compressed_from_bytes : Option ℕ → Bytes → Bytes → Store → SharedBuilt
  pooled_compressed_from_bytes pick tag entries st =
      compressed_into tag (compressor_write gz (compressor_reset gz) entries) (get_buffer pick st)

  -- Whichever compressor the pool gives, the message reads as the one of
  -- NewCompressedPackedForwardMessageFromBytes, while its compressor is back in the pool.
  pub pooled_compressed_from_bytes_lem :
      (pick : Option ℕ) (tag entries : Bytes) (st : Store)
      → IsStore st
      → (compressor_write gz (compressor_reset gz) entries).1 ≡ none
      → (st' : Store) × (m : SharedMessage) × (pooled_compressed_from_bytes pick tag entries st
          ≡ (st', (some m, none)))
        × (new_compressed_from_bytes gz tag entries ≡ (some (read_message st' m), none))
        × (st'.pooled m.event_stream.array ≡ true)
        × IsStore st'
  unfolding pooled_compressed_from_bytes new_compressed_from_bytes
  pooled_compressed_from_bytes_lem pick tag entries st k h =
      let mc : W = (compressor_write gz (compressor_reset gz) entries).0 in
      let out : Bytes = gz.output mc in
      let got = get_buffer_lem pick st k in
      let st1 : Store = (get_buffer pick st).0 in
      let w : Store × Slice = write_buffer spare out st1 (get_buffer pick st).1 in
      let holds : Holds w.0 w.1 out = write_buffer-Holds got.empty out spare in
      let keeps = write_buffer-Keeps got.empty out spare in
      let opts : Option MessageOptions = some (record empty { compressed = codes "gzip" }) in
      (
        put_buffer w.1 w.0,
        record { tag = tag; event_stream = w.1; options = opts },
        ap (λ e. built_of tag e w) h,
        ap (λ e. compressed_of gz tag (mc, e)) h
            ∙ ap (λ bs. (some (record { tag = tag; event_stream = bs; options = opts }), none))
                (sym holds.read),
        ground arith,
        put_buffer-IsStore w.1 st1 w.0 got.valid keeps.grows keeps.pool holds.used,
      )
