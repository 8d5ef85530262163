-- ===== src/Protocol/PackedForward/Compressed.antt =====
-- `GzipCompressor`, and the two constructors of compressed messages.
use fluent_forward_go.Common.{
  ℕ, ◌≡◌, refl, ap, Option, none, some, Bytes, codes, length, pos, [], ◌++◌, ◌∙◌, Bool, true, false,
}
use fluent_forward_go.Msgp.Put.{Writes}
use fluent_forward_go.Msgp.Errors.{Error}
use fluent_forward_go.Protocol.Entries.{EntryList}
use fluent_forward_go.Protocol.Entries.Packed.{marshal_packed}
use fluent_forward_go.Protocol.Options.{MessageOptions, empty}
use fluent_forward_go.Protocol.PackedForward.{
  PackedForwardMessage, Built, new_packed_forward_message_from_bytes,
}

-- `gzip.Writer` over a buffer: the state behind `gzip.NewWriter` or `Reset` on an empty buffer, its
-- `Write` and `Close`, and the bytes that it has put into the buffer.
pub record Gzip (W : Type 0) : Type 0 where
  pub fresh : W
  pub write : W → Bytes → W × Option Error
  pub close : W → W × Option Error
  pub output : W → Bytes

-- `if cerr := …; err == nil { err = cerr }`
abbrev first_error : Option Error → Option Error → Option Error
first_error none cerr = cerr
first_error (some e) cerr = some e

module _ {W : Type 0} (gz : Gzip W) where
  -- `Write` closes the stream on every path.
  unfoldable pub compressor_write : W → Bytes → W × Option Error
  compressor_write mc bits =
      let (written, err) = gz.write mc bits in
      let (closed, cerr) = gz.close written in (closed, first_error err cerr)

  -- `Reset`: whether the compressor is new or comes from the pool, its buffer is empty.
  unfoldable pub compressor_reset : W
  compressor_reset = gz.fresh

  abbrev pub compressed_of : Bytes → W × Option Error → Built
  compressed_of tag (mc, some e) = (none, some e)
  compressed_of tag (mc, none) = (
    some (record (new_packed_forward_message_from_bytes tag (gz.output mc)) {
      options = some (record empty { compressed = codes "gzip" });
    }),
    none,
  )

  unfoldable pub new_compressed_from_bytes : Bytes → Bytes → Built
  unfolding compressor_write compressor_reset new_packed_forward_message_from_bytes
  new_compressed_from_bytes tag entries =
      compressed_of tag (compressor_write compressor_reset entries)

  -- `msg.Options.Size = &lenEntries` where there is no error.
  abbrev set_size : ℕ → Option MessageOptions → Option MessageOptions
  set_size len none = none
  set_size len (some o) = some (record o { size = some (pos len) })

  abbrev sized : ℕ → Built → Built
  sized len (some msg, none) = (some (record msg { options = set_size len msg.options }), none)
  sized len (msg, e) = (msg, e)

  abbrev compressed_list : Bytes → ℕ → Bytes × Option Error → Built
  compressed_list tag len (bits, some e) = (none, some e)
  compressed_list tag len (bits, none) = sized len (new_compressed_from_bytes tag bits)

  unfoldable pub new_compressed : {Intf : Type 0} → Writes Intf → Bytes → EntryList Intf → Built
  unfolding new_compressed_from_bytes
  new_compressed wr tag entries = compressed_list tag (length entries) (marshal_packed wr entries)

-- What the documentation of gzip.Writer says: each `Write` adds to what the stream holds, and only
-- `Close` makes the output complete, which then decompresses to it. `content` and `is_closed` say of a
-- writer what it holds and whether it was closed.
pub record IsGzip {W : Type 0} (gz : Gzip W) (gunzip : Bytes → Option Bytes) (content : W → Bytes)
    (is_closed : W → Bool) : Type 0 where
  pub fresh : (content gz.fresh ≡ []) × (is_closed gz.fresh ≡ false)
  pub write :
      (w : W) (bits : Bytes)
      → is_closed w ≡ false
      → (gz.write w bits).1 ≡ none
      → (content (gz.write w bits).0 ≡ content w ++ bits) × (is_closed (gz.write w bits).0 ≡ false)
  pub close :
      (w : W)
      → is_closed w ≡ false
      → (gz.close w).1 ≡ none
      → (content (gz.close w).0 ≡ content w) × (is_closed (gz.close w).0 ≡ true)
  pub complete : (w : W) → is_closed w ≡ true → gunzip (gz.output w) ≡ some (content w)

module _ {W : Type 0} (gz : Gzip W) (gunzip : Bytes → Option Bytes) (content : W → Bytes)
    (is_closed : W → Bool) (laws : IsGzip gz gunzip content is_closed) where
  -- `Write` and then `Close` on a fresh stream.
  gunzip_lem :
      (bits : Bytes)
      → (gz.write gz.fresh bits).1 ≡ none
      → (gz.close (gz.write gz.fresh bits).0).1 ≡ none
      → gunzip (gz.output (gz.close (gz.write gz.fresh bits).0).0) ≡ some bits
  gunzip_lem bits h k =
      let (held, fine) = laws.write gz.fresh bits laws.fresh.1 h in
      let (kept, shut) = laws.close (gz.write gz.fresh bits).0 fine k in
      laws.complete (gz.close (gz.write gz.fresh bits).0).0 shut
      ∙ ap some (kept ∙ (held ∙ ap (λ c. c ++ bits) laws.fresh.0))

  -- Where neither Write nor Close of the gzip.Writer reports an error,
  -- NewCompressedPackedForwardMessageFromBytes gives a message with the tag, with options that name
  -- gzip and nothing else, and with a stream that decompresses to the bytes given. The gzip.Writer
  -- obeys the laws of IsGzip: each Write adds to what it holds, and what was closed decompresses to
  -- that.
  pub new_compressed_from_bytes_lem :
      (tag bits : Bytes)
      → (gz.write gz.fresh bits).1 ≡ none
      → (gz.close (gz.write gz.fresh bits).0).1 ≡ none
      → (msg : PackedForwardMessage) × (new_compressed_from_bytes gz tag bits ≡ (some msg, none))
        × (msg.tag ≡ tag)
        × (gunzip msg.event_stream ≡ some bits)
        × (msg.options ≡ some (record empty { compressed = codes "gzip" }))
  unfolding new_compressed_from_bytes
  new_compressed_from_bytes_lem tag bits h k =
      let msg : PackedForwardMessage = record {
        tag = tag;
        event_stream = gz.output (gz.close (gz.write gz.fresh bits).0).0;
        options = some (record empty { compressed = codes "gzip" });
      } in
      (msg, rw (h, k) refl, refl, gunzip_lem bits h k, refl)
