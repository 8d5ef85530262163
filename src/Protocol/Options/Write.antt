-- ===== src/Protocol/Options/Write.antt =====
-- `EncodeMsg` and `MarshalMsg` of `MessageOptions`.
use Prim.Native.Nat.{bit_and, bit_or}
use fluent_forward_go.Common.{
  ℕ, ◌+◌, ◌<◌, ◌≡◌, refl, sym, ap, ◌∙◌, not, Option, none, some, [], ◌∷◌, ◌++◌, append_assoc, Bytes,
  ◌==◌, if◌then◌else◌, ℤ, codes, arith, Bool-cases, length, inl, ==_iff, inr,
}
use fluent_forward_go.Msgp.Errors.{name}
use fluent_forward_go.Msgp.Put.{
  Put, Writes, Appends, total, literal, nothing, wrap, ◌>>◌, Emits, Emits-seq, Emits-wrap,
  Emits-literal, Emits-nothing, Emits-eq,
}
use fluent_forward_go.Msgp.Format.{Wire, IsFormat, IsWriter, IsAppender, IsShort}
use fluent_forward_go.Protocol.Options.{
  MessageOptions, key_size, key_chunk, key_compressed, is_none, is_empty, present_len, empty_mask,
  field_count, count_size, count_string, IsSize, IsOptions, size_wire, string_wire, options_wire,
}

-- `if (zb0001Mask & bit) == 0 { … }`
abbrev unless_empty : ℕ → ℕ → Put → Put
unless_empty mask bit p = if bit_and mask bit == 0 then p else nothing

module _ {Intf : Type 0} (wr : Writes Intf) where
  abbrev encode_size : Option ℤ → Put
  encode_size none = wr.write_nil
  encode_size (some n) = wrap (name "Size" ∷ []) (wr.write_int n)

  unfoldable pub encode_msg : MessageOptions → Put
  encode_msg z =
      let len = present_len z in
      let mask = empty_mask z in
      wr.append (bit_or 0x80 len ∷ [])
      >> (if len == 0
          then nothing
          else unless_empty mask 0x1 (wr.append key_size >> encode_size z.size)
            >> unless_empty mask 0x2
                (wr.append key_chunk >> wrap (name "Chunk" ∷ []) (wr.write_string z.chunk))
            >> unless_empty mask 0x4 (
                wr.append key_compressed
                >> wrap (name "Compressed" ∷ []) (wr.write_string z.compressed)))

module _ {Intf : Type 0} (ap : Appends Intf) where
  abbrev marshal_size : Option ℤ → Put
  marshal_size none = total ap.append_nil
  marshal_size (some n) = total (ap.append_int n)

  unfoldable pub marshal_msg : MessageOptions → Put
  marshal_msg z =
      let len = present_len z in
      let mask = empty_mask z in
      literal (bit_or 0x80 len ∷ [])
      >> (if len == 0
          then nothing
          else unless_empty mask 0x1 (literal key_size >> marshal_size z.size)
            >> unless_empty mask 0x2 (literal key_chunk >> total (ap.append_string z.chunk))
            >> unless_empty mask 0x4
                (literal key_compressed >> total (ap.append_string z.compressed)))

-- The bits of the mask, and the length, for each choice of empty fields.
size_bit : (z : MessageOptions) → (bit_and (empty_mask z) 0x1 == 0) ≡ not (is_none z.size)
unfolding empty_mask
size_bit z = ground arith

chunk_bit : (z : MessageOptions) → (bit_and (empty_mask z) 0x2 == 0) ≡ not (is_empty z.chunk)
unfolding empty_mask
chunk_bit z = ground arith

compressed_bit :
    (z : MessageOptions) → (bit_and (empty_mask z) 0x4 == 0) ≡ not (is_empty z.compressed)
unfolding empty_mask
compressed_bit z = ground arith

present_len_lem : (z : MessageOptions) → present_len z ≡ field_count z
unfolding present_len
present_len_lem z = ground arith

header_lem : (z : MessageOptions) → bit_or 0x80 (present_len z) ≡ 0x80 + field_count z
unfolding present_len
header_lem z = ground arith

-- With no field to write, the map is its header alone.
module _ {Intf : Type 0} (w : Wire Intf) where
  no_fields :
      (s : Option ℤ) (c d : Bytes)
      → count_size s (count_string c (count_string d 0)) ≡ 0
      → size_wire w s ++ (string_wire w (codes "chunk") c ++ string_wire w (codes "compressed") d)
        ≡ []
  no_fields none [] [] h = refl
  no_fields none [] (x ∷ d) h = absurd (omega arith)
  no_fields none (x ∷ c) d h = absurd (omega arith)
  no_fields (some n) c d h = absurd (omega arith)

  -- The shape that `EncodeMsg` and `MarshalMsg` share.
  fields_lem :
      (z : MessageOptions) (p q r : Put)
      → Emits (if not (is_none z.size) then p else nothing) (size_wire w z.size)
      → Emits
          (if not (is_empty z.chunk) then q else nothing)
          (string_wire w (codes "chunk") z.chunk)
      → Emits
          (if not (is_empty z.compressed) then r else nothing)
          (string_wire w (codes "compressed") z.compressed)
      → Emits
          (if present_len z == 0
            then nothing
            else unless_empty (empty_mask z) 0x1 p
              >> unless_empty (empty_mask z) 0x2 q
              >> unless_empty (empty_mask z) 0x4 r)
          (size_wire w z.size
            ++ (string_wire w (codes "chunk") z.chunk
                ++ string_wire w (codes "compressed") z.compressed))
  fields_lem z p q r hp hq hr =
      rw (size_bit z, chunk_bit z, compressed_bit z, present_len_lem z)
        (elim (Bool-cases (field_count z == 0)) [
          | inl e ↦ rw e (
              Emits-eq nothing (sym (no_fields z.size z.chunk z.compressed ((==_iff _ _).0 e)))
                Emits-nothing)
          | inr e ↦ rw e (
              Emits-eq _ (append_assoc (size_wire w z.size) _ _)
                (Emits-seq _ _ _ _ (Emits-seq _ _ _ _ hp hq) hr))
        ])

  string_field :
      (key s : Bytes) (put_key p : Put)
      → Emits put_key (w.string key)
      → (IsShort s → Emits p (w.string s))
      → IsShort s
      → Emits (if not (is_empty s) then put_key >> p else nothing) (string_wire w key s)
  string_field key [] k p hk hp h = Emits-nothing
  string_field key (x ∷ s) k p hk hp h = Emits-seq k p _ _ hk (hp h)

  fixed_key :
      IsFormat w
      → (key : Bytes) (p : Put) → length key < 32
      → Emits p ((0xa0 + length key) ∷ key)
      → Emits p (w.string key)
  fixed_key fmt key p short h = Emits-eq p (sym (fmt.fix_string key short)) h

  header_Emits :
      IsFormat w
      → (z : MessageOptions) (p : Put) → Emits p (bit_or 0x80 (present_len z) ∷ [])
      → Emits p (w.map_header (field_count z))
  header_Emits fmt z p h =
      Emits-eq p (ap (λ (b : ℕ). b ∷ []) (header_lem z) ∙ sym (fmt.fix_map (field_count z) few)) h
    where
      few : field_count z < 16
      few = ground arith

  module _ (fmt : IsFormat w) (wr : Writes Intf) (laws : IsWriter w wr) where
    size_written :
        (s : Option ℤ)
        → IsSize s
        → Emits
            (if not (is_none s) then wr.append key_size >> encode_size wr s else nothing)
            (size_wire w s)
    size_written none h = Emits-nothing
    size_written (some n) h =
        Emits-seq (wr.append key_size) _ _ _
          (fixed_key fmt (codes "size") _ (omega arith) (laws.append key_size))
          (Emits-wrap _ _ _ (laws.int n h))

    -- `EncodeMsg` writes the map of the fields that are not empty, and meets no error.
    pub encode_msg_lem :
        (z : MessageOptions) → IsOptions z → Emits (encode_msg wr z) (options_wire w z)
    unfolding encode_msg
    encode_msg_lem z h = Emits-seq _ _ _ _ (header_Emits fmt z _ (laws.append _)) (
        fields_lem z _ _ _ (size_written z.size h.size_int)
          (string_field (codes "chunk") z.chunk _ _
            (fixed_key fmt (codes "chunk") _ (omega arith) (laws.append key_chunk))
            (λ s. Emits-wrap _ _ _ (laws.string z.chunk s)) h.chunk_short)
          (string_field (codes "compressed") z.compressed _ _
            (fixed_key fmt (codes "compressed") _ (omega arith) (laws.append key_compressed))
            (λ s. Emits-wrap _ _ _ (laws.string z.compressed s)) h.compressed_short))

  module _ (fmt : IsFormat w) (ap : Appends Intf) (laws : IsAppender w ap) where
    size_appended :
        (s : Option ℤ)
        → IsSize s
        → Emits
            (if not (is_none s) then literal key_size >> marshal_size ap s else nothing)
            (size_wire w s)
    size_appended none h = Emits-nothing
    size_appended (some n) h =
        Emits-seq (literal key_size) _ _ _
          (fixed_key fmt (codes "size") _ (omega arith) (Emits-literal key_size)) (laws.int n h)

    -- `MarshalMsg` appends the same bytes.
    pub marshal_msg_lem :
        (z : MessageOptions) → IsOptions z → Emits (marshal_msg ap z) (options_wire w z)
    unfolding marshal_msg
    marshal_msg_lem z h = Emits-seq _ _ _ _ (header_Emits fmt z _ (Emits-literal _)) (
        fields_lem z _ _ _ (size_appended z.size h.size_int)
          (string_field (codes "chunk") z.chunk _ _
            (fixed_key fmt (codes "chunk") _ (omega arith) (Emits-literal key_chunk))
            (laws.string z.chunk) h.chunk_short)
          (string_field (codes "compressed") z.compressed _ _
            (fixed_key fmt (codes "compressed") _ (omega arith) (Emits-literal key_compressed))
            (laws.string z.compressed) h.compressed_short))
