-- ===== src/Protocol/Options/Read.antt =====
-- `DecodeMsg` and `UnmarshalMsg` of `MessageOptions`.
use fluent_forward_go.Common.{
  ℕ, zero, suc, ◌^◌, ◌<◌, ◌≡◌, sym, ap, Bool, true, false, Option, none, some, [], ◌∷◌, ◌++◌,
  append_assoc, append-nil, arith, if◌then◌else◌, Bytes, same, codes, ℤ, IsInt64,
}
use fluent_forward_go.Msgp.Get.{
  nil_outcome, Get, read_into, read, peek, wrap, nil_on_error, act, update, pass, ◌>>=◌, ◌>>◌,
  Takes, Takes-bind, Takes-peek, Takes-read, Takes-wrap, Takes-pass, Takes-eq, Takes-into,
  Takes-then,
}
use fluent_forward_go.Msgp.Errors.{name}
use fluent_forward_go.Msgp.Format.{Wire, Reads, IsShort, IsReader}
use fluent_forward_go.Protocol.Options.{
  count_string, count_size, field_count, MessageOptions, IsSize, IsOptions, size_wire, string_wire,
  options_wire, empty,
}

module _ {Intf : Type 0} (rd : Reads Intf) where
  abbrev Fields : Type 0
  Fields = Get MessageOptions (Unit {0})

  -- The cases of `switch msgp.UnsafeString(field)`. `read_nil` is the read of a nil under "size",
  -- whose error `DecodeMsg` wraps and `UnmarshalMsg` does not.
  abbrev size_value : Fields → Bool → Fields
  size_value read_nil true = read_nil >> update (λ z. record z { size = none })
  size_value read_nil false =
      wrap (name "Size" ∷ []) (read_into rd.read_int (λ n z. record z { size = some n }))

  abbrev read_size : Fields → Fields
  read_size read_nil = do is_nil ← peek rd.is_nil; size_value read_nil is_nil

  abbrev read_chunk : Fields
  read_chunk = wrap (name "Chunk" ∷ []) (read_into rd.read_string (λ s z. record z { chunk = s }))

  abbrev read_compressed : Fields
  read_compressed =
      wrap (name "Compressed" ∷ []) (read_into rd.read_string (λ s z. record z { compressed = s }))

  read_field : Fields → Bytes → Fields
  unfolding same
  read_field read_nil key =
      if same key (codes "size")
      then read_size read_nil
      else if same key (codes "chunk")
      then read_chunk
      else if same key (codes "compressed")
      then read_compressed
      else wrap [] (act rd.skip)

  -- `for zb0001 > 0 { zb0001--; … }`
  read_fields : Fields → ℕ → Fields
  read_fields read_nil zero = pass
  read_fields read_nil (suc n) =
      wrap [] (read rd.read_map_key) >>= λ key. read_field read_nil key >> read_fields read_nil n

  unfoldable pub decode_msg : Fields
  unfolding read_fields read_field
  decode_msg =
      wrap [] (read rd.read_map_header) >>= read_fields (wrap (name "Size" ∷ []) (act rd.read_nil))

  unfoldable pub unmarshal_msg : Fields
  unfolding read_fields read_field
  unmarshal_msg = nil_on_error (wrap [] (read rd.read_map_header) >>= read_fields (act rd.read_nil))

-- The receiver `r` after the fields of `z` have been read into it: what `z` leaves out stays.
abbrev or_size : Option ℤ → MessageOptions → MessageOptions
or_size none r = r
or_size (some n) r = record r { size = some n }

abbrev or_chunk : Bytes → MessageOptions → MessageOptions
or_chunk [] r = r
or_chunk (x ∷ s) r = record r { chunk = x ∷ s }

abbrev or_compressed : Bytes → MessageOptions → MessageOptions
or_compressed [] r = r
or_compressed (x ∷ s) r = record r { compressed = x ∷ s }

abbrev pub merged : MessageOptions → MessageOptions → MessageOptions
merged r z = or_compressed z.compressed (or_chunk z.chunk (or_size z.size r))

pub merged-empty : (z : MessageOptions) → merged empty z ≡ z
merged-empty z = ground arith

module _ {Intf : Type 0} (w : Wire Intf) (rd : Reads Intf) (laws : IsReader w rd) where
  module _ (read_nil : Fields rd) where
    one_field :
        (key value more : Bytes) (n : ℕ) (r s t : MessageOptions)
        → IsShort key
        → Takes (read_field rd read_nil key) value r tt s
        → Takes (read_fields rd read_nil n) more s tt t
        → Takes (read_fields rd read_nil (suc n)) ((w.string key ++ value) ++ more) r tt t
    unfolding read_fields
    one_field key value more n r s t short h k =
        Takes-eq (read_fields rd read_nil (suc n)) (sym (append_assoc (w.string key) value more)) (
          Takes-bind (wrap [] (read rd.read_map_key))
            (λ key'. read_field rd read_nil key' >> read_fields rd read_nil n) (w.string key)
            (value ++ more)
            (Takes-wrap [] (read rd.read_map_key) (w.string key)
              (Takes-read rd.read_map_key (w.string key) r (laws.map_key key short)))
            (Takes-then (read_field rd read_nil key) (read_fields rd read_nil n) value more h k))

    size_field :
        (n : ℤ) (r : MessageOptions)
        → IsInt64 n
        → Takes (read_field rd read_nil (codes "size")) (w.int n) r tt (or_size (some n) r)
    unfolding read_field
    size_field n r h =
        Takes-peek rd.is_nil (size_value rd read_nil) (w.int n) (laws.is_nil-int n) (
          Takes-into _ rd.read_int (λ n' z. record z { size = some n' }) (w.int n) r (laws.int n h))

    chunk_field :
        (s : Bytes) (r : MessageOptions)
        → IsShort s
        → Takes (read_field rd read_nil (codes "chunk")) (w.string s) r tt (record r { chunk = s })
    unfolding read_field
    chunk_field s r h =
        Takes-into _ rd.read_string (λ s' z. record z { chunk = s' }) (w.string s) r
          (laws.string s h)

    compressed_field :
        (s : Bytes) (r : MessageOptions)
        → IsShort s
        → Takes
            (read_field rd read_nil (codes "compressed"))
            (w.string s)
            r
            tt
            (record r { compressed = s })
    unfolding read_field
    compressed_field s r h =
        Takes-into _ rd.read_string (λ s' z. record z { compressed = s' }) (w.string s) r
          (laws.string s h)

    no_more : (r : MessageOptions) → Takes (read_fields rd read_nil 0) [] r tt r
    unfolding read_fields
    no_more r = Takes-pass r

    compressed_fields :
        (d : Bytes) (r : MessageOptions)
        → IsShort d
        → Takes
            (read_fields rd read_nil (count_string d 0))
            (string_wire w (codes "compressed") d)
            r
            tt
            (or_compressed d r)
    compressed_fields [] r h = no_more r
    compressed_fields (x ∷ d) r h =
        let s : MessageOptions = or_compressed (x ∷ d) r in
        Takes-eq (read_fields rd read_nil 1) (append-nil _) (
          one_field (codes "compressed") (w.string (x ∷ d)) [] 0 r s s (omega arith)
            (compressed_field (x ∷ d) r h) (no_more s))

    chunk_fields :
        (c d : Bytes) (r : MessageOptions)
        → IsShort c
        → IsShort d
        → Takes
            (read_fields rd read_nil (count_string c (count_string d 0)))
            (string_wire w (codes "chunk") c ++ string_wire w (codes "compressed") d)
            r
            tt
            (or_compressed d (or_chunk c r))
    chunk_fields [] d r hc hd = compressed_fields d r hd
    chunk_fields (x ∷ c) d r hc hd =
        let s : MessageOptions = or_chunk (x ∷ c) r in
        one_field (codes "chunk") (w.string (x ∷ c)) (string_wire w (codes "compressed") d)
          (count_string d 0) r s (or_compressed d s) (omega arith) (chunk_field (x ∷ c) r hc)
          (compressed_fields d s hd)

    all_fields :
        (s : Option ℤ) (c d : Bytes) (r : MessageOptions)
        → IsSize s
        → IsShort c
        → IsShort d
        → Takes
            (read_fields rd read_nil (count_size s (count_string c (count_string d 0))))
            (size_wire w s
              ++ (string_wire w (codes "chunk") c ++ string_wire w (codes "compressed") d))
            r
            tt
            (or_compressed d (or_chunk c (or_size s r)))
    all_fields none c d r hs hc hd = chunk_fields c d r hc hd
    all_fields (some n) c d r hs hc hd =
        let s : MessageOptions = or_size (some n) r in
        one_field (codes "size") (w.int n)
          (string_wire w (codes "chunk") c ++ string_wire w (codes "compressed") d)
          (count_string c (count_string d 0)) r s (or_compressed d (or_chunk c s)) (omega arith)
          (size_field n r hs) (chunk_fields c d s hc hd)

    read_fields_lem :
        (z r : MessageOptions)
        → IsOptions z
        → Takes
            (wrap [] (read rd.read_map_header) >>= read_fields rd read_nil)
            (options_wire w z)
            r
            tt
            (merged r z)
    read_fields_lem z r h =
        Takes-bind (wrap [] (read rd.read_map_header)) (read_fields rd read_nil) _ _
          (Takes-wrap [] (read rd.read_map_header) _
            (Takes-read rd.read_map_header _ r (laws.map_header (field_count z) few)))
          (all_fields z.size z.chunk z.compressed r h.size_int h.chunk_short h.compressed_short)
      where
        few : field_count z < 2 ^ 32
        few = ground arith

  -- Reading the map of `z` into `r` assigns the fields that `z` has, and keeps the others of `r`.
  pub decode_msg_lem :
      (z r : MessageOptions)
      → IsOptions z
      → Takes (decode_msg rd) (options_wire w z) r tt (merged r z)
  unfolding decode_msg
  decode_msg_lem z r h = read_fields_lem (wrap (name "Size" ∷ []) (act rd.read_nil)) z r h

  pub unmarshal_msg_lem :
      (z r : MessageOptions)
      → IsOptions z
      → Takes (unmarshal_msg rd) (options_wire w z) r tt (merged r z)
  unfolding unmarshal_msg
  unmarshal_msg_lem z r h rest = ap nil_outcome (read_fields_lem (act rd.read_nil) z r h rest)
