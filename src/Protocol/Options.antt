-- ===== src/Protocol/Options.antt =====
-- `MessageOptions` of fluent/protocol/transport.go, and its methods in transport_gen.go.
pub mod Write
pub mod Read
use Prim.Native.Nat.{bit_or}
use fluent_forward_go.Common.{
  ℕ, suc, ◌+◌, ◌-◌, Bool, true, false, Option, none, some, [], ◌∷◌, ◌++◌, length, Bytes,
  if◌then◌else◌, ℤ, IsInt64, codes,
}
use fluent_forward_go.Msgp.Format.{Wire, IsShort}

-- `Size *int`: the pointer is nil or leads to a number.
pub record MessageOptions : Type 0 where
  pub size : Option ℤ
  pub chunk : Bytes
  pub compressed : Bytes

-- `&MessageOptions{}`
abbrev pub empty : MessageOptions
empty = record { size = none; chunk = []; compressed = [] }

-- The keys, as generated code writes them: a header byte and the letters.
abbrev pub key_size : Bytes
key_size = 0xa4 ∷ 0x73 ∷ 0x69 ∷ 0x7a ∷ 0x65 ∷ []

abbrev pub key_chunk : Bytes
key_chunk = 0xa5 ∷ 0x63 ∷ 0x68 ∷ 0x75 ∷ 0x6e ∷ 0x6b ∷ []

abbrev pub key_compressed : Bytes
key_compressed = 0xaa ∷ 0x63 ∷ 0x6f ∷ 0x6d ∷ 0x70 ∷ 0x72 ∷ 0x65 ∷ 0x73 ∷ 0x73 ∷ 0x65 ∷ 0x64 ∷ []

abbrev pub is_none {ℓ} : {A : Type ℓ} → Option A → Bool
is_none none = true
is_none (some _) = false

abbrev pub is_empty : Bytes → Bool
is_empty [] = true
is_empty (_ ∷ _) = false

-- `zb0001Len` and `zb0001Mask` behind the three tests for empty values.
unfoldable pub present_len : MessageOptions → ℕ
present_len z =
    let one = if is_none z.size then 3 - 1 else 3 in
    let two = if is_empty z.chunk then one - 1 else one in
    if is_empty z.compressed then two - 1 else two

unfoldable pub empty_mask : MessageOptions → ℕ
empty_mask z =
    let one = if is_none z.size then bit_or 0 0x1 else 0 in
    let two = if is_empty z.chunk then bit_or one 0x2 else one in
    if is_empty z.compressed then bit_or two 0x4 else two

abbrev pub count_size : Option ℤ → ℕ → ℕ
count_size none n = n
count_size (some _) n = suc n

abbrev pub count_string : Bytes → ℕ → ℕ
count_string [] n = n
count_string (_ ∷ _) n = suc n

abbrev pub field_count : MessageOptions → ℕ
field_count z = count_size z.size (count_string z.chunk (count_string z.compressed 0))

abbrev pub IsSize : Option ℤ → Type 0
IsSize none = Unit {0}
IsSize (some n) = IsInt64 n

-- `Msgsize`, with the package's constants for the sizes of a nil, an int and a string's header.
module _ (nil_size int_size string_prefix_size : ℕ) where
  unfoldable pub msgsize : MessageOptions → ℕ
  msgsize z =
      let size_part = if is_none z.size then nil_size else int_size in
      1
      + 5
      + size_part
      + (6 + string_prefix_size + length z.chunk + 11 + string_prefix_size + length z.compressed)

-- The map as the format describes it: only the fields that are not empty.
module _ {Intf : Type 0} (w : Wire Intf) where
  abbrev pub size_wire : Option ℤ → Bytes
  size_wire none = []
  size_wire (some n) = w.string (codes "size") ++ w.int n

  abbrev pub string_wire : Bytes → Bytes → Bytes
  string_wire key [] = []
  string_wire key (x ∷ xs) = w.string key ++ w.string (x ∷ xs)

  abbrev pub options_wire : MessageOptions → Bytes
  options_wire z =
      w.map_header (field_count z)
      ++ (size_wire z.size
          ++ (string_wire (codes "chunk") z.chunk ++ string_wire (codes "compressed") z.compressed))

-- What `int` and the format's lengths hold.
pub record IsOptions (z : MessageOptions) : Type 0 where
  pub size_int : IsSize z.size
  pub chunk_short : IsShort z.chunk
  pub compressed_short : IsShort z.compressed
