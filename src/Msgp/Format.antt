-- ===== src/Msgp/Format.antt =====
-- The MessagePack format and the laws of the package. Only what the code uses is here: each law is
-- what the documentation of the package says of a call that succeeds.
use fluent_forward_go.Common.{
  ℕ, ◌+◌, ◌^◌, ◌<◌, ◌≡◌, Bool, true, false, Option, none, List, [], ◌∷◌, ◌++◌, length, All, concat,
  Bytes, ℤ, IsInt64,
}
use fluent_forward_go.Msgp.Errors.{Error}
use fluent_forward_go.Msgp.Put.{Emits, Writes, Appends, total}
use fluent_forward_go.Msgp.Get.{Read, Step}

-- `msgp.Type`: the constants that the code compares with, those that it meets, and any other.
pub data Kind : Type 0 where
  str_type bin_type map_type array_type int_type nil_type ext_type : Kind
  other_type : ℕ → Kind

-- The bytes of each object. `Intf` is the type of the values behind an `interface{}`, and `plain`
-- holds of those that are read back as they were written.
pub record Wire (Intf : Type 0) : Type 0 where
  pub array_header : ℕ → Bytes
  pub map_header : ℕ → Bytes
  pub string : Bytes → Bytes
  pub bytes : Bytes → Bytes
  pub int : ℤ → Bytes
  pub bool : Bool → Bytes
  pub nil : Bytes
  pub intf : Intf → Bytes
  pub extension : ℕ → Bytes → Bytes
  pub plain : Intf → Bool

-- The calls of `msgp.Reader`, or those on byte slices: a value of this type is one of the two.
-- `read_extension` gives the payload that the call hands to `UnmarshalBinary`.
pub record Reads (Intf : Type 0) : Type 0 where
  pub read_array_header : Read ℕ
  pub read_map_header : Read ℕ
  pub read_map_key : Read Bytes
  pub read_string : Read Bytes
  pub read_bytes : Read Bytes
  pub read_int64 : Read ℤ
  pub read_int : Read ℤ
  pub read_bool : Read Bool
  pub read_intf : Read Intf
  pub read_extension : ℕ → Read Bytes
  pub read_nil : Step
  pub skip : Step
  pub is_nil : Bytes → Bool
  pub next_type : Bytes → Kind × Option Error

-- What fits the format's 32-bit lengths.
abbrev pub IsShort {ℓ} : {A : Type ℓ} → List A → Type 0
IsShort s = length s < 2 ^ 32

-- The one-byte headers, which generated code writes out.
pub record IsFormat {Intf : Type 0} (w : Wire Intf) : Type 0 where
  pub fix_array : (n : ℕ) → n < 16 → w.array_header n ≡ (0x90 + n) ∷ []
  pub fix_map : (n : ℕ) → n < 16 → w.map_header n ≡ (0x80 + n) ∷ []
  pub fix_string : (s : Bytes) → length s < 32 → w.string s ≡ (0xa0 + length s) ∷ s

-- A `msgp.Writer` over memory.
pub record IsWriter {Intf : Type 0} (w : Wire Intf) (wr : Writes Intf) : Type 0 where
  pub append : (bs : Bytes) → Emits (wr.append bs) bs
  pub write : (bs : Bytes) → Emits (wr.write bs) bs
  pub array_header : (n : ℕ) → n < 2 ^ 32 → Emits (wr.write_array_header n) (w.array_header n)
  pub string : (s : Bytes) → IsShort s → Emits (wr.write_string s) (w.string s)
  pub bytes : (s : Bytes) → IsShort s → Emits (wr.write_bytes s) (w.bytes s)
  pub int64 : (i : ℤ) → IsInt64 i → Emits (wr.write_int64 i) (w.int i)
  pub int : (i : ℤ) → IsInt64 i → Emits (wr.write_int i) (w.int i)
  pub bool : (b : Bool) → Emits (wr.write_bool b) (w.bool b)
  pub nil : Emits wr.write_nil w.nil
  pub intf : (x : Intf) → w.plain x ≡ true → Emits (wr.write_intf x) (w.intf x)
  pub extension : (t : ℕ) (s : Bytes) → IsShort s → Emits (wr.write_extension t s) (w.extension t s)

pub record IsAppender {Intf : Type 0} (w : Wire Intf) (ap : Appends Intf) : Type 0 where
  pub array_header :
      (n : ℕ) → n < 2 ^ 32 → Emits (total (ap.append_array_header n)) (w.array_header n)
  pub string : (s : Bytes) → IsShort s → Emits (total (ap.append_string s)) (w.string s)
  pub bytes : (s : Bytes) → IsShort s → Emits (total (ap.append_bytes s)) (w.bytes s)
  pub int64 : (i : ℤ) → IsInt64 i → Emits (total (ap.append_int64 i)) (w.int i)
  pub int : (i : ℤ) → IsInt64 i → Emits (total (ap.append_int i)) (w.int i)
  pub bool : (b : Bool) → Emits (total (ap.append_bool b)) (w.bool b)
  pub nil : Emits (total ap.append_nil) w.nil
  pub intf : (x : Intf) → w.plain x ≡ true → Emits (ap.append_intf x) (w.intf x)
  pub extension :
      (t : ℕ) (s : Bytes) → IsShort s → Emits (ap.append_extension t s) (w.extension t s)

-- `rd` delivers `a` from `bs`, and leaves what follows.
abbrev pub Delivers : {A : Type 0} → Read A → Bytes → A → Type 0
Delivers rd bs a = (rest : Bytes) → rd (bs ++ rest) ≡ (a, rest, none)

abbrev pub Passes : Step → Bytes → Type 0
Passes f bs = (rest : Bytes) → f (bs ++ rest) ≡ (rest, none)

abbrev pub HasKind : {Intf : Type 0} → Reads Intf → Bytes → Kind → Type 0
HasKind rd bs k = (rest : Bytes) → rd.next_type (bs ++ rest) ≡ (k, none)

-- Each kind of object is read back, is passed over by `Skip`, and is told by `NextType`.
pub record IsReader {Intf : Type 0} (w : Wire Intf) (rd : Reads Intf) : Type 0 where
  pub array_header : (n : ℕ) → n < 2 ^ 32 → Delivers rd.read_array_header (w.array_header n) n
  pub map_header : (n : ℕ) → n < 2 ^ 32 → Delivers rd.read_map_header (w.map_header n) n
  pub map_key : (s : Bytes) → IsShort s → Delivers rd.read_map_key (w.string s) s
  pub string : (s : Bytes) → IsShort s → Delivers rd.read_string (w.string s) s
  pub bytes : (s : Bytes) → IsShort s → Delivers rd.read_bytes (w.bytes s) s
  pub int64 : (i : ℤ) → IsInt64 i → Delivers rd.read_int64 (w.int i) i
  pub int : (i : ℤ) → IsInt64 i → Delivers rd.read_int (w.int i) i
  pub bool : (b : Bool) → Delivers rd.read_bool (w.bool b) b
  pub intf : (x : Intf) → w.plain x ≡ true → Delivers rd.read_intf (w.intf x) x
  pub extension :
      (t : ℕ) (s : Bytes) → IsShort s → Delivers (rd.read_extension t) (w.extension t s) s
  pub nil : Passes rd.read_nil w.nil
  pub is_nil-nil : (rest : Bytes) → rd.is_nil (w.nil ++ rest) ≡ true
  pub is_nil-int : (i : ℤ) (rest : Bytes) → rd.is_nil (w.int i ++ rest) ≡ false
  pub is_nil-map : (n : ℕ) (rest : Bytes) → rd.is_nil (w.map_header n ++ rest) ≡ false
  pub kind-int : (i : ℤ) → HasKind rd (w.int i) int_type
  pub kind-nil : HasKind rd w.nil nil_type
  pub kind-map : (n : ℕ) → HasKind rd (w.map_header n) map_type
  pub kind-array : (n : ℕ) → HasKind rd (w.array_header n) array_type
  pub kind-bytes : (s : Bytes) → HasKind rd (w.bytes s) bin_type
  -- not for the numbers that the package reserves for its own extensions
  pub kind-extension : (s : Bytes) → HasKind rd (w.extension 0 s) ext_type
  pub skip-string : (s : Bytes) → IsShort s → Passes rd.skip (w.string s)
  pub skip-bytes : (s : Bytes) → IsShort s → Passes rd.skip (w.bytes s)
  pub skip-int : (i : ℤ) → IsInt64 i → Passes rd.skip (w.int i)
  pub skip-bool : (b : Bool) → Passes rd.skip (w.bool b)
  pub skip-intf : (x : Intf) → w.plain x ≡ true → Passes rd.skip (w.intf x)
  pub skip-extension : (t : ℕ) (s : Bytes) → IsShort s → Passes rd.skip (w.extension t s)
  pub skip-array :
      (objects : List Bytes)
      → IsShort objects
      → All (Passes rd.skip) objects
      → Passes rd.skip (w.array_header (length objects) ++ concat objects)
