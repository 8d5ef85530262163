-- ===== src/Msgp/Model.antt =====
-- A codec that meets the laws of `Format`, so that theorems over them can be applied. An object is
-- one number for its header, with the length or the value, and its payload. The one-byte headers are
-- those of MessagePack; above their limits the number is one that no byte could hold.
pub mod Skip
pub mod Heads
pub mod Laws
use fluent_forward_go.Common.{
  ℕ, ◌+◌, ◌-◌, ◌*◌, ◌/◌, ◌%◌, Bool, true, false, Option, none, some, [], ◌∷◌, ◌++◌, ltb, ◌==◌,
  if◌then◌else◌, Bytes, length, take, drop, ℤ, pos, negsuc,
}
use fluent_forward_go.Msgp.Errors.{Error, foreign}
use fluent_forward_go.Msgp.Put.{literal, Writes, Appends}
use fluent_forward_go.Msgp.Format.{
  Kind, str_type, bin_type, map_type, array_type, int_type, nil_type, ext_type, other_type, Wire,
}

-- What a header says.
pub data Head : Type 0 where
  an_array a_map a_string a_binary an_extension : ℕ → Head
  an_int : ℤ → Head
  a_bool : Bool → Head
  a_nil unknown : Head

abbrev pub wide : ℕ → ℕ → ℕ
wide n code = 256 + 8 * n + code

abbrev pub array_number : ℕ → ℕ
array_number n = if ltb n 16 then 0x90 + n else wide n 0

abbrev pub map_number : ℕ → ℕ
map_number n = if ltb n 16 then 0x80 + n else wide n 1

abbrev pub string_number : ℕ → ℕ
string_number n = if ltb n 32 then 0xa0 + n else wide n 2

abbrev pub int_number : ℤ → ℕ
int_number (pos n) = wide n 5
int_number (negsuc n) = wide n 6

abbrev pub bool_number : Bool → ℕ
bool_number true = 0xc3
bool_number false = 0xc2

abbrev pub wide_head : ℕ → ℕ → Head
wide_head n code =
    if code == 0
    then an_array n
    else if code == 1
    then a_map n
    else if code == 2
    then a_string n
    else if code == 3
    then a_binary n
    else if code == 4
    then an_extension n
    else if code == 5
    then an_int (pos n)
    else if code == 6
    then an_int (negsuc n)
    else unknown

pub head : ℕ → Head
head b =
    if ltb b 0x80
    then unknown
    else if ltb b 0x90
    then a_map (b - 0x80)
    else if ltb b 0xa0
    then an_array (b - 0x90)
    else if ltb b 0xc0
    then a_string (b - 0xa0)
    else if b == 0xc0
    then a_nil
    else if b == 0xc2
    then a_bool false
    else if b == 0xc3
    then a_bool true
    else if ltb b 256
    then unknown
    else wide_head ((b - 256) / 8) ((b - 256) % 8)

abbrev pub wire : Wire ℕ
wire = record {
  array_header = λ n. array_number n ∷ [];
  map_header = λ n. map_number n ∷ [];
  string = λ s. string_number (length s) ∷ s;
  bytes = λ s. wide (length s) 3 ∷ s;
  int = λ i. int_number i ∷ [];
  bool = λ b. bool_number b ∷ [];
  nil = 0xc0 ∷ [];
  intf = λ n. int_number (pos n) ∷ [];
  extension = λ t s. wide (length s) 4 ∷ t ∷ s;
  plain = λ n. true;
}

abbrev pub writes : Writes ℕ
writes = record {
  append = literal;
  write = literal;
  write_array_header = λ n. literal (wire.array_header n);
  write_string = λ s. literal (wire.string s);
  write_bytes = λ s. literal (wire.bytes s);
  write_int64 = λ i. literal (wire.int i);
  write_int = λ i. literal (wire.int i);
  write_bool = λ b. literal (wire.bool b);
  write_nil = literal wire.nil;
  write_intf = λ n. literal (wire.intf n);
  write_extension = λ t s. literal (wire.extension t s);
}

abbrev pub appends : Appends ℕ
appends = record {
  append_array_header = λ n out. out ++ wire.array_header n;
  append_string = λ s out. out ++ wire.string s;
  append_bytes = λ s out. out ++ wire.bytes s;
  append_int64 = λ i out. out ++ wire.int i;
  append_int = λ i out. out ++ wire.int i;
  append_bool = λ b out. out ++ wire.bool b;
  append_nil = λ out. out ++ wire.nil;
  append_intf = λ n. literal (wire.intf n);
  append_extension = λ t s. literal (wire.extension t s);
}

abbrev pub bad : Error
bad = foreign 1

abbrev pub array_read : Head → Bytes → Bytes → ℕ × Bytes × Option Error
array_read (an_array n) bs all = (n, bs, none)
array_read _ bs all = (0, all, some bad)

abbrev pub map_read : Head → Bytes → Bytes → ℕ × Bytes × Option Error
map_read (a_map n) bs all = (n, bs, none)
map_read _ bs all = (0, all, some bad)

abbrev pub string_read : Head → Bytes → Bytes → Bytes × Bytes × Option Error
string_read (a_string n) bs all = (take n bs, drop n bs, none)
string_read _ bs all = ([], all, some bad)

abbrev pub binary_read : Head → Bytes → Bytes → Bytes × Bytes × Option Error
binary_read (a_binary n) bs all = (take n bs, drop n bs, none)
binary_read _ bs all = ([], all, some bad)

abbrev pub int_read : Head → Bytes → Bytes → ℤ × Bytes × Option Error
int_read (an_int i) bs all = (i, bs, none)
int_read _ bs all = (pos 0, all, some bad)

abbrev pub bool_read : Head → Bytes → Bytes → Bool × Bytes × Option Error
bool_read (a_bool b) bs all = (b, bs, none)
bool_read _ bs all = (false, all, some bad)

abbrev pub intf_read : Head → Bytes → Bytes → ℕ × Bytes × Option Error
intf_read (an_int (pos n)) bs all = (n, bs, none)
intf_read _ bs all = (0, all, some bad)

abbrev pub extension_read : Head → Bytes → Bytes → Bytes × Bytes × Option Error
extension_read (an_extension n) (t ∷ bs) all = (take n bs, drop n bs, none)
extension_read _ bs all = ([], all, some bad)

abbrev pub nil_read : Head → Bytes → Bytes → Bytes × Option Error
nil_read a_nil bs all = (bs, none)
nil_read _ bs all = (all, some bad)

abbrev pub kind_of : Head → Kind
kind_of (an_array n) = array_type
kind_of (a_map n) = map_type
kind_of (a_string n) = str_type
kind_of (a_binary n) = bin_type
kind_of (an_extension n) = ext_type
kind_of (an_int i) = int_type
kind_of a_nil = nil_type
kind_of _ = other_type 0

-- The first number of the input decides.
abbrev pub by_head : {A : Type 0} → A → (Head → Bytes → Bytes → A) → Bytes → A
by_head short f [] = short
by_head short f (b ∷ bs) = f (head b) bs (b ∷ bs)
