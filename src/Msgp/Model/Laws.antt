-- ===== src/Msgp/Model/Laws.antt =====
-- The laws of `Format`, for the codec.
use fluent_forward_go.Common.{
  ℕ, ◌+◌, ◌≤◌, ◌<◌, ◌≡◌, refl, ap, Bool, true, false, none, some, [], ◌∷◌, arith, if◌then◌else◌,
  Bytes, length, take-length_append, drop-length_append, ℤ, pos, lt→ltb, length-drop_le,
}
use fluent_forward_go.Msgp.Format.{
  other_type, Reads, IsFormat, IsWriter, IsAppender, Delivers, Passes, IsReader,
}
use fluent_forward_go.Msgp.Model.{
  Head, an_array, an_extension, an_int, a_nil, head, bad, wide, array_number, string_number,
  int_number, bool_number, wire, writes, appends, array_read, map_read, string_read, binary_read,
  int_read, bool_read, intf_read, extension_read, nil_read, kind_of, by_head,
}
use fluent_forward_go.Msgp.Put.{Emits-literal}
use fluent_forward_go.Msgp.Model.Skip.{skip, children, payload, skip_one, skip_array}
use fluent_forward_go.Protocol.Entries.Packed.{Consumes}
use fluent_forward_go.Msgp.Model.Heads.{
  head-wide, head-array, head-map, head-string, head-int, head-bool,
}

abbrev is_nil_head : Head → Bytes → Bytes → Bool
is_nil_head a_nil bs all = true
is_nil_head _ bs all = false

abbrev pub reads : Reads ℕ
reads = record {
  read_array_header = λ bs. by_head (0, [], some bad) array_read bs;
  read_map_header = λ bs. by_head (0, [], some bad) map_read bs;
  read_map_key = λ bs. by_head ([], [], some bad) string_read bs;
  read_string = λ bs. by_head ([], [], some bad) string_read bs;
  read_bytes = λ bs. by_head ([], [], some bad) binary_read bs;
  read_int64 = λ bs. by_head (pos 0, [], some bad) int_read bs;
  read_int = λ bs. by_head (pos 0, [], some bad) int_read bs;
  read_bool = λ bs. by_head (false, [], some bad) bool_read bs;
  read_intf = λ bs. by_head (0, [], some bad) intf_read bs;
  read_extension = λ t bs. by_head ([], [], some bad) extension_read bs;
  read_nil = λ bs. by_head ([], some bad) nil_read bs;
  skip = skip;
  is_nil = λ bs. by_head false is_nil_head bs;
  next_type = λ bs. by_head (other_type 0, some bad) (λ h bs' all. (kind_of h, none)) bs;
}

pub wire-IsFormat : IsFormat wire
wire-IsFormat = record {
  fix_array = λ n h. ap (λ k. (if k then 0x90 + n else wide n 0) ∷ []) (lt→ltb n 16 h);
  fix_map = λ n h. ap (λ k. (if k then 0x80 + n else wide n 1) ∷ []) (lt→ltb n 16 h);
  fix_string = λ s h.
      ap (λ k. (if k then 0xa0 + length s else wide (length s) 2) ∷ s) (lt→ltb (length s) 32 h);
}

pub writes-IsWriter : IsWriter wire writes
writes-IsWriter = record {
  append = Emits-literal;
  write = Emits-literal;
  array_header = λ n h. Emits-literal (wire.array_header n);
  string = λ s h. Emits-literal (wire.string s);
  bytes = λ s h. Emits-literal (wire.bytes s);
  int64 = λ i h. Emits-literal (wire.int i);
  int = λ i h. Emits-literal (wire.int i);
  bool = λ b. Emits-literal (wire.bool b);
  nil = Emits-literal wire.nil;
  intf = λ x h. Emits-literal (wire.intf x);
  extension = λ t s h. Emits-literal (wire.extension t s);
}

pub appends-IsAppender : IsAppender wire appends
appends-IsAppender = record {
  array_header = λ n h. Emits-literal (wire.array_header n);
  string = λ s h. Emits-literal (wire.string s);
  bytes = λ s h. Emits-literal (wire.bytes s);
  int64 = λ i h. Emits-literal (wire.int i);
  int = λ i h. Emits-literal (wire.int i);
  bool = λ b. Emits-literal (wire.bool b);
  nil = Emits-literal wire.nil;
  intf = λ x h. Emits-literal (wire.intf x);
  extension = λ t s h. Emits-literal (wire.extension t s);
}

module _ (s : Bytes) where
  string_delivered : Delivers reads.read_string (wire.string s) s
  string_delivered rest =
      rw (head-string (length s), take-length_append s rest, drop-length_append s rest) refl

  bytes_delivered : Delivers reads.read_bytes (wire.bytes s) s
  bytes_delivered rest =
      rw
        (head-wide (length s) 3 (omega arith), take-length_append s rest, drop-length_append s rest)
        refl

  extension_delivered : (t : ℕ) → Delivers (reads.read_extension t) (wire.extension t s) s
  extension_delivered t rest =
      rw
        (head-wide (length s) 4 (omega arith), take-length_append s rest, drop-length_append s rest)
        refl

int_skipped : (i : ℤ) → Passes skip (wire.int i)
int_skipped i rest =
    skip_one (int_number i) [] rest (ap children (head-int i)) (ap payload (head-int i))

bool_skipped : (b : Bool) → Passes skip (wire.bool b)
bool_skipped b rest =
    skip_one (bool_number b) [] rest (ap children (head-bool b)) (ap payload (head-bool b))

pub reads-IsReader : IsReader wire reads
unfolding head
reads-IsReader = record {
  array_header = λ n h rest. rw (head-array n) refl;
  map_header = λ n h rest. rw (head-map n) refl;
  map_key = λ s h. string_delivered s;
  string = λ s h. string_delivered s;
  bytes = λ s h. bytes_delivered s;
  int64 = λ i h rest. rw (head-int i) refl;
  int = λ i h rest. rw (head-int i) refl;
  bool = λ b rest. rw (head-bool b) refl;
  intf = λ x h rest. rw (head-int (pos x)) refl;
  extension = λ t s h. extension_delivered s t;
  nil = λ rest. refl;
  is_nil-nil = λ rest. refl;
  is_nil-int = λ i rest. rw (head-int i) refl;
  is_nil-map = λ n rest. rw (head-map n) refl;
  kind-int = λ i rest. rw (head-int i) refl;
  kind-nil = λ rest. refl;
  kind-map = λ n rest. rw (head-map n) refl;
  kind-array = λ n rest. rw (head-array n) refl;
  kind-bytes = λ s rest. rw (head-wide (length s) 3 (omega arith)) refl;
  kind-extension = λ s rest. rw (head-wide (length s) 4 (omega arith)) refl;
  skip-string = λ s h rest.
      skip_one (string_number (length s)) s rest (ap children (head-string (length s)))
        (ap payload (head-string (length s)));
  skip-bytes = λ s h rest.
      skip_one (wide (length s) 3) s rest (ap children (head-wide (length s) 3 (omega arith)))
        (ap payload (head-wide (length s) 3 (omega arith)));
  skip-int = λ i h. int_skipped i;
  skip-bool = bool_skipped;
  skip-intf = λ x h. int_skipped (pos x);
  skip-extension = λ t s h rest.
      skip_one (wide (length s) 4) (t ∷ s) rest (ap children (head-wide (length s) 4 (omega arith)))
        (ap payload (head-wide (length s) 4 (omega arith)));
  skip-array = λ objects h k.
      skip_array (array_number (length objects)) objects (head-array (length objects)) k;
}

array_read_consumes :
    (h : Head) (b : ℕ) (bs : Bytes)
    → (array_read h bs (b ∷ bs)).2 ≡ none
    → length (array_read h bs (b ∷ bs)).1 < length (b ∷ bs)
array_read_consumes (an_array n) b bs h = omega arith
array_read_consumes _ b bs h = cc

extension_read_consumes :
    (h : Head) (b : ℕ) (bs : Bytes)
    → (extension_read h bs (b ∷ bs)).2 ≡ none
    → length (extension_read h bs (b ∷ bs)).1 ≤ length (b ∷ bs)
extension_read_consumes (an_extension n) b [] h = omega arith
extension_read_consumes (an_extension n) b (t ∷ bs) h = omega (arith, length-drop_le n bs)
extension_read_consumes _ b bs h = cc

intf_read_consumes :
    (h : Head) (b : ℕ) (bs : Bytes)
    → (intf_read h bs (b ∷ bs)).2 ≡ none
    → length (intf_read h bs (b ∷ bs)).1 ≤ length (b ∷ bs)
intf_read_consumes (an_int (pos n)) b bs h = omega arith
intf_read_consumes _ b bs h = cc

pub reads-Consumes : Consumes reads
reads-Consumes = record { array_header = array_header; extension = λ t. extension; intf = intf }
  where
    array_header :
        (bs : Bytes)
        → (reads.read_array_header bs).2 ≡ none
        → length (reads.read_array_header bs).1 < length bs
    array_header [] h = cc
    array_header (b ∷ bs) h = array_read_consumes (head b) b bs h

    extension :
        (bs : Bytes)
        → (reads.read_extension 0 bs).2 ≡ none
        → length (reads.read_extension 0 bs).1 ≤ length bs
    extension [] h = omega arith
    extension (b ∷ bs) h = extension_read_consumes (head b) b bs h

    intf : (bs : Bytes) → (reads.read_intf bs).2 ≡ none → length (reads.read_intf bs).1 ≤ length bs
    intf [] h = omega arith
    intf (b ∷ bs) h = intf_read_consumes (head b) b bs h
