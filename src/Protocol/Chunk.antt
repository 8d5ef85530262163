-- ===== src/Protocol/Chunk.antt =====
-- `GetChunk` of fluent/protocol/chunk.go: the chunk ID of a marshaled message, read without
-- unmarshalling it.
pub mod Found
pub mod Pooled
use fluent_forward_go.Common.{
  ℕ, zero, suc, String, Bool, true, false, not, Option, none, some, ◌==◌, if◌then◌else◌, Bytes,
  same, codes,
}
use fluent_forward_go.Msgp.Get.{
  Outcome, Get, read, peek, fail, map_error, act, pass, ◌>>=◌, ◌>>◌, header,
}
use fluent_forward_go.Msgp.Format.{Kind, map_type, int_type, ext_type, Reads}
use fluent_forward_go.Msgp.Errors.{Error, text, prefixed}

abbrev pub is_timestamp : Kind → Bool
is_timestamp ext_type = true
is_timestamp int_type = true
is_timestamp _ = false

abbrev pub is_map : Kind → Bool
is_map map_type = true
is_map _ = false

abbrev pub Search : Type 0 → Type 0
Search = Get (Unit {0})

-- `fmt.Errorf("chunk not found: %w", err)` where `err` is nil.
abbrev pub wraps_nil : Error
wraps_nil = text "chunk not found: %!w(<nil>)"

module _ {Intf : Type 0} (rd : Reads Intf) where
  abbrev pub not_found : {A : Type 0} → Search A
  not_found = fail (text "chunk not found")

  abbrev pub skip_as : String → Search (Unit {0})
  skip_as what = map_error (prefixed what) (act rd.skip)

  -- A `Message` or `MessageExt`, told by the timestamp, has no options if it has three elements.
  abbrev pub skip_timestamp : ℕ → Bool → Search (Unit {0})
  skip_timestamp sz true = if sz == 3 then not_found else skip_as "skip timestamp"
  skip_timestamp sz false = pass

  -- `for i := uint32(0); i < sz; i++`: the key, and its value or a pass over it.
  abbrev pub at_key : Search Bytes → Bool → Search Bytes
  at_key more true = read rd.read_map_key
  at_key more false = skip_as "skip value" >> more

  pub search_map : ℕ → Search Bytes
  search_map zero = not_found
  search_map (suc n) = map_error (prefixed "read map key") (read rd.read_map_key) >>= λ key.
      at_key (search_map n) (same key (codes "chunk"))

  abbrev pub search_header : Search Bytes
  search_header = map_error (prefixed "read map header") (read rd.read_map_header) >>= search_map

  -- `if t, err = reader.NextType(); t != msgp.MapType || err != nil`
  abbrev pub search_kind : Kind × Option Error → Search Bytes
  search_kind (t, none) = if is_map t then search_header else fail wraps_nil
  search_kind (t, some e) = fail (prefixed "chunk not found" e)

  abbrev pub search_options : Search Bytes
  search_options = peek rd.next_type >>= search_kind

  -- Behind the tag, with what `NextType` says of the second element.
  abbrev pub search_behind : ℕ → Kind × Option Error → Search Bytes
  search_behind sz (t, some e) = fail (prefixed "next type" e)
  search_behind sz (t, none) =
      skip_timestamp sz (is_timestamp t) >> (skip_as "skip records" >> search_options)

  abbrev pub search_second : ℕ → Search Bytes
  search_second sz = peek rd.next_type >>= search_behind sz

  abbrev pub search_elements : ℕ → Search Bytes
  search_elements sz = skip_as "skip tag" >> search_second sz

  abbrev pub search_message : ℕ → Search Bytes
  search_message sz = if sz == 2 then not_found else search_elements sz

  unfoldable pub get_chunk : Bytes → Outcome (Unit {0}) Bytes
  unfolding search_map
  get_chunk b =
      (map_error (prefixed "read array header") (read rd.read_array_header) >>= search_message) tt b
