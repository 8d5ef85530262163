-- ===== src/Protocol/Chunk/Found.antt =====
-- `GetChunk` against the bytes of a message: it answers with the chunk option, or says that there is
-- none.
use fluent_forward_go.Common.{
  ℕ, suc, ◌^◌, ◌<◌, String, ◌≡◌, refl, sym, ap, ◌∙◌, subst, true, false, Option, none, some, [],
  ◌∷◌, ◌++◌, append_assoc, append-nil, arith, Bytes, same, same_refl, codes, ℤ,
}
use fluent_forward_go.Msgp.Get.{
  Outcome, done, failed, read, peek, map_error, act, ◌>>=◌, ◌>>◌, returned, Takes, Takes-read,
  Takes-map_error, Takes-act,
}
use fluent_forward_go.Msgp.Format.{
  Kind, map_type, nil_type, Wire, Reads, IsShort, Passes, HasKind, IsReader,
}
use fluent_forward_go.Msgp.Errors.{Error, text, prefixed}
use fluent_forward_go.Protocol.Options.{
  MessageOptions, IsOptions, IsSize, count_size, count_string, field_count, size_wire, string_wire,
  options_wire,
}
use fluent_forward_go.Protocol.Tail.{tail_wire, IsTail}
use fluent_forward_go.Protocol.Chunk.{
  Search, search_map, search_kind, search_options, search_behind, search_second, search_message,
  skip_as, at_key, is_timestamp, get_chunk, wraps_nil,
}

-- What `GetChunk` returns: a chunk ID or an error.
pub data Answer : Type 0 where
  gives : Bytes → Answer
  lacks : Error → Answer

abbrev pub answer : Answer → Bytes → Outcome (Unit {0}) Bytes
answer (gives c) left = done c tt left
answer (lacks e) left = failed e tt left

abbrev pub lacking : Answer
lacking = lacks (text "chunk not found")

-- The chunk option of a message; an empty one is left out when the options are written.
abbrev pub string_answer : Bytes → Answer
string_answer [] = lacking
string_answer (x ∷ c) = gives (x ∷ c)

-- A message whose last element is a nil where it has no options.
abbrev pub chunk_option : Option MessageOptions → Answer
chunk_option none = lacks wraps_nil
chunk_option (some o) = string_answer o.chunk

-- A message that leaves the last element out.
abbrev pub last_option : Option MessageOptions → Answer
last_option none = lacking
last_option (some o) = string_answer o.chunk

-- Behind `bs`, whatever follows, the search has this answer.
abbrev pub Answers : Search Bytes → Bytes → Answer → Type 0
Answers m bs a = (rest : Bytes) → (left : Bytes) × (m tt (bs ++ rest) ≡ answer a left)

Answers-bind :
    {A : Type 0} (m : Search A) (f : A → Search Bytes) (bs cs : Bytes) {a : A} (o : Answer)
    → Takes m bs tt a tt
    → Answers (f a) cs o
    → Answers (m >>= f) (bs ++ cs) o
Answers-bind m f bs cs o hm hf rest =
    ((hf rest).0, rw (append_assoc bs cs rest, hm (cs ++ rest), ◌>>=◌) (hf rest).1)

Answers-then :
    (m : Search (Unit {0})) (k : Search Bytes) (bs cs : Bytes) (o : Answer)
    → Takes m bs tt tt tt
    → Answers k cs o
    → Answers (m >> k) (bs ++ cs) o
Answers-then m k bs cs o hm hk = Answers-bind m (λ _. k) bs cs o hm hk

Answers-eq :
    (m : Search Bytes) {bs cs : Bytes} (o : Answer) → bs ≡ cs → Answers m bs o → Answers m cs o
Answers-eq m o e h = subst (λ x. Answers m x o) e h

Answers-peek :
    {A : Type 0} (f : Bytes → A) (g : A → Search Bytes) (bs : Bytes) (a : A) (o : Answer)
    → ((rest : Bytes) → f (bs ++ rest) ≡ a)
    → Answers (g a) bs o
    → Answers (peek f >>= g) bs o
Answers-peek f g bs a o h k rest = ((k rest).0, rw (h rest) (k rest).1)

module _ {Intf : Type 0} (w : Wire Intf) (rd : Reads Intf) (laws : IsReader w rd) where
  skip_lem : (what : String) (bs : Bytes) → Passes rd.skip bs → Takes (skip_as rd what) bs tt tt tt
  skip_lem what bs h = Takes-map_error (prefixed what) (act rd.skip) bs (Takes-act rd.skip bs tt h)

  key_lem :
      (key : Bytes)
      → IsShort key
      → Takes (map_error (prefixed "read map key") (read rd.read_map_key)) (w.string key) tt key tt
  key_lem key h =
      Takes-map_error (prefixed "read map key") (read rd.read_map_key) (w.string key)
        (Takes-read rd.read_map_key (w.string key) tt (laws.map_key key h))

  other_key :
      (key value more : Bytes) (n : ℕ) (o : Answer)
      → IsShort key
      → same key (codes "chunk") ≡ false
      → Passes rd.skip value
      → Answers (search_map rd n) more o
      → Answers (search_map rd (suc n)) ((w.string key ++ value) ++ more) o
  unfolding search_map
  other_key key value more n o short different h k =
      Answers-eq (search_map rd (suc n)) o (sym (append_assoc (w.string key) value more)) (
        Answers-bind (map_error (prefixed "read map key") (read rd.read_map_key))
          (λ key'. at_key rd (search_map rd n) (same key' (codes "chunk"))) (w.string key)
          (value ++ more) o (key_lem key short)
          (rw different (
            Answers-then (skip_as rd "skip value") (search_map rd n) value more o
              (skip_lem "skip value" value h) k)))

  chunk_key :
      (c more : Bytes) (n : ℕ)
      → IsShort c
      → Answers (search_map rd (suc n)) ((w.string (codes "chunk") ++ w.string c) ++ more) (gives c)
  unfolding search_map
  chunk_key c more n short =
      Answers-eq (search_map rd (suc n)) (gives c)
        (sym (append_assoc (w.string (codes "chunk")) (w.string c) more))
        (Answers-bind (map_error (prefixed "read map key") (read rd.read_map_key))
          (λ key'. at_key rd (search_map rd n) (same key' (codes "chunk")))
          (w.string (codes "chunk")) (w.string c ++ more) (gives c)
          (key_lem (codes "chunk") (omega arith)) (rw (same_refl (codes "chunk")) value))
    where
      value : Answers (at_key rd (search_map rd n) true) (w.string c ++ more) (gives c)
      value rest = (
        more ++ rest,
        ap (returned tt) (
            ap rd.read_map_key (append_assoc (w.string c) more rest)
            ∙ laws.map_key c short (more ++ rest)),
      )

  no_more : Answers (search_map rd 0) [] lacking
  unfolding search_map
  no_more rest = (rest, refl)

  compressed_answer :
      (d : Bytes)
      → IsShort d
      → Answers (search_map rd (count_string d 0)) (string_wire w (codes "compressed") d) lacking
  compressed_answer [] h = no_more
  compressed_answer (x ∷ d) h = Answers-eq (search_map rd 1) lacking (append-nil _) (
      other_key (codes "compressed") (w.string (x ∷ d)) [] 0 lacking (omega arith)
        (unfold same in refl) (laws.skip-string (x ∷ d) h) no_more)

  chunk_answer :
      (c d : Bytes)
      → IsShort c
      → IsShort d
      → Answers
          (search_map rd (count_string c (count_string d 0)))
          (string_wire w (codes "chunk") c ++ string_wire w (codes "compressed") d)
          (string_answer c)
  chunk_answer [] d hc hd = compressed_answer d hd
  chunk_answer (x ∷ c) d hc hd =
      chunk_key (x ∷ c) (string_wire w (codes "compressed") d) (count_string d 0) hc

  size_answer :
      (s : Option ℤ) (c d : Bytes)
      → IsSize s
      → IsShort c
      → IsShort d
      → Answers
          (search_map rd (count_size s (count_string c (count_string d 0))))
          (size_wire w s
            ++ (string_wire w (codes "chunk") c ++ string_wire w (codes "compressed") d))
          (string_answer c)
  size_answer none c d hs hc hd = chunk_answer c d hc hd
  size_answer (some n) c d hs hc hd =
      other_key (codes "size") (w.int n)
        (string_wire w (codes "chunk") c ++ string_wire w (codes "compressed") d)
        (count_string c (count_string d 0)) (string_answer c) (omega arith) (unfold same in refl)
        (laws.skip-int n hs) (chunk_answer c d hc hd)

  options_answer :
      (z : MessageOptions)
      → IsOptions z
      → Answers (search_options rd) (options_wire w z) (string_answer z.chunk)
  options_answer z h =
      Answers-peek rd.next_type (search_kind rd) (options_wire w z) (map_type, none)
        (string_answer z.chunk) starts
        (Answers-bind (map_error (prefixed "read map header") (read rd.read_map_header))
          (search_map rd) (w.map_header (field_count z)) _ (string_answer z.chunk)
          (Takes-map_error (prefixed "read map header") (read rd.read_map_header) _
            (Takes-read rd.read_map_header _ tt (laws.map_header (field_count z) (ground arith))))
          (size_answer z.size z.chunk z.compressed h.size_int h.chunk_short h.compressed_short))
    where
      starts : HasKind rd (options_wire w z) map_type
      starts rest' =
          ap rd.next_type (append_assoc (w.map_header (field_count z)) _ rest')
          ∙ laws.kind-map (field_count z) _

  pub tail_answer :
      (o : Option MessageOptions)
      → IsTail o
      → Answers (search_options rd) (tail_wire w o) (chunk_option o)
  tail_answer none h =
      Answers-peek rd.next_type (search_kind rd) w.nil (nil_type, none) (lacks wraps_nil)
        laws.kind-nil (λ rest. (w.nil ++ rest, refl))
  tail_answer (some z) h = options_answer z h

  HasKind-append :
      (first more : Bytes) (t : Kind) → HasKind rd first t → HasKind rd (first ++ more) t
  HasKind-append first more t h rest =
      ap rd.next_type (append_assoc first more rest) ∙ h (more ++ rest)

  records_answer :
      (records more : Bytes) (o : Answer)
      → Passes rd.skip records
      → Answers (search_options rd) more o
      → Answers (skip_as rd "skip records" >> search_options rd) (records ++ more) o
  records_answer records more o h k =
      Answers-then (skip_as rd "skip records") (search_options rd) records more o
        (skip_lem "skip records" records h) k

  -- A message of four elements: the timestamp is passed over, and so is the record.
  pub timed_answer :
      (tag time event more : Bytes) (t : Kind) (o : Answer)
      → IsShort tag
      → HasKind rd time t
      → is_timestamp t ≡ true
      → Passes rd.skip time
      → Passes rd.skip event
      → Answers (search_options rd) more o
      → Answers (search_message rd 4) (w.string tag ++ (time ++ (event ++ more))) o
  timed_answer tag time event more t o short kind stamp ht he k =
      Answers-then (skip_as rd "skip tag") (search_second rd 4) (w.string tag) _ o
        (skip_lem "skip tag" (w.string tag) (laws.skip-string tag short))
        (Answers-peek rd.next_type (search_behind rd 4) (time ++ (event ++ more)) (t, none) o
          (HasKind-append time (event ++ more) t kind) (rw stamp body))
    where
      body :
          Answers
            (skip_as rd "skip timestamp" >> (skip_as rd "skip records" >> search_options rd))
            (time ++ (event ++ more))
            o
      body =
          Answers-then (skip_as rd "skip timestamp")
            (skip_as rd "skip records" >> search_options rd) time (event ++ more) o
            (skip_lem "skip timestamp" time ht) (records_answer event more o he k)

  -- A message of three elements: the second holds the records.
  pub packed_answer :
      (tag records more : Bytes) (t : Kind) (o : Answer)
      → IsShort tag
      → HasKind rd records t
      → is_timestamp t ≡ false
      → Passes rd.skip records
      → Answers (search_options rd) more o
      → Answers (search_message rd 3) (w.string tag ++ (records ++ more)) o
  packed_answer tag records more t o short kind stamp h k =
      Answers-then (skip_as rd "skip tag") (search_second rd 3) (w.string tag) _ o
        (skip_lem "skip tag" (w.string tag) (laws.skip-string tag short))
        (Answers-peek rd.next_type (search_behind rd 3) (records ++ more) (t, none) o
          (HasKind-append records more t kind) (rw stamp (records_answer records more o h k)))

  -- The whole search, behind the array header.
  pub get_chunk-answer :
      (n : ℕ) (body : Bytes) (o : Answer)
      → n < 2 ^ 32
      → Answers (search_message rd n) body o
      → (rest : Bytes)
      → (left : Bytes) × (get_chunk rd ((w.array_header n ++ body) ++ rest) ≡ answer o left)
  unfolding get_chunk
  get_chunk-answer n body o short h =
      Answers-bind (map_error (prefixed "read array header") (read rd.read_array_header))
        (search_message rd) (w.array_header n) body o
        (Takes-map_error (prefixed "read array header") (read rd.read_array_header)
          (w.array_header n)
          (Takes-read rd.read_array_header (w.array_header n) tt (laws.array_header n short)))
        h
