-- ===== src/Protocol/ChunkId.antt =====
-- Chunk IDs: `makeChunkID` of fluent/protocol/chunk.go, and what the `Chunk` methods of the four
-- messages share.
use fluent_forward_go.Common.{
  ℕ, ◌+◌, ◌-◌, ◌*◌, ◌/◌, ◌%◌, ◌≡◌, refl, ◌≢◌, inl, inr, false, not, Option, none, some, [], ◌∷◌,
  ltb, ◌==◌, if◌then◌else◌, Bytes, Bool-cases,
}
use fluent_forward_go.Msgp.Errors.{Error}
use fluent_forward_go.Protocol.Options.{MessageOptions, empty, is_empty}

-- `base64.StdEncoding`: a digit, and the groups of three bytes with their padding.
unfoldable pub base64_digit : ℕ → ℕ
base64_digit n =
    if ltb n 26
    then b'A' + n
    else if ltb n 52
    then b'a' + (n - 26)
    else if ltb n 62
    then b'0' + (n - 52)
    else if n == 62
    then b'+'
    else b'/'

unfoldable pub encode_to_string : Bytes → Bytes
unfolding base64_digit
encode_to_string [] = []
encode_to_string (a ∷ []) = base64_digit (a / 4) ∷ base64_digit (a % 4 * 16) ∷ b'=' ∷ b'=' ∷ []
encode_to_string (a ∷ b ∷ []) =
    base64_digit (a / 4)
    ∷ base64_digit (a % 4 * 16 + b / 16)
    ∷ base64_digit (b % 16 * 4)
    ∷ b'='
    ∷ []
encode_to_string (a ∷ b ∷ c ∷ more) =
    base64_digit (a / 4)
    ∷ base64_digit (a % 4 * 16 + b / 16)
    ∷ base64_digit (b % 16 * 4 + c / 64)
    ∷ base64_digit (c % 64)
    ∷ encode_to_string more

-- What `uuid.New().MarshalBinary()` returned, of a package outside the repository.
abbrev pub Uuid : Type 0
Uuid = Bytes × Option Error

unfoldable pub make_chunk_id : Uuid → Bytes × Option Error
unfolding encode_to_string
make_chunk_id (b, some e) = ([], some e)
make_chunk_id (b, none) = (encode_to_string b, none)

-- `if msg.Options == nil { msg.Options = &MessageOptions{} }`
abbrev pub or_empty : Option MessageOptions → MessageOptions
or_empty none = empty
or_empty (some o) = o

-- The options after a call of `Chunk`, and its results.
pub record Chunked : Type 0 where
  pub options : MessageOptions
  pub chunk : Bytes
  pub error : Option Error

unfoldable pub chunk_of : Uuid → MessageOptions → Chunked
chunk_of uuid o =
    let (chunk, e) = make_chunk_id uuid in
    if not (is_empty o.chunk)
    then record { options = o; chunk = o.chunk; error = none }
    else record { options = record o { chunk = chunk }; chunk = chunk; error = e }

pub encode_to_string-ne_nil : (b : Bytes) → b ≢ [] → is_empty (encode_to_string b) ≡ false
unfolding encode_to_string
encode_to_string-ne_nil [] h = absurd (h refl)
encode_to_string-ne_nil (a ∷ []) h = refl
encode_to_string-ne_nil (a ∷ b ∷ []) h = refl
encode_to_string-ne_nil (a ∷ b ∷ c ∷ more) h = refl

-- A call of Chunk that draws an ID with at least a byte succeeds, leaves the chunk that it returns
-- in the options, not empty, and every later call returns it again and changes nothing, whatever it
-- draws, an error included.
pub chunk_of-chunk_of :
    (b : Bytes) (later : Uuid) (o : MessageOptions)
    → b ≢ []
    → let first = chunk_of (b, none) o in
      (first.error ≡ none)
      × (first.options.chunk ≡ first.chunk)
      × (is_empty first.chunk ≡ false)
      × (chunk_of later first.options ≡ first)
unfolding chunk_of make_chunk_id
chunk_of-chunk_of b later o h = elim (Bool-cases (is_empty o.chunk)) [
  | inl e ↦ rw e (refl, refl, filled, rw filled)
  | inr e ↦ rw e (refl, refl, e, rw e)
]
  where
    filled : is_empty (encode_to_string b) ≡ false
    filled = encode_to_string-ne_nil b h
