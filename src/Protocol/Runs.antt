-- ===== src/Protocol/Runs.antt =====
-- The theorems on messages, applied to messages and to the codec of `Msgp.Model`.
use fluent_forward_go.Common.{
  ℕ, ◌∷◌, [], Option, none, some, Bytes, pos, negsuc, arith, codes, All, ◌≡◌, refl, length, Bool,
  false, true, ◌<◌, ◌++◌, ◌*◌, ◌^◌,
}
use fluent_forward_go.Msgp.Errors.{Error, foreign}
use fluent_forward_go.Msgp.Model.{wire, writes, appends}
use fluent_forward_go.Msgp.Model.Laws.{
  reads, wire-IsFormat, writes-IsWriter, appends-IsAppender, reads-IsReader,
}
use fluent_forward_go.Protocol.EventTime.{
  EventTime, IsEventTime, zero_time, marshal_binary_to, unmarshal_binary,
}
use fluent_forward_go.Protocol.EventTime.Binary.{
  unmarshal_binary-marshal_binary_to, marshal_binary_to-big_endian, big_endian,
}
use fluent_forward_go.Protocol.Options.{MessageOptions, IsOptions, empty, is_empty}
use fluent_forward_go.Protocol.Options.Write.{encode_msg, marshal_msg}
use fluent_forward_go.Protocol.Options.Read.{decode_msg, unmarshal_msg, merged}
use fluent_forward_go.Protocol.Entries.{EntryList, IsEntryExt}
use fluent_forward_go.Protocol.ChunkId.{chunk_of, chunk_of-chunk_of}
use fluent_forward_go.Protocol.Message.{Message, MessageExt, IsMessage, IsMessageExt}
use fluent_forward_go.Protocol.Message.Write.{
  message_encode_msg, message_marshal_msg, message_ext_encode_msg, message_ext_marshal_msg,
}
use fluent_forward_go.Protocol.Message.Read.{
  message_decode_msg, message_unmarshal_msg, message_over,
}
use fluent_forward_go.Protocol.Message.Read.Ext.{
  message_ext_decode_msg, message_ext_unmarshal_msg, message_ext_over,
}
use fluent_forward_go.Protocol.Forward.{ForwardMessage, IsForward}
use fluent_forward_go.Protocol.Forward.Write.{forward_encode_msg, forward_marshal_msg}
use fluent_forward_go.Protocol.Forward.Read.{
  forward_decode_msg, forward_unmarshal_msg, forward_over,
}
use fluent_forward_go.Protocol.PackedForward.{PackedForwardMessage, IsPacked}
use fluent_forward_go.Protocol.PackedForward.Write.{packed_encode_msg, packed_marshal_msg}
use fluent_forward_go.Protocol.PackedForward.Read.{
  packed_decode_msg, packed_unmarshal_msg, packed_over,
}
use fluent_forward_go.Protocol.PackedForward.Compressed.{
  Gzip, IsGzip, new_compressed_from_bytes, new_compressed_from_bytes_lem,
}
use fluent_forward_go.Protocol.RoundTrip.{
  RoundTrips, options_round_trip, message_round_trip, message_ext_round_trip, forward_round_trip,
  packed_round_trip,
}

abbrev a_time : EventTime
a_time = record { unix = pos 1700000000; nanosecond = 999999999 }

a_time-IsEventTime : IsEventTime a_time
a_time-IsEventTime = record { seconds = omega arith; nanoseconds = omega arith }

abbrev some_options : MessageOptions
some_options = record { size = some (pos 2); chunk = codes "p8n9gmxTQVC8"; compressed = [] }

abbrev other_options : MessageOptions
other_options = record { size = none; chunk = codes "old"; compressed = codes "gzip" }

some_options-IsOptions : IsOptions some_options
some_options-IsOptions = record {
  size_int = omega arith;
  chunk_short = omega arith;
  compressed_short = omega arith;
}

options_round_trip_example :
    RoundTrips
      (marshal_msg appends some_options)
      (encode_msg writes some_options)
      (unmarshal_msg reads)
      (decode_msg reads)
      other_options
      (merged other_options some_options)
options_round_trip_example =
    options_round_trip wire wire-IsFormat reads reads-IsReader writes writes-IsWriter appends
      appends-IsAppender some_options other_options some_options-IsOptions

abbrev a_message : Message ℕ
a_message = record {
  tag = codes "tag";
  timestamp = pos 1700000000;
  event = 7;
  options = some some_options;
}

abbrev old_message : Message ℕ
old_message = record {
  tag = codes "old";
  timestamp = negsuc 4;
  event = 0;
  options = some other_options;
}

a_message-IsMessage : IsMessage wire a_message
a_message-IsMessage = record {
  tag_short = omega arith;
  time = omega arith;
  plain = refl;
  tail = some_options-IsOptions;
}

message_round_trip_example :
    RoundTrips
      (message_marshal_msg appends a_message)
      (message_encode_msg writes a_message)
      (message_unmarshal_msg reads)
      (message_decode_msg reads)
      old_message
      (message_over a_message old_message)
message_round_trip_example =
    message_round_trip wire wire-IsFormat reads reads-IsReader writes writes-IsWriter appends
      appends-IsAppender a_message old_message a_message-IsMessage

abbrev a_message_ext : MessageExt ℕ
a_message_ext = record { tag = codes "tag"; timestamp = a_time; event = 7; options = none }

abbrev old_message_ext : MessageExt ℕ
old_message_ext = record {
  tag = [];
  timestamp = zero_time;
  event = 0;
  options = some other_options;
}

a_message_ext-IsMessageExt : IsMessageExt wire a_message_ext
a_message_ext-IsMessageExt = record {
  tag_short = omega arith;
  time = a_time-IsEventTime;
  plain = refl;
  tail = tt;
}

message_ext_round_trip_example :
    RoundTrips
      (message_ext_marshal_msg appends a_message_ext)
      (message_ext_encode_msg writes a_message_ext)
      (message_ext_unmarshal_msg reads)
      (message_ext_decode_msg reads)
      old_message_ext
      (message_ext_over a_message_ext old_message_ext)
message_ext_round_trip_example =
    message_ext_round_trip wire wire-IsFormat reads reads-IsReader writes writes-IsWriter appends
      appends-IsAppender a_message_ext old_message_ext a_message_ext-IsMessageExt

abbrev two_entries : EntryList ℕ
two_entries =
    record { timestamp = a_time; event = 7 } ∷ record { timestamp = a_time; event = 300 } ∷ []

an_entry-IsEntryExt : IsEntryExt wire (record { timestamp = a_time; event = 7 })
an_entry-IsEntryExt = record { time = a_time-IsEventTime; plain = refl }

two_entries-plain : All (IsEntryExt wire) two_entries
two_entries-plain = (an_entry-IsEntryExt, (record { time = a_time-IsEventTime; plain = refl }, tt))

abbrev a_forward : ForwardMessage ℕ
a_forward = record { tag = codes "tag"; entries = two_entries; options = some some_options }

abbrev old_forward : ForwardMessage ℕ
old_forward = record {
  tag = [];
  entries = record { timestamp = zero_time; event = 1 } ∷ [];
  options = none;
}

a_forward-IsForward : IsForward wire a_forward
a_forward-IsForward = record {
  tag_short = omega arith;
  entries_short = omega arith;
  entries_plain = two_entries-plain;
  tail = some_options-IsOptions;
}

forward_round_trip_example :
    RoundTrips
      (forward_marshal_msg appends a_forward)
      (forward_encode_msg writes a_forward)
      (forward_unmarshal_msg reads 0)
      (forward_decode_msg reads 0)
      old_forward
      (forward_over a_forward old_forward)
forward_round_trip_example =
    forward_round_trip wire wire-IsFormat reads reads-IsReader writes writes-IsWriter appends
      appends-IsAppender 0 a_forward old_forward a_forward-IsForward

abbrev a_packed : PackedForwardMessage
a_packed = record { tag = codes "tag"; event_stream = 1 ∷ 2 ∷ 3 ∷ []; options = some some_options }

abbrev old_packed : PackedForwardMessage
old_packed = record { tag = []; event_stream = []; options = none }

a_packed-IsPacked : IsPacked a_packed
a_packed-IsPacked = record {
  tag_short = omega arith;
  stream_short = omega arith;
  tail = some_options-IsOptions;
}

packed_round_trip_example :
    RoundTrips
      (packed_marshal_msg appends a_packed)
      (packed_encode_msg writes a_packed)
      (packed_unmarshal_msg reads)
      (packed_decode_msg reads)
      old_packed
      (packed_over a_packed old_packed)
packed_round_trip_example =
    packed_round_trip wire wire-IsFormat reads reads-IsReader writes writes-IsWriter appends
      appends-IsAppender a_packed old_packed a_packed-IsPacked

unmarshal_binary-marshal_binary_to_example :
    unmarshal_binary (marshal_binary_to (record { unix = negsuc 0; nanosecond = 5 })) zero_time
    ≡ (record { unix = pos 4294967295; nanosecond = 5 }, none)
unmarshal_binary-marshal_binary_to_example =
    unmarshal_binary-marshal_binary_to (record { unix = negsuc 0; nanosecond = 5 }) zero_time
      (omega arith)

marshal_binary_to-big_endian_example :
    (length (marshal_binary_to zero_time) ≡ 8)
    × All (λ (b : ℕ). b < 256) (marshal_binary_to zero_time)
    × (big_endian 0 (marshal_binary_to zero_time) ≡ 2288912640 * 2 ^ 32)
marshal_binary_to-big_endian_example = marshal_binary_to-big_endian zero_time

chunk_of-chunk_of_example :
    let first = chunk_of (1 ∷ 2 ∷ 3 ∷ [], none) empty in
    (first.error ≡ none)
    × (first.options.chunk ≡ first.chunk)
    × (is_empty first.chunk ≡ false)
    × (chunk_of ([], some (foreign 0)) first.options ≡ first)
chunk_of-chunk_of_example =
    chunk_of-chunk_of (1 ∷ 2 ∷ 3 ∷ []) ([], some (foreign 0)) empty (λ e. cc)

-- A compressor that keeps what it is given, and when it is closed writes it behind a mark.
abbrev flushed : Bytes × Bool → Bytes
flushed (held, false) = 0x1f ∷ []
flushed (held, true) = 0x1f ∷ held

abbrev add : Bytes × Bool → Bytes → (Bytes × Bool) × Option Error
add (held, false) bits = ((held ++ bits, false), none)
add (held, true) bits = ((held, true), some (foreign 0))

abbrev marks : Gzip (Bytes × Bool)
marks = record {
  fresh = ([], false);
  write = add;
  close = λ w. ((w.0, true), none);
  output = flushed;
}

abbrev unmark : Bytes → Option Bytes
unmark [] = none
unmark (x ∷ bits) = some bits

add-open :
    (w : Bytes × Bool) (bits : Bytes)
    → w.1 ≡ false
    → ((add w bits).0.0 ≡ w.0 ++ bits) × ((add w bits).0.1 ≡ false)
add-open (held, false) bits h = (refl, refl)
add-open (held, true) bits h = cc

flushed-closed : (w : Bytes × Bool) → w.1 ≡ true → unmark (flushed w) ≡ some w.0
flushed-closed (held, true) h = refl
flushed-closed (held, false) h = cc

marks-IsGzip : IsGzip marks unmark (λ w. w.0) (λ w. w.1)
marks-IsGzip = record {
  fresh = (refl, refl);
  write = λ w bits h k. add-open w bits h;
  close = λ w h k. (refl, refl);
  complete = flushed-closed;
}

new_compressed_from_bytes_lem_example :
    (msg : PackedForwardMessage) × (new_compressed_from_bytes marks (codes "tag") (1 ∷ 2 ∷ [])
      ≡ (some msg, none))
    × (msg.tag ≡ codes "tag")
    × (unmark msg.event_stream ≡ some (1 ∷ 2 ∷ []))
    × (msg.options ≡ some (record empty { compressed = codes "gzip" }))
new_compressed_from_bytes_lem_example =
    new_compressed_from_bytes_lem marks unmark (λ w. w.0) (λ w. w.1) marks-IsGzip (codes "tag")
      (1 ∷ 2 ∷ []) refl refl
