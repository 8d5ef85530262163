-- ===== src/Protocol/ChunkOption.antt =====
-- `GetChunk` on a marshaled message of each kind answers with its chunk option.
pub mod Drawn
use fluent_forward_go.Common.{
  suc, ◌≡◌, refl, ap, ◌∙◌, subst, Option, none, some, List, [], ◌∷◌, ◌++◌, append_assoc, append-nil,
  arith, Bytes, length, All, concat,
}
use fluent_forward_go.Msgp.Put.{wrote, Put, Appends, Emits}
use fluent_forward_go.Msgp.Format.{
  bin_type, array_type, int_type, ext_type, Wire, Reads, IsShort, IsFormat, IsAppender, Passes,
  HasKind, IsReader,
}
use fluent_forward_go.Protocol.EventTime.{event_time_wire, marshal_binary_to}
use fluent_forward_go.Protocol.EventTime.Binary.{marshal_binary_to-IsShort}
use fluent_forward_go.Protocol.Options.{MessageOptions}
use fluent_forward_go.Protocol.Tail.{tail_wire, IsTail}
use fluent_forward_go.Protocol.Entries.{
  EntryExt, EntryList, entries_wire, entry_ext_wire, entry_list_wire, IsEntryExt,
}
use fluent_forward_go.Protocol.Message.{
  Message, MessageExt, message_wire, message_ext_wire, IsMessage, IsMessageExt,
}
use fluent_forward_go.Protocol.Message.Write.{
  message_marshal_msg, message_ext_marshal_msg, message_marshal_msg_lem,
  message_ext_marshal_msg_lem,
}
use fluent_forward_go.Protocol.Forward.{
  ForwardMessage, array_size, last_wire, forward_wire, IsForward,
}
use fluent_forward_go.Protocol.Forward.Write.{forward_marshal_msg, forward_marshal_msg_lem}
use fluent_forward_go.Protocol.PackedForward.{PackedForwardMessage, packed_wire, IsPacked}
use fluent_forward_go.Protocol.PackedForward.Write.{packed_marshal_msg, packed_marshal_msg_lem}
use fluent_forward_go.Protocol.Chunk.{search_message, get_chunk}
use fluent_forward_go.Protocol.Chunk.Found.{
  Answer, answer, chunk_option, last_option, Answers, tail_answer, timed_answer, packed_answer,
  get_chunk-answer,
}

-- `GetChunk` on what a writer wrote.
abbrev pub ChunkIs : {Intf : Type 0} → Reads Intf → Put → Answer → Type 0
ChunkIs rd marshal o =
    (bs : Bytes) × (marshal [] ≡ wrote bs) × (left : Bytes) × (get_chunk rd bs ≡ answer o left)

chunk_is :
    {Intf : Type 0} (rd : Reads Intf) (marshal : Put) (bs : Bytes) (o : Answer)
    → Emits marshal bs
    → ((rest : Bytes) → (left : Bytes) × (get_chunk rd (bs ++ rest) ≡ answer o left))
    → ChunkIs rd marshal o
chunk_is rd marshal bs o hm hc = (bs, hm [], (hc []).0, rw (append-nil bs) at ((hc []).1))

module _ {Intf : Type 0} (w : Wire Intf) (fmt : IsFormat w) (rd : Reads Intf)
    (rlaws : IsReader w rd) where
  module _ (apd : Appends Intf) (alaws : IsAppender w apd) where
    -- `GetChunk` on the bytes of `MarshalMsg` of a Message.
    pub get_chunk-message_marshal_msg :
        (m : Message Intf)
        → IsMessage w m
        → ChunkIs rd (message_marshal_msg apd m) (chunk_option m.options)
    get_chunk-message_marshal_msg m h =
        chunk_is rd (message_marshal_msg apd m) (message_wire w m) (chunk_option m.options)
          (message_marshal_msg_lem w fmt apd alaws m h)
          (get_chunk-answer w rd rlaws 4 _ (chunk_option m.options) (omega arith) (
            timed_answer w rd rlaws m.tag (w.int m.timestamp) (w.intf m.event)
              (tail_wire w m.options) int_type (chunk_option m.options) h.tag_short
              (rlaws.kind-int m.timestamp) refl (rlaws.skip-int m.timestamp h.time)
              (rlaws.skip-intf m.event h.plain) (tail_answer w rd rlaws m.options h.tail)))

    -- `GetChunk` on the bytes of `MarshalMsg` of a MessageExt.
    pub get_chunk-message_ext_marshal_msg :
        (m : MessageExt Intf)
        → IsMessageExt w m
        → ChunkIs rd (message_ext_marshal_msg apd m) (chunk_option m.options)
    get_chunk-message_ext_marshal_msg m h =
        chunk_is rd (message_ext_marshal_msg apd m) (message_ext_wire w m) (chunk_option m.options)
          (message_ext_marshal_msg_lem w fmt apd alaws m h)
          (get_chunk-answer w rd rlaws 4 _ (chunk_option m.options) (omega arith) (
            timed_answer w rd rlaws m.tag (event_time_wire w m.timestamp) (w.intf m.event)
              (tail_wire w m.options) ext_type (chunk_option m.options) h.tag_short
              (rlaws.kind-extension (marshal_binary_to m.timestamp)) refl
              (rlaws.skip-extension 0 (marshal_binary_to m.timestamp)
                (marshal_binary_to-IsShort m.timestamp))
              (rlaws.skip-intf m.event h.plain) (tail_answer w rd rlaws m.options h.tail)))

    -- `GetChunk` on the bytes of `MarshalMsg` of a PackedForwardMessage.
    pub get_chunk-packed_marshal_msg :
        (m : PackedForwardMessage)
        → IsPacked m
        → ChunkIs rd (packed_marshal_msg apd m) (chunk_option m.options)
    get_chunk-packed_marshal_msg m h =
        chunk_is rd (packed_marshal_msg apd m) (packed_wire w m) (chunk_option m.options)
          (packed_marshal_msg_lem w fmt apd alaws m h)
          (get_chunk-answer w rd rlaws 3 _ (chunk_option m.options) (omega arith) (
            packed_answer w rd rlaws m.tag (w.bytes m.event_stream) (tail_wire w m.options) bin_type
              (chunk_option m.options) h.tag_short (rlaws.kind-bytes m.event_stream) refl
              (rlaws.skip-bytes m.event_stream h.stream_short)
              (tail_answer w rd rlaws m.options h.tail)))

    -- An entry is an array of two objects.
    entry-Passes : (e : EntryExt Intf) → IsEntryExt w e → Passes rd.skip (entry_ext_wire w e)
    entry-Passes e h =
        subst (λ bs. Passes rd.skip (w.array_header 2 ++ (event_time_wire w e.timestamp ++ bs)))
          (append-nil (w.intf e.event))
          (rlaws.skip-array (event_time_wire w e.timestamp ∷ w.intf e.event ∷ []) (omega arith) (
            rlaws.skip-extension 0 (marshal_binary_to e.timestamp)
                (marshal_binary_to-IsShort e.timestamp),
            (rlaws.skip-intf e.event h.plain, tt),
          ))

    abbrev objects : EntryList Intf → List Bytes
    objects [] = []
    objects (e ∷ es) = entry_ext_wire w e ∷ objects es

    objects_lem :
        (es : EntryList Intf)
        → All (IsEntryExt w) es
        → All (Passes rd.skip) (objects es)
          × (length (objects es) ≡ length es)
          × (concat (objects es) ≡ entries_wire w es)
    objects_lem [] h = (tt, refl, refl)
    objects_lem (e ∷ es) h =
        let (p, n, c) = objects_lem es h.1 in
        ((entry-Passes e h.0, p), ap suc n, ap (λ bs. entry_ext_wire w e ++ bs) c)

    list-Passes :
        (es : EntryList Intf)
        → IsShort es
        → All (IsEntryExt w) es
        → Passes rd.skip (entry_list_wire w es)
    list-Passes es short h =
        let (p, n, c) = objects_lem es h in
        rw (← c, ← n) (rlaws.skip-array (objects es) (omega (arith, n)) p)

    list_kind : (es : EntryList Intf) → HasKind rd (entry_list_wire w es) array_type
    list_kind es rest =
        ap rd.next_type (append_assoc (w.array_header (length es)) (entries_wire w es) rest)
        ∙ rlaws.kind-array (length es) (entries_wire w es ++ rest)

    -- `GetChunk` on the bytes of `MarshalMsg` of a ForwardMessage.
    pub get_chunk-forward_marshal_msg :
        (m : ForwardMessage Intf)
        → IsForward w m
        → ChunkIs rd (forward_marshal_msg apd m) (last_option m.options)
    get_chunk-forward_marshal_msg m h =
        chunk_is rd (forward_marshal_msg apd m) (forward_wire w m) (last_option m.options)
          (forward_marshal_msg_lem w fmt apd alaws m h)
          (get_chunk-answer w rd rlaws (array_size m.options) _ (last_option m.options)
            (ground arith) (behind m.options h.tail))
      where
        body : Option MessageOptions → Bytes
        body o = w.string m.tag ++ (entry_list_wire w m.entries ++ last_wire w o)

        behind :
            (o : Option MessageOptions)
            → IsTail o
            → Answers (search_message rd (array_size o)) (body o) (last_option o)
        behind none k = λ rest. (body none ++ rest, refl)
        behind (some z) k =
            packed_answer w rd rlaws m.tag (entry_list_wire w m.entries) (last_wire w (some z))
              array_type (last_option (some z)) h.tag_short (list_kind m.entries) refl
              (list-Passes m.entries h.entries_short h.entries_plain)
              (tail_answer w rd rlaws (some z) k)
