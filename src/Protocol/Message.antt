-- ===== src/Protocol/Message.antt =====
-- `Message` and `MessageExt` of fluent/protocol/message.go: one event, with a timestamp in seconds or
-- in nanoseconds.
pub mod Write
pub mod Read
use fluent_forward_go.Common.{
  ℕ, ◌+◌, ◌≡◌, true, Option, none, some, ◌++◌, Bytes, length, ℤ, IsInt64,
}
use fluent_forward_go.Msgp.Format.{Wire, IsShort}
use fluent_forward_go.Msgp.Errors.{Error}
use fluent_forward_go.Protocol.EventTime.{EventTime, event_time_wire, IsEventTime, event_time_len}
use fluent_forward_go.Protocol.Options.{MessageOptions}
use fluent_forward_go.Protocol.Tail.{tail_wire, IsTail}
use fluent_forward_go.Protocol.ChunkId.{Uuid, or_empty, chunk_of}

pub record Message (Intf : Type 0) : Type 0 where
  pub tag : Bytes
  pub timestamp : ℤ
  pub event : Intf
  pub options : Option MessageOptions

pub record MessageExt (Intf : Type 0) : Type 0 where
  pub tag : Bytes
  pub timestamp : EventTime
  pub event : Intf
  pub options : Option MessageOptions

module _ {Intf : Type 0} where
  -- `now` is what `time.Now().UTC()` shows.
  unfoldable pub new_message : EventTime → Bytes → Intf → Message Intf
  new_message now tag event = record {
    tag = tag;
    timestamp = now.unix;
    event = event;
    options = none;
  }

  unfoldable pub new_message_ext : EventTime → Bytes → Intf → MessageExt Intf
  new_message_ext now tag event = record {
    tag = tag;
    timestamp = now;
    event = event;
    options = none;
  }

  unfoldable pub message_chunk : Uuid → Message Intf → Message Intf × (Bytes × Option Error)
  message_chunk uuid msg =
      let c = chunk_of uuid (or_empty msg.options) in
      (record msg { options = some c.options }, (c.chunk, c.error))

  unfoldable pub message_ext_chunk :
      Uuid → MessageExt Intf → MessageExt Intf × (Bytes × Option Error)
  message_ext_chunk uuid msg =
      let c = chunk_of uuid (or_empty msg.options) in
      (record msg { options = some c.options }, (c.chunk, c.error))

-- `Msgsize`; `options_msgsize` is that of the options, the rest are the package's sizes.
abbrev pub tail_msgsize : (MessageOptions → ℕ) → Option MessageOptions → ℕ
tail_msgsize options_msgsize none = 0
tail_msgsize options_msgsize (some o) = options_msgsize o

module _ {Intf : Type 0} (string_prefix_size : ℕ) (guess_size : Intf → ℕ)
    (options_msgsize : MessageOptions → ℕ) where
  unfoldable pub message_msgsize : ℕ → Message Intf → ℕ
  message_msgsize int64_size msg =
      1
      + string_prefix_size
      + length msg.tag
      + int64_size
      + guess_size msg.event
      + tail_msgsize options_msgsize msg.options

  unfoldable pub message_ext_msgsize : ℕ → MessageExt Intf → ℕ
  message_ext_msgsize extension_prefix_size msg =
      1
      + string_prefix_size
      + length msg.tag
      + extension_prefix_size
      + event_time_len
      + guess_size msg.event
      + tail_msgsize options_msgsize msg.options

module _ {Intf : Type 0} (w : Wire Intf) where
  abbrev pub message_wire : Message Intf → Bytes
  message_wire m =
      w.array_header 4
      ++ (w.string m.tag ++ (w.int m.timestamp ++ (w.intf m.event ++ tail_wire w m.options)))

  abbrev pub message_ext_wire : MessageExt Intf → Bytes
  message_ext_wire m =
      w.array_header 4
      ++ (w.string m.tag
          ++ (event_time_wire w m.timestamp ++ (w.intf m.event ++ tail_wire w m.options)))

  pub record IsMessage (m : Message Intf) : Type 0 where
    pub tag_short : IsShort m.tag
    pub time : IsInt64 m.timestamp
    pub plain : w.plain m.event ≡ true
    pub tail : IsTail m.options

  pub record IsMessageExt (m : MessageExt Intf) : Type 0 where
    pub tag_short : IsShort m.tag
    pub time : IsEventTime m.timestamp
    pub plain : w.plain m.event ≡ true
    pub tail : IsTail m.options
