-- ===== src/Protocol/Forward.antt =====
-- `ForwardMessage` of fluent/protocol/forward_message.go: a list of events in an array.
pub mod Write
pub mod Read
use fluent_forward_go.Common.{ℕ, ◌+◌, Option, none, some, [], ◌++◌, Bytes, length, All, pos}
use fluent_forward_go.Msgp.Format.{Wire, IsShort}
use fluent_forward_go.Msgp.Errors.{Error}
use fluent_forward_go.Protocol.Entries.{EntryList, entry_list_wire, IsEntryExt}
use fluent_forward_go.Protocol.Options.{MessageOptions, empty, options_wire}
use fluent_forward_go.Protocol.Tail.{IsTail}
use fluent_forward_go.Protocol.ChunkId.{Uuid, or_empty, chunk_of}
use fluent_forward_go.Protocol.Message.{tail_msgsize}

pub record ForwardMessage (Intf : Type 0) : Type 0 where
  pub tag : Bytes
  pub entries : EntryList Intf
  pub options : Option MessageOptions

module _ {Intf : Type 0} where
  unfoldable pub new_forward_message : Bytes → EntryList Intf → ForwardMessage Intf
  new_forward_message tag entries = record {
    tag = tag;
    entries = entries;
    options = some (record empty { size = some (pos (length entries)) });
  }

  unfoldable pub forward_chunk :
      Uuid → ForwardMessage Intf → ForwardMessage Intf × (Bytes × Option Error)
  forward_chunk uuid fm =
      let c = chunk_of uuid (or_empty fm.options) in
      (record fm { options = some c.options }, (c.chunk, c.error))

  unfoldable pub forward_msgsize :
      ℕ → (EntryList Intf → ℕ) → (MessageOptions → ℕ) → ForwardMessage Intf → ℕ
  forward_msgsize string_prefix_size entries_msgsize options_msgsize fm =
      1
      + string_prefix_size
      + length fm.tag
      + entries_msgsize fm.entries
      + tail_msgsize options_msgsize fm.options

-- Unlike the other messages, this one has no third element where there are no options.
abbrev pub array_size : Option MessageOptions → ℕ
array_size none = 2
array_size (some _) = 3

module _ {Intf : Type 0} (w : Wire Intf) where
  abbrev pub last_wire : Option MessageOptions → Bytes
  last_wire none = []
  last_wire (some o) = options_wire w o

  abbrev pub forward_wire : ForwardMessage Intf → Bytes
  forward_wire m =
      w.array_header (array_size m.options)
      ++ (w.string m.tag ++ (entry_list_wire w m.entries ++ last_wire m.options))

  pub record IsForward (m : ForwardMessage Intf) : Type 0 where
    pub tag_short : IsShort m.tag
    pub entries_short : IsShort m.entries
    pub entries_plain : All (IsEntryExt w) m.entries
    pub tail : IsTail m.options
