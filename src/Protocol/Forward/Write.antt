-- ===== src/Protocol/Forward/Write.antt =====
-- `EncodeMsg` and `MarshalMsg` of `ForwardMessage`.
use fluent_forward_go.Common.{◌^◌, ◌<◌, ap, Option, none, some, [], ◌∷◌, arith}
use fluent_forward_go.Msgp.Put.{
  Put, ◌>>◌, wrap, total, nothing, Writes, Appends, Emits, Emits-wrap, Emits-nothing,
}
use fluent_forward_go.Msgp.Format.{Wire, IsFormat, IsWriter, IsAppender}
use fluent_forward_go.Msgp.Errors.{name}
use fluent_forward_go.Protocol.Entries.{entry_list_wire}
use fluent_forward_go.Protocol.Entries.Write.{
  entry_list_encode_msg, entry_list_marshal_msg, entry_list_encode_msg_lem,
  entry_list_marshal_msg_lem,
}
use fluent_forward_go.Protocol.Options.{MessageOptions}
use fluent_forward_go.Protocol.Options.Write.{
  encode_msg, marshal_msg, encode_msg_lem, marshal_msg_lem,
}
use fluent_forward_go.Protocol.Tail.{IsTail}
use fluent_forward_go.Protocol.Tail.Write.{four}
use fluent_forward_go.Protocol.Forward.{
  ForwardMessage, array_size, last_wire, forward_wire, IsForward,
}

-- `if size == 3 { … }`
abbrev last_put : (MessageOptions → Put) → Option MessageOptions → Put
last_put p none = nothing
last_put p (some o) = p o

last_put_lem :
    {Intf : Type 0} (w : Wire Intf) (p : MessageOptions → Put) (o : Option MessageOptions)
    → ((z : MessageOptions) → IsTail (some z) → Emits (p z) (last_wire w (some z)))
    → IsTail o
    → Emits (last_put p o) (last_wire w o)
last_put_lem w p none h k = Emits-nothing
last_put_lem w p (some o) h k = h o k

array_size-lt : (o : Option MessageOptions) → array_size o < 2 ^ 32
array_size-lt none = omega arith
array_size-lt (some o) = omega arith

module _ {Intf : Type 0} where
  unfoldable pub forward_encode_msg : Writes Intf → ForwardMessage Intf → Put
  forward_encode_msg wr fm =
      wrap (name "Array Header" ∷ []) (wr.write_array_header (array_size fm.options))
      >> wrap (name "Tag" ∷ []) (wr.write_string fm.tag)
      >> entry_list_encode_msg wr fm.entries
      >> last_put (encode_msg wr) fm.options

  unfoldable pub forward_marshal_msg : Appends Intf → ForwardMessage Intf → Put
  forward_marshal_msg ap fm =
      total (ap.append_array_header (array_size fm.options))
      >> total (ap.append_string fm.tag)
      >> entry_list_marshal_msg ap fm.entries
      >> last_put (marshal_msg ap) fm.options

  module _ (w : Wire Intf) (fmt : IsFormat w) where
    -- `EncodeMsg` writes an array of the tag, the entries, and the options if there are any.
    pub forward_encode_msg_lem :
        (wr : Writes Intf)
        → IsWriter w wr
        → (m : ForwardMessage Intf) → IsForward w m
        → Emits (forward_encode_msg wr m) (forward_wire w m)
    unfolding forward_encode_msg
    forward_encode_msg_lem wr laws m h =
        four _ _ _ _ (w.array_header (array_size m.options)) (w.string m.tag)
          (entry_list_wire w m.entries) (last_wire w m.options)
          (Emits-wrap _ _ _ (laws.array_header (array_size m.options) (array_size-lt m.options)))
          (Emits-wrap _ _ _ (laws.string m.tag h.tag_short))
          (entry_list_encode_msg_lem w fmt wr laws m.entries h.entries_short h.entries_plain)
          (last_put_lem w (encode_msg wr) m.options (encode_msg_lem w fmt wr laws) h.tail)

    pub forward_marshal_msg_lem :
        (ap : Appends Intf)
        → IsAppender w ap
        → (m : ForwardMessage Intf) → IsForward w m
        → Emits (forward_marshal_msg ap m) (forward_wire w m)
    unfolding forward_marshal_msg
    forward_marshal_msg_lem ap laws m h =
        four _ _ _ _ (w.array_header (array_size m.options)) (w.string m.tag)
          (entry_list_wire w m.entries) (last_wire w m.options)
          (laws.array_header (array_size m.options) (array_size-lt m.options))
          (laws.string m.tag h.tag_short)
          (entry_list_marshal_msg_lem w fmt ap laws m.entries h.entries_short h.entries_plain)
          (last_put_lem w (marshal_msg ap) m.options (marshal_msg_lem w fmt ap laws) h.tail)
