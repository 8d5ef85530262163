-- ===== src/Protocol/Tail.antt =====
-- The last element of a message, `Options *MessageOptions`: a nil or a map. The four messages write
-- and read it in the same way, but for the marks on errors.
pub mod Write
pub mod Read
use fluent_forward_go.Common.{Option, none, some, Bytes}
use fluent_forward_go.Msgp.Format.{Wire}
use fluent_forward_go.Protocol.Options.{MessageOptions, IsOptions, options_wire}

abbrev pub tail_wire : {Intf : Type 0} → Wire Intf → Option MessageOptions → Bytes
tail_wire w none = w.nil
tail_wire w (some o) = options_wire w o

abbrev pub IsTail : Option MessageOptions → Type 0
IsTail none = Unit {0}
IsTail (some o) = IsOptions o
