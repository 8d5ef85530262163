-- ===== src/Protocol/Tail/Write.antt =====
-- Writing `Options *MessageOptions`: a nil where the pointer is nil.
use fluent_forward_go.Common.{ap, ◌∙◌, Option, none, some, [], ◌∷◌, ◌++◌, append_assoc, Bytes}
use fluent_forward_go.Msgp.Put.{
  Put, ◌>>◌, wrap, total, Writes, Appends, Emits, Emits-seq, Emits-wrap, Emits-eq,
}
use fluent_forward_go.Msgp.Format.{Wire, IsFormat, IsWriter, IsAppender}
use fluent_forward_go.Msgp.Errors.{name}
use fluent_forward_go.Protocol.Tail.{tail_wire, IsTail}
use fluent_forward_go.Protocol.Options.{MessageOptions}
use fluent_forward_go.Protocol.Options.Write.{
  encode_msg, marshal_msg, encode_msg_lem, marshal_msg_lem,
}

module _ {Intf : Type 0} where
  abbrev pub encode_tail : Writes Intf → Option MessageOptions → Put
  encode_tail wr none = wr.write_nil
  encode_tail wr (some o) = wrap (name "Options" ∷ []) (encode_msg wr o)

  abbrev pub marshal_tail : Appends Intf → Option MessageOptions → Put
  marshal_tail ap none = total ap.append_nil
  marshal_tail ap (some o) = wrap (name "Options" ∷ []) (marshal_msg ap o)

module _ {Intf : Type 0} (w : Wire Intf) (fmt : IsFormat w) where
  pub encode_tail_lem :
      (wr : Writes Intf)
      → IsWriter w wr
      → (o : Option MessageOptions) → IsTail o
      → Emits (encode_tail wr o) (tail_wire w o)
  encode_tail_lem wr laws none h = laws.nil
  encode_tail_lem wr laws (some o) h = Emits-wrap _ _ _ (encode_msg_lem w fmt wr laws o h)

  pub marshal_tail_lem :
      (ap : Appends Intf)
      → IsAppender w ap
      → (o : Option MessageOptions) → IsTail o
      → Emits (marshal_tail ap o) (tail_wire w o)
  marshal_tail_lem ap laws none h = laws.nil
  marshal_tail_lem ap laws (some o) h = Emits-wrap _ _ _ (marshal_msg_lem w fmt ap laws o h)

-- Four writes in a row, each with what it adds.
pub four :
    (p q r s : Put) (a b c d : Bytes)
    → Emits p a
    → Emits q b
    → Emits r c
    → Emits s d
    → Emits (p >> q >> r >> s) (a ++ (b ++ (c ++ d)))
four p q r s a b c d hp hq hr hs =
    Emits-eq (p >> q >> r >> s) (append_assoc (a ++ b) c d ∙ append_assoc a b (c ++ d)) (
      Emits-seq (p >> q >> r) s ((a ++ b) ++ c) d
        (Emits-seq (p >> q) r (a ++ b) c (Emits-seq p q a b hp hq) hr) hs)
