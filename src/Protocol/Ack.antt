-- ===== src/Protocol/Ack.antt =====
-- `AckMessage` of fluent/protocol/transport.go, and its methods in transport_gen.go: the answer of a
-- server to a chunk.
pub mod Read
use fluent_forward_go.Common.{
  ℕ, ◌+◌, ◌≡◌, refl, sym, ap, [], ◌∷◌, ◌++◌, arith, Bytes, codes, length,
}
use fluent_forward_go.Msgp.Put.{
  Put, ◌>>◌, total, literal, wrap, Writes, Appends, Emits, Emits-seq, Emits-wrap, Emits-literal,
  Emits-eq,
}
use fluent_forward_go.Msgp.Errors.{name}
use fluent_forward_go.Msgp.Format.{Wire, IsShort, IsFormat, IsWriter, IsAppender}

pub record AckMessage : Type 0 where
  pub ack : Bytes

-- A map of one field, and its key.
abbrev key_ack : Bytes
key_ack = 0x81 ∷ 0xa3 ∷ 0x61 ∷ 0x63 ∷ 0x6b ∷ []

-- `Msgsize`, with the package's size of a string's header.
unfoldable pub ack_msgsize : ℕ → AckMessage → ℕ
ack_msgsize string_prefix_size z = 1 + 4 + string_prefix_size + length z.ack

module _ {Intf : Type 0} where
  unfoldable pub ack_encode_msg : Writes Intf → AckMessage → Put
  ack_encode_msg wr z = wr.append key_ack >> wrap (name "Ack" ∷ []) (wr.write_string z.ack)

  unfoldable pub ack_marshal_msg : Appends Intf → AckMessage → Put
  ack_marshal_msg ap z = literal key_ack >> total (ap.append_string z.ack)

module _ {Intf : Type 0} (w : Wire Intf) where
  abbrev pub ack_wire : AckMessage → Bytes
  ack_wire m = (w.map_header 1 ++ w.string (codes "ack")) ++ w.string m.ack

  module _ (fmt : IsFormat w) where
    key_ack_lem : key_ack ≡ w.map_header 1 ++ w.string (codes "ack")
    key_ack_lem =
        sym (rw (fmt.fix_map 1 (omega arith), fmt.fix_string (codes "ack") (omega arith)) refl)

    pub ack_encode_msg_lem :
        (wr : Writes Intf)
        → IsWriter w wr
        → (m : AckMessage) → IsShort m.ack
        → Emits (ack_encode_msg wr m) (ack_wire m)
    unfolding ack_encode_msg
    ack_encode_msg_lem wr laws m h =
        Emits-seq _ _ _ _ (Emits-eq _ key_ack_lem (laws.append key_ack))
          (Emits-wrap _ _ _ (laws.string m.ack h))

    pub ack_marshal_msg_lem :
        (ap : Appends Intf)
        → IsAppender w ap
        → (m : AckMessage) → IsShort m.ack
        → Emits (ack_marshal_msg ap m) (ack_wire m)
    unfolding ack_marshal_msg
    ack_marshal_msg_lem ap laws m h =
        Emits-seq _ _ _ _ (Emits-eq _ key_ack_lem (Emits-literal key_ack)) (laws.string m.ack h)
