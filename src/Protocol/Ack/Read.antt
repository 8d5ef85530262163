-- ===== src/Protocol/Ack/Read.antt =====
-- `DecodeMsg` and `UnmarshalMsg` of `AckMessage`.
use fluent_forward_go.Common.{
  ℕ, zero, suc, sym, ap, [], ◌∷◌, ◌++◌, append_assoc, append-nil, arith, if◌then◌else◌, Bytes, same,
  codes,
}
use fluent_forward_go.Msgp.Get.{
  Get, read_into, read, nil_on_error, nil_outcome, act, pass, Takes, Takes-bind, Takes-read,
  Takes-wrap, Takes-eq, Takes-into, Takes-pass, ◌>>=◌, wrap,
}
use fluent_forward_go.Msgp.Errors.{name}
use fluent_forward_go.Msgp.Format.{Wire, Reads, IsShort, IsReader}
use fluent_forward_go.Protocol.Ack.{AckMessage, ack_wire}

module _ {Intf : Type 0} (rd : Reads Intf) where
  read_value : Get AckMessage (Unit {0})
  read_value = wrap (name "Ack" ∷ []) (read_into rd.read_string (λ s z. record z { ack = s }))

  read_ack_field : Bytes → Get AckMessage (Unit {0})
  unfolding same read_value
  read_ack_field key = if same key (codes "ack") then read_value else wrap [] (act rd.skip)

  -- `for zb0001 > 0 { zb0001--; … }`
  read_ack_fields : ℕ → Get AckMessage (Unit {0})
  read_ack_fields zero = pass
  read_ack_fields (suc n) =
      wrap [] (read rd.read_map_key) >>= λ key. (read_ack_field key >>= λ _. read_ack_fields n)

  unfoldable pub ack_decode_msg : Get AckMessage (Unit {0})
  unfolding read_ack_fields read_ack_field
  ack_decode_msg = wrap [] (read rd.read_map_header) >>= read_ack_fields

  unfoldable pub ack_unmarshal_msg : Get AckMessage (Unit {0})
  unfolding read_ack_fields read_ack_field
  ack_unmarshal_msg = nil_on_error (wrap [] (read rd.read_map_header) >>= read_ack_fields)

module _ {Intf : Type 0} (w : Wire Intf) (rd : Reads Intf) (laws : IsReader w rd) where
  value_lem :
      (m r : AckMessage)
      → IsShort m.ack
      → Takes
          (read_ack_field rd (codes "ack") >>= λ _. read_ack_fields rd 0)
          (w.string m.ack)
          r
          tt
          m
  unfolding read_ack_fields read_ack_field read_value same
  value_lem m r h =
      Takes-eq (read_ack_field rd (codes "ack") >>= λ _. read_ack_fields rd 0) {r = r}
        (append-nil (w.string m.ack))
        (Takes-bind (read_ack_field rd (codes "ack")) (λ _. read_ack_fields rd 0) (w.string m.ack)
          [] {r = r}
          (Takes-into _ rd.read_string (λ s z. record z { ack = s }) (w.string m.ack) r
            (laws.string m.ack h))
          (Takes-pass m))

  key_lem :
      (m r : AckMessage)
      → IsShort m.ack
      → Takes (read_ack_fields rd 1) (w.string (codes "ack") ++ w.string m.ack) r tt m
  unfolding read_ack_fields
  key_lem m r h =
      Takes-bind (wrap [] (read rd.read_map_key))
        (λ key. read_ack_field rd key >>= λ _. read_ack_fields rd 0) (w.string (codes "ack"))
        (w.string m.ack)
        (Takes-wrap [] (read rd.read_map_key) (w.string (codes "ack")) (
          Takes-read rd.read_map_key (w.string (codes "ack")) r
            (laws.map_key (codes "ack") (omega arith))))
        (value_lem m r h)

  pub ack_decode_msg_lem :
      (m r : AckMessage) → IsShort m.ack → Takes (ack_decode_msg rd) (ack_wire w m) r tt m
  unfolding ack_decode_msg
  ack_decode_msg_lem m r h =
      Takes-eq (ack_decode_msg rd)
        (sym (append_assoc (w.map_header 1) (w.string (codes "ack")) (w.string m.ack)))
        (Takes-bind (wrap [] (read rd.read_map_header)) (read_ack_fields rd) (w.map_header 1)
          (w.string (codes "ack") ++ w.string m.ack)
          (Takes-wrap [] (read rd.read_map_header) (w.map_header 1)
            (Takes-read rd.read_map_header (w.map_header 1) r (laws.map_header 1 (omega arith))))
          (key_lem m r h))

  pub ack_unmarshal_msg_lem :
      (m r : AckMessage) → IsShort m.ack → Takes (ack_unmarshal_msg rd) (ack_wire w m) r tt m
  unfolding ack_unmarshal_msg ack_decode_msg
  ack_unmarshal_msg_lem m r h rest = ap nil_outcome (ack_decode_msg_lem m r h rest)
