-- ===== src/Protocol/Tail/Read.antt =====
-- Reading `Options *MessageOptions`.
use fluent_forward_go.Common.{ap, ◌∙◌, Bool, true, false, Option, none, some, [], ◌∷◌, append_assoc}
use fluent_forward_go.Msgp.Get.{
  done, Get, peek, fail, wrap, act, ◌>>=◌, zoom, wrap_outcome, put_back, Takes, Takes-peek,
  Takes-act,
}
use fluent_forward_go.Msgp.Format.{Kind, map_type, nil_type, Wire, Reads, HasKind, IsReader}
use fluent_forward_go.Msgp.Errors.{name, Error, wrapped}
use fluent_forward_go.Protocol.Tail.{tail_wire, IsTail}
use fluent_forward_go.Protocol.Options.{field_count, MessageOptions, empty, options_wire}
use fluent_forward_go.Protocol.Options.Read.{
  decode_msg, unmarshal_msg, decode_msg_lem, unmarshal_msg_lem, merged, merged-empty,
}

abbrev pub is_nil_type : Kind → Bool
is_nil_type nil_type = true
is_nil_type _ = false

-- The receiver behind the tail `o`: a nil leaves its options as they were.
abbrev pub with_tail :
    {R : Type 0} → (Option MessageOptions → R → R) → Option MessageOptions → R → R
with_tail put none r = r
with_tail put (some o) r = put (some o) r

module _ {R Intf : Type 0} (put : Option MessageOptions → R → R) (rd : Reads Intf) where
  -- `r.Options = &MessageOptions{}` and then a read into the new options.
  abbrev new_options : Get MessageOptions (Unit {0}) → Get R (Unit {0})
  new_options m = wrap (name "Options" ∷ []) (zoom (λ _. empty) (λ o r. put (some o) r) m)

  abbrev or_nil : Get R (Unit {0}) → Bool → Get R (Unit {0})
  or_nil m true = act rd.read_nil
  or_nil m false = m

  -- `DecodeMsg`: an error of `NextType` is returned.
  abbrev decode_kind : Kind × Option Error → Get R (Unit {0})
  decode_kind (t, some e) = fail (wrapped (name "Options" ∷ []) e)
  decode_kind (t, none) = or_nil (new_options (decode_msg rd)) (is_nil_type t)

  abbrev pub decode_tail : Get R (Unit {0})
  decode_tail = peek rd.next_type >>= decode_kind

  -- `DecodeMsg` of `PackedForwardMessage`: the error is dropped.
  abbrev decode_kind_any : Kind × Option Error → Get R (Unit {0})
  decode_kind_any (t, e) = or_nil (new_options (decode_msg rd)) (is_nil_type t)

  abbrev pub decode_tail_any : Get R (Unit {0})
  decode_tail_any = peek rd.next_type >>= decode_kind_any

  -- `UnmarshalMsg`: `msgp.NextType` on a slice has no error.
  abbrev unmarshal_kind : Kind × Option Error → Get R (Unit {0})
  unmarshal_kind (t, e) = or_nil (new_options (unmarshal_msg rd)) (is_nil_type t)

  abbrev pub unmarshal_tail : Get R (Unit {0})
  unmarshal_tail = peek rd.next_type >>= unmarshal_kind

  module _ (w : Wire Intf) (laws : IsReader w rd) where
    nil_lem : (r : R) (m : Get R (Unit {0})) → Takes (or_nil m true) w.nil r tt r
    nil_lem r m = Takes-act rd.read_nil w.nil r laws.nil

    new_options_lem :
        (m : Get MessageOptions (Unit {0})) (o : MessageOptions) (r : R)
        → Takes m (options_wire w o) empty tt (merged empty o)
        → Takes (new_options m) (options_wire w o) r tt (put (some o) r)
    new_options_lem m o r h rest =
        ap (λ out. wrap_outcome (name "Options" ∷ []) (put_back (λ o' r'. put (some o') r') r out))
          (h rest)
        ∙ ap (λ o'. done tt (put (some o') r) rest) (merged-empty o)

    starts : (o : MessageOptions) → HasKind rd (options_wire w o) map_type
    starts o rest =
        ap rd.next_type (append_assoc (w.map_header (field_count o)) _ rest)
        ∙ laws.kind-map (field_count o) _

    pub decode_tail_lem :
        (o : Option MessageOptions) (r : R)
        → IsTail o
        → Takes decode_tail (tail_wire w o) r tt (with_tail put o r)
    decode_tail_lem none r h =
        Takes-peek rd.next_type decode_kind w.nil laws.kind-nil
          (nil_lem r (new_options (decode_msg rd)))
    decode_tail_lem (some o) r h =
        Takes-peek rd.next_type decode_kind (options_wire w o) (starts o)
          (new_options_lem (decode_msg rd) o r (decode_msg_lem w rd laws o empty h))

    pub decode_tail_any_lem :
        (o : Option MessageOptions) (r : R)
        → IsTail o
        → Takes decode_tail_any (tail_wire w o) r tt (with_tail put o r)
    decode_tail_any_lem none r h =
        Takes-peek rd.next_type decode_kind_any w.nil laws.kind-nil
          (nil_lem r (new_options (decode_msg rd)))
    decode_tail_any_lem (some o) r h =
        Takes-peek rd.next_type decode_kind_any (options_wire w o) (starts o)
          (new_options_lem (decode_msg rd) o r (decode_msg_lem w rd laws o empty h))

    pub unmarshal_tail_lem :
        (o : Option MessageOptions) (r : R)
        → IsTail o
        → Takes unmarshal_tail (tail_wire w o) r tt (with_tail put o r)
    unmarshal_tail_lem none r h =
        Takes-peek rd.next_type unmarshal_kind w.nil laws.kind-nil
          (nil_lem r (new_options (unmarshal_msg rd)))
    unmarshal_tail_lem (some o) r h =
        Takes-peek rd.next_type unmarshal_kind (options_wire w o) (starts o)
          (new_options_lem (unmarshal_msg rd) o r (unmarshal_msg_lem w rd laws o empty h))
