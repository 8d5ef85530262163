-- ===== src/Protocol/Handshake/Read/Input.antt =====
-- The readers of HELO and its options on what their writers wrote.
use fluent_forward_go.Common.{
  ℕ, ◌^◌, ◌<◌, ◌≡◌, ap, ◌∙◌, Bool, true, false, String, Option, none, some, List, [], ◌∷◌, ◌++◌,
  append_assoc, append-nil, arith, Bytes, same, codes,
}
use fluent_forward_go.Msgp.Errors.{Context, name}
use fluent_forward_go.Msgp.Get.{
  Get, Read, read, peek, wrap, nil_outcome, act, update, ◌>>=◌, ◌>>◌, Takes, Takes-bind, Takes-then,
  Takes-peek, Takes-read, Takes-wrap, Takes-eq, Takes-into, Takes-act, Takes-update, Takes-zoom,
}
use fluent_forward_go.Msgp.Format.{Wire, Reads, IsShort, IsReader}
use fluent_forward_go.Msgp.Fields.{one_field, last_field, map_lem}
use fluent_forward_go.Protocol.Handshake.{HeloOpts, Helo}
use fluent_forward_go.Protocol.Handshake.Wire.{
  helo_opts_wire, opts_or_nil, helo_wire, IsHeloOpts, AreOpts, IsHelo,
}
use fluent_forward_go.Protocol.Handshake.Read.{
  put_nonce, put_auth, put_keepalive, opts_of, put_opts, field_of, read_opts_field, read_opts,
  opts_if, helo_fields, helo_opts_decode_msg, helo_opts_unmarshal_msg, helo_decode_msg,
  helo_unmarshal_msg,
}

module _ {Intf : Type 0} (w : Wire Intf) (rd : Reads Intf) (laws : IsReader w rd) where
  -- An array header, and the fields behind it.
  pub array_lem :
      {R : Type 0} (n : ℕ) (fields : ℕ → Get R (Unit {0})) (bs : Bytes) (r s : R)
      → n < 2 ^ 32
      → Takes (fields n) bs r tt s
      → Takes (wrap [] (read rd.read_array_header) >>= fields) (w.array_header n ++ bs) r tt s
  array_lem n fields bs r s few h =
      Takes-bind (wrap [] (read rd.read_array_header)) fields (w.array_header n) bs
        (Takes-wrap [] (read rd.read_array_header) (w.array_header n)
          (Takes-read rd.read_array_header (w.array_header n) r (laws.array_header n few)))
        h

  -- A field, and those behind it.
  module _ {R A : Type 0} where
    pub field_then :
        (field : String) (f : Read A) (put : A → R → R) (k : Get R (Unit {0})) (bs cs : Bytes)
        (a : A) (r s : R)
        → ((rest : Bytes) → f (bs ++ rest) ≡ (a, rest, none))
        → Takes k cs (put a r) tt s
        → Takes (field_of rd field f put >> k) (bs ++ cs) r tt s
    field_then field f put k bs cs a r s h hk =
        Takes-then (field_of rd field f put) k bs cs (Takes-into (name field ∷ []) f put bs r h) hk

  module _ (at : List Context) where
    nonce_lem :
        (s : Bytes) (r : HeloOpts)
        → IsShort s
        → Takes (read_opts_field rd at (codes "nonce")) (w.bytes s) r tt (put_nonce s r)
    unfolding read_opts_field same
    nonce_lem s r h = Takes-into _ rd.read_bytes put_nonce (w.bytes s) r (laws.bytes s h)

    auth_lem :
        (s : Bytes) (r : HeloOpts)
        → IsShort s
        → Takes (read_opts_field rd at (codes "auth")) (w.bytes s) r tt (put_auth s r)
    unfolding read_opts_field same
    auth_lem s r h = Takes-into _ rd.read_bytes put_auth (w.bytes s) r (laws.bytes s h)

    keepalive_lem :
        (b : Bool) (r : HeloOpts)
        → Takes (read_opts_field rd at (codes "keepalive")) (w.bool b) r tt (put_keepalive b r)
    unfolding read_opts_field same
    keepalive_lem b r = Takes-into _ rd.read_bool put_keepalive (w.bool b) r (laws.bool b)

    read_opts_lem :
        (z r : HeloOpts) → IsHeloOpts z → Takes (read_opts rd at) (helo_opts_wire w z) r tt z
    read_opts_lem z r h = map_lem w rd laws at (read_opts_field rd at) 3 _ r z (omega arith) (
        one_field w rd laws at (read_opts_field rd at) (codes "nonce") (w.bytes z.nonce) _ 2 r
          (put_nonce z.nonce r) z (omega arith) (nonce_lem z.nonce r h.nonce_short)
          (one_field w rd laws at (read_opts_field rd at) (codes "auth") (w.bytes z.auth) _ 1
            (put_nonce z.nonce r) (put_auth z.auth (put_nonce z.nonce r)) z (omega arith)
            (auth_lem z.auth (put_nonce z.nonce r) h.auth_short)
            (last_field w rd laws at (read_opts_field rd at) (codes "keepalive")
              (w.bool z.keepalive) (put_auth z.auth (put_nonce z.nonce r)) z (omega arith)
              (keepalive_lem z.keepalive (put_auth z.auth (put_nonce z.nonce r))))))

  pub helo_opts_decode_msg_lem :
      (z r : HeloOpts) → IsHeloOpts z → Takes (helo_opts_decode_msg rd) (helo_opts_wire w z) r tt z
  unfolding helo_opts_decode_msg
  helo_opts_decode_msg_lem z r h = read_opts_lem [] z r h

  pub helo_opts_unmarshal_msg_lem :
      (z r : HeloOpts)
      → IsHeloOpts z
      → Takes (helo_opts_unmarshal_msg rd) (helo_opts_wire w z) r tt z
  unfolding helo_opts_unmarshal_msg
  helo_opts_unmarshal_msg_lem z r h rest = ap nil_outcome (read_opts_lem [] z r h rest)

  module _ (read_nil : Get Helo (Unit {0}))
      (nil_lem : (r : Helo) → Takes read_nil w.nil r tt r) where
    opts_lem :
        (o : Option HeloOpts) (r : Helo)
        → AreOpts o
        → Takes (peek rd.is_nil >>= opts_if rd read_nil) (opts_or_nil w o) r tt (put_opts o r)
    opts_lem none r h = Takes-peek rd.is_nil (opts_if rd read_nil) w.nil laws.is_nil-nil (
        Takes-eq (opts_if rd read_nil true) (append-nil w.nil) (
          Takes-then read_nil (update (put_opts none)) w.nil [] (nil_lem r)
            (Takes-update (put_opts none) r)))
    opts_lem (some o) r h =
        Takes-peek rd.is_nil (opts_if rd read_nil) (helo_opts_wire w o) not_nil (
          Takes-zoom (λ z. opts_of z.options) (λ o. put_opts (some o))
            (read_opts rd (name "Options" ∷ [])) (helo_opts_wire w o) r
            (read_opts_lem (name "Options" ∷ []) o (opts_of r.options) h))
      where
        not_nil : (rest : Bytes) → rd.is_nil (helo_opts_wire w o ++ rest) ≡ false
        not_nil rest = ap rd.is_nil (append_assoc (w.map_header 3) _ rest) ∙ laws.is_nil-map 3 _

    helo_lem :
        (z r : Helo)
        → IsHelo z
        → Takes
            (wrap [] (read rd.read_array_header) >>= helo_fields rd read_nil)
            (helo_wire w z)
            r
            tt
            z
    helo_lem z r h = array_lem 2 (helo_fields rd read_nil) _ r z (omega arith) (
        field_then "MessageType" rd.read_string (λ s z. record z { message_type = s }) _
          (w.string z.message_type) (opts_or_nil w z.options) z.message_type r z
          (laws.string z.message_type h.type_short)
          (opts_lem z.options (record r { message_type = z.message_type }) h.opts))

  pub helo_decode_msg_lem :
      (z r : Helo) → IsHelo z → Takes (helo_decode_msg rd) (helo_wire w z) r tt z
  unfolding helo_decode_msg
  helo_decode_msg_lem z r h =
      helo_lem (wrap (name "Options" ∷ []) (act rd.read_nil))
        (λ r'. Takes-wrap _ (act rd.read_nil) w.nil (Takes-act rd.read_nil w.nil r' laws.nil)) z r h

  pub helo_unmarshal_msg_lem :
      (z r : Helo) → IsHelo z → Takes (helo_unmarshal_msg rd) (helo_wire w z) r tt z
  unfolding helo_unmarshal_msg
  helo_unmarshal_msg_lem z r h rest =
      ap nil_outcome
        (helo_lem (act rd.read_nil) (λ r'. Takes-act rd.read_nil w.nil r' laws.nil) z r h rest)
