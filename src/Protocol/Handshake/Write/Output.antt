-- ===== src/Protocol/Handshake/Write/Output.antt =====
-- What the writers of the handshake write.
use fluent_forward_go.Common.{
  ℕ, ◌+◌, ◌≡◌, refl, sym, Option, none, some, List, [], ◌∷◌, ◌++◌, append_assoc, arith, codes, ◌<◌,
}
use fluent_forward_go.Msgp.Errors.{Context, name}
use fluent_forward_go.Msgp.Put.{
  Put, ◌>>◌, Writes, Appends, Emits, Emits-seq, Emits-wrap, Emits-literal, Emits-eq,
}
use fluent_forward_go.Msgp.Format.{Wire, IsFormat, IsWriter, IsAppender}
use fluent_forward_go.Protocol.Handshake.{HeloOpts, Helo, Ping, Pong}
use fluent_forward_go.Protocol.Handshake.Wire.{
  helo_opts_wire, opts_or_nil, helo_wire, ping_wire, pong_wire, IsHeloOpts, AreOpts, IsHelo, IsPing,
  IsPong,
}
use fluent_forward_go.Protocol.Handshake.Write.{
  key_nonce, key_auth, key_keepalive, encode_opts, encode_opts_or_nil, marshal_opts_or_nil,
  helo_opts_encode_msg, helo_opts_marshal_msg, helo_encode_msg, helo_marshal_msg, ping_encode_msg,
  ping_marshal_msg, pong_encode_msg, pong_marshal_msg,
}

module _ {Intf : Type 0} (w : Wire Intf) (fmt : IsFormat w) where
  key_nonce_lem : key_nonce ≡ w.map_header 3 ++ w.string (codes "nonce")
  key_nonce_lem =
      sym (rw (fmt.fix_map 3 (omega arith), fmt.fix_string (codes "nonce") (omega arith)) refl)

  -- Writers of the parts, one behind the other.
  opts_Emits :
      (z : HeloOpts) (p q r s t u : Put)
      → Emits p key_nonce
      → Emits q (w.bytes z.nonce)
      → Emits r key_auth
      → Emits s (w.bytes z.auth)
      → Emits t key_keepalive
      → Emits u (w.bool z.keepalive)
      → Emits (p >> (q >> (r >> (s >> (t >> u))))) (helo_opts_wire w z)
  opts_Emits z p q r s t u hp hq hr hs ht hu =
      Emits-eq _ (append_assoc (w.map_header 3) (w.string (codes "nonce")) _) (
        Emits-seq _ _ _ _ (Emits-eq p key_nonce_lem hp) (
          Emits-seq _ _ _ _ hq (
            Emits-seq _ _ _ _ (Emits-eq r (sym (fmt.fix_string (codes "auth") (omega arith))) hr) (
              Emits-seq _ _ _ _ hs (
                Emits-seq _ _ _ _
                  (Emits-eq t (sym (fmt.fix_string (codes "keepalive") (omega arith))) ht) hu)))))

  array_Emits : (n : ℕ) (p : Put) → n < 16 → Emits p ((0x90 + n) ∷ []) → Emits p (w.array_header n)
  array_Emits n p h k = Emits-eq p (sym (fmt.fix_array n h)) k

  module _ (wr : Writes Intf) (laws : IsWriter w wr) where
    encode_opts_lem :
        (at : List Context) (z : HeloOpts)
        → IsHeloOpts z
        → Emits (encode_opts wr at z) (helo_opts_wire w z)
    encode_opts_lem at z h =
        opts_Emits z _ _ _ _ _ _ (laws.append key_nonce)
          (Emits-wrap _ _ _ (laws.bytes z.nonce h.nonce_short)) (laws.append key_auth)
          (Emits-wrap _ _ _ (laws.bytes z.auth h.auth_short)) (laws.append key_keepalive)
          (Emits-wrap _ _ _ (laws.bool z.keepalive))

    pub helo_opts_encode_msg_lem :
        (z : HeloOpts) → IsHeloOpts z → Emits (helo_opts_encode_msg wr z) (helo_opts_wire w z)
    unfolding helo_opts_encode_msg
    helo_opts_encode_msg_lem z h = encode_opts_lem [] z h

    encode_opts_or_nil_lem :
        (o : Option HeloOpts) → AreOpts o → Emits (encode_opts_or_nil wr o) (opts_or_nil w o)
    encode_opts_or_nil_lem none h = laws.nil
    encode_opts_or_nil_lem (some o) h = encode_opts_lem (name "Options" ∷ []) o h

    pub helo_encode_msg_lem : (z : Helo) → IsHelo z → Emits (helo_encode_msg wr z) (helo_wire w z)
    unfolding helo_encode_msg
    helo_encode_msg_lem z h =
        Emits-seq _ _ _ _ (array_Emits 2 _ (omega arith) (laws.append (0x92 ∷ []))) (
          Emits-seq _ _ _ _ (Emits-wrap _ _ _ (laws.string z.message_type h.type_short))
            (encode_opts_or_nil_lem z.options h.opts))

    pub ping_encode_msg_lem : (z : Ping) → IsPing z → Emits (ping_encode_msg wr z) (ping_wire w z)
    unfolding ping_encode_msg
    ping_encode_msg_lem z h =
        Emits-seq _ _ _ _ (array_Emits 6 _ (omega arith) (laws.append (0x96 ∷ []))) (
          Emits-seq _ _ _ _ (Emits-wrap _ _ _ (laws.string z.message_type h.type_short)) (
            Emits-seq _ _ _ _ (Emits-wrap _ _ _ (laws.string z.client_hostname h.hostname_short)) (
              Emits-seq _ _ _ _ (Emits-wrap _ _ _ (laws.bytes z.shared_key_salt h.salt_short)) (
                Emits-seq _ _ _ _
                  (Emits-wrap _ _ _ (laws.string z.shared_key_hex_digest h.digest_short))
                  (Emits-seq _ _ _ _ (Emits-wrap _ _ _ (laws.string z.username h.username_short))
                    (Emits-wrap _ _ _ (laws.string z.password h.password_short)))))))

    pub pong_encode_msg_lem : (z : Pong) → IsPong z → Emits (pong_encode_msg wr z) (pong_wire w z)
    unfolding pong_encode_msg
    pong_encode_msg_lem z h =
        Emits-seq _ _ _ _ (array_Emits 5 _ (omega arith) (laws.append (0x95 ∷ []))) (
          Emits-seq _ _ _ _ (Emits-wrap _ _ _ (laws.string z.message_type h.type_short)) (
            Emits-seq _ _ _ _ (Emits-wrap _ _ _ (laws.bool z.auth_result)) (
              Emits-seq _ _ _ _ (Emits-wrap _ _ _ (laws.string z.reason h.reason_short)) (
                Emits-seq _ _ _ _
                  (Emits-wrap _ _ _ (laws.string z.server_hostname h.hostname_short))
                  (Emits-wrap _ _ _ (laws.string z.shared_key_hex_digest h.digest_short))))))

  module _ (ap : Appends Intf) (laws : IsAppender w ap) where
    pub helo_opts_marshal_msg_lem :
        (z : HeloOpts) → IsHeloOpts z → Emits (helo_opts_marshal_msg ap z) (helo_opts_wire w z)
    unfolding helo_opts_marshal_msg
    helo_opts_marshal_msg_lem z h =
        opts_Emits z _ _ _ _ _ _ (Emits-literal key_nonce) (laws.bytes z.nonce h.nonce_short)
          (Emits-literal key_auth) (laws.bytes z.auth h.auth_short) (Emits-literal key_keepalive)
          (laws.bool z.keepalive)

    marshal_opts_or_nil_lem :
        (o : Option HeloOpts) → AreOpts o → Emits (marshal_opts_or_nil ap o) (opts_or_nil w o)
    marshal_opts_or_nil_lem none h = laws.nil
    marshal_opts_or_nil_lem (some o) h = helo_opts_marshal_msg_lem o h

    pub helo_marshal_msg_lem : (z : Helo) → IsHelo z → Emits (helo_marshal_msg ap z) (helo_wire w z)
    unfolding helo_marshal_msg
    helo_marshal_msg_lem z h =
        Emits-seq _ _ _ _ (array_Emits 2 _ (omega arith) (Emits-literal (0x92 ∷ []))) (
          Emits-seq _ _ _ _ (laws.string z.message_type h.type_short)
            (marshal_opts_or_nil_lem z.options h.opts))

    pub ping_marshal_msg_lem : (z : Ping) → IsPing z → Emits (ping_marshal_msg ap z) (ping_wire w z)
    unfolding ping_marshal_msg
    ping_marshal_msg_lem z h =
        Emits-seq _ _ _ _ (array_Emits 6 _ (omega arith) (Emits-literal (0x96 ∷ []))) (
          Emits-seq _ _ _ _ (laws.string z.message_type h.type_short) (
            Emits-seq _ _ _ _ (laws.string z.client_hostname h.hostname_short) (
              Emits-seq _ _ _ _ (laws.bytes z.shared_key_salt h.salt_short) (
                Emits-seq _ _ _ _ (laws.string z.shared_key_hex_digest h.digest_short) (
                  Emits-seq _ _ _ _ (laws.string z.username h.username_short)
                    (laws.string z.password h.password_short))))))

    pub pong_marshal_msg_lem : (z : Pong) → IsPong z → Emits (pong_marshal_msg ap z) (pong_wire w z)
    unfolding pong_marshal_msg
    pong_marshal_msg_lem z h =
        Emits-seq _ _ _ _ (array_Emits 5 _ (omega arith) (Emits-literal (0x95 ∷ []))) (
          Emits-seq _ _ _ _ (laws.string z.message_type h.type_short) (
            Emits-seq _ _ _ _ (laws.bool z.auth_result) (
              Emits-seq _ _ _ _ (laws.string z.reason h.reason_short) (
                Emits-seq _ _ _ _ (laws.string z.server_hostname h.hostname_short)
                  (laws.string z.shared_key_hex_digest h.digest_short)))))
