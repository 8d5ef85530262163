-- ===== src/Protocol/Handshake/Write.antt =====
-- `EncodeMsg` and `MarshalMsg` of the messages of the handshake, in handshake_gen.go.
pub mod Output
use fluent_forward_go.Common.{
  ℕ, ◌+◌, ◌≡◌, refl, sym, ap, Option, none, some, List, [], ◌∷◌, ◌++◌, arith, Bytes, codes, length,
  String,
}
use fluent_forward_go.Msgp.Errors.{Context, name}
use fluent_forward_go.Msgp.Put.{
  Put, ◌>>◌, total, literal, wrap, Writes, Appends, Emits, Emits-seq, Emits-wrap, Emits-literal,
  Emits-eq,
}
use fluent_forward_go.Msgp.Format.{Wire, IsShort, IsFormat, IsWriter, IsAppender}
use fluent_forward_go.Protocol.Handshake.{HeloOpts, Helo, Ping, Pong}
use fluent_forward_go.Protocol.Handshake.Wire.{
  helo_opts_wire, opts_or_nil, helo_wire, ping_wire, pong_wire, IsHeloOpts, AreOpts, IsHelo, IsPing,
  IsPong,
}

-- The keys, as generated code writes them; that of the nonce has the header of the map before it.
abbrev key_nonce : Bytes
key_nonce = 0x83 ∷ 0xa5 ∷ 0x6e ∷ 0x6f ∷ 0x6e ∷ 0x63 ∷ 0x65 ∷ []

abbrev key_auth : Bytes
key_auth = 0xa4 ∷ 0x61 ∷ 0x75 ∷ 0x74 ∷ 0x68 ∷ []

abbrev key_keepalive : Bytes
key_keepalive = 0xa9 ∷ 0x6b ∷ 0x65 ∷ 0x65 ∷ 0x70 ∷ 0x61 ∷ 0x6c ∷ 0x69 ∷ 0x76 ∷ 0x65 ∷ []

module _ {Intf : Type 0} (wr : Writes Intf) where
  abbrev encode_string : String → Bytes → Put
  encode_string field s = wrap (name field ∷ []) (wr.write_string s)

  -- `at` is the context of its errors.
  abbrev encode_opts : List Context → HeloOpts → Put
  encode_opts at z =
      wr.append key_nonce
      >> (wrap (at ++ (name "Nonce" ∷ [])) (wr.write_bytes z.nonce)
          >> (wr.append key_auth
              >> (wrap (at ++ (name "Auth" ∷ [])) (wr.write_bytes z.auth)
                  >> (wr.append key_keepalive
                      >> wrap (at ++ (name "Keepalive" ∷ [])) (wr.write_bool z.keepalive)))))

  unfoldable pub helo_opts_encode_msg : HeloOpts → Put
  helo_opts_encode_msg z = encode_opts [] z

  abbrev encode_opts_or_nil : Option HeloOpts → Put
  encode_opts_or_nil none = wr.write_nil
  encode_opts_or_nil (some o) = encode_opts (name "Options" ∷ []) o

  unfoldable pub helo_encode_msg : Helo → Put
  helo_encode_msg z =
      wr.append (0x92 ∷ [])
      >> (encode_string "MessageType" z.message_type >> encode_opts_or_nil z.options)

  unfoldable pub ping_encode_msg : Ping → Put
  ping_encode_msg z =
      wr.append (0x96 ∷ [])
      >> (encode_string "MessageType" z.message_type
          >> (encode_string "ClientHostname" z.client_hostname
              >> (wrap (name "SharedKeySalt" ∷ []) (wr.write_bytes z.shared_key_salt)
                  >> (encode_string "SharedKeyHexDigest" z.shared_key_hex_digest
                      >> (encode_string "Username" z.username
                          >> encode_string "Password" z.password)))))

  unfoldable pub pong_encode_msg : Pong → Put
  pong_encode_msg z =
      wr.append (0x95 ∷ [])
      >> (encode_string "MessageType" z.message_type
          >> (wrap (name "AuthResult" ∷ []) (wr.write_bool z.auth_result)
              >> (encode_string "Reason" z.reason
                  >> (encode_string "ServerHostname" z.server_hostname
                      >> encode_string "SharedKeyHexDigest" z.shared_key_hex_digest))))

module _ {Intf : Type 0} (ap : Appends Intf) where
  unfoldable pub helo_opts_marshal_msg : HeloOpts → Put
  helo_opts_marshal_msg z =
      literal key_nonce
      >> (total (ap.append_bytes z.nonce)
          >> (literal key_auth
              >> (total (ap.append_bytes z.auth)
                  >> (literal key_keepalive >> total (ap.append_bool z.keepalive)))))

  -- `MarshalMsg` of `Helo` holds the same code as that of `HeloOpts`.
  abbrev marshal_opts_or_nil : Option HeloOpts → Put
  marshal_opts_or_nil none = total ap.append_nil
  marshal_opts_or_nil (some o) = helo_opts_marshal_msg o

  unfoldable pub helo_marshal_msg : Helo → Put
  unfolding helo_opts_marshal_msg
  helo_marshal_msg z =
      literal (0x92 ∷ [])
      >> (total (ap.append_string z.message_type) >> marshal_opts_or_nil z.options)

  unfoldable pub ping_marshal_msg : Ping → Put
  ping_marshal_msg z =
      literal (0x96 ∷ [])
      >> (total (ap.append_string z.message_type)
          >> (total (ap.append_string z.client_hostname)
              >> (total (ap.append_bytes z.shared_key_salt)
                  >> (total (ap.append_string z.shared_key_hex_digest)
                      >> (total (ap.append_string z.username)
                          >> total (ap.append_string z.password))))))

  unfoldable pub pong_marshal_msg : Pong → Put
  pong_marshal_msg z =
      literal (0x95 ∷ [])
      >> (total (ap.append_string z.message_type)
          >> (total (ap.append_bool z.auth_result)
              >> (total (ap.append_string z.reason)
                  >> (total (ap.append_string z.server_hostname)
                      >> total (ap.append_string z.shared_key_hex_digest)))))
