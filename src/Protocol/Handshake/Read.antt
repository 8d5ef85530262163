-- ===== src/Protocol/Handshake/Read.antt =====
-- `DecodeMsg` and `UnmarshalMsg` of the messages of the handshake, in handshake_gen.go.
pub mod Input
pub mod Exchange
use fluent_forward_go.Common.{
  ℕ, Bool, true, false, String, Option, none, some, List, [], ◌∷◌, ◌++◌, arith, if◌then◌else◌,
  Bytes, same, codes,
}
use fluent_forward_go.Msgp.Errors.{Context, name}
use fluent_forward_go.Msgp.Get.{
  Get, Read, read_into, read, peek, wrap, nil_on_error, act, update, zoom, ◌>>=◌, ◌>>◌,
}
use fluent_forward_go.Msgp.Format.{Reads}
use fluent_forward_go.Msgp.Fields.{read_map, read_fields}
use fluent_forward_go.Protocol.Entries.Read.{check_array}
use fluent_forward_go.Protocol.Handshake.{HeloOpts, Helo, Ping, Pong}

abbrev pub put_nonce : Bytes → HeloOpts → HeloOpts
put_nonce s z = record z { nonce = s }

abbrev pub put_auth : Bytes → HeloOpts → HeloOpts
put_auth s z = record z { auth = s }

abbrev pub put_keepalive : Bool → HeloOpts → HeloOpts
put_keepalive b z = record z { keepalive = b }

-- `new(HeloOpts)` where the pointer is nil.
abbrev pub opts_of : Option HeloOpts → HeloOpts
opts_of none = record { nonce = []; auth = []; keepalive = false }
opts_of (some o) = o

abbrev pub put_opts : Option HeloOpts → Helo → Helo
put_opts o z = record z { options = o }

abbrev pub ping_put_message_type : Bytes → Ping → Ping
ping_put_message_type x z = record z { message_type = x }

abbrev pub ping_put_client_hostname : Bytes → Ping → Ping
ping_put_client_hostname x z = record z { client_hostname = x }

abbrev pub ping_put_shared_key_salt : Bytes → Ping → Ping
ping_put_shared_key_salt x z = record z { shared_key_salt = x }

abbrev pub ping_put_shared_key_hex_digest : Bytes → Ping → Ping
ping_put_shared_key_hex_digest x z = record z { shared_key_hex_digest = x }

abbrev pub ping_put_username : Bytes → Ping → Ping
ping_put_username x z = record z { username = x }

abbrev pub ping_put_password : Bytes → Ping → Ping
ping_put_password x z = record z { password = x }

abbrev pub pong_put_message_type : Bytes → Pong → Pong
pong_put_message_type x z = record z { message_type = x }

abbrev pub pong_put_auth_result : Bool → Pong → Pong
pong_put_auth_result x z = record z { auth_result = x }

abbrev pub pong_put_reason : Bytes → Pong → Pong
pong_put_reason x z = record z { reason = x }

abbrev pub pong_put_server_hostname : Bytes → Pong → Pong
pong_put_server_hostname x z = record z { server_hostname = x }

abbrev pub pong_put_shared_key_hex_digest : Bytes → Pong → Pong
pong_put_shared_key_hex_digest x z = record z { shared_key_hex_digest = x }

module _ {Intf : Type 0} (rd : Reads Intf) where
  -- A field that is read, with its name in its errors.
  abbrev pub field_of : {R A : Type 0} → String → Read A → (A → R → R) → Get R (Unit {0})
  field_of field r put = wrap (name field ∷ []) (read_into r put)

  pub read_opts_field : List Context → Bytes → Get HeloOpts (Unit {0})
  unfolding same
  read_opts_field at key =
      if same key (codes "nonce")
      then wrap (at ++ (name "Nonce" ∷ [])) (read_into rd.read_bytes put_nonce)
      else if same key (codes "auth")
      then wrap (at ++ (name "Auth" ∷ [])) (read_into rd.read_bytes put_auth)
      else if same key (codes "keepalive")
      then wrap (at ++ (name "Keepalive" ∷ [])) (read_into rd.read_bool put_keepalive)
      else wrap at (act rd.skip)

  abbrev pub read_opts : List Context → Get HeloOpts (Unit {0})
  read_opts at = read_map rd at (read_opts_field at)

  unfoldable pub helo_opts_decode_msg : Get HeloOpts (Unit {0})
  unfolding read_opts_field read_fields
  helo_opts_decode_msg = read_opts []

  unfoldable pub helo_opts_unmarshal_msg : Get HeloOpts (Unit {0})
  unfolding read_opts_field read_fields
  helo_opts_unmarshal_msg = nil_on_error (read_opts [])

  -- `if dc.IsNil() { … z.Options = nil } else { … }`; the two methods differ in the errors of `read_nil`.
  abbrev pub opts_if : Get Helo (Unit {0}) → Bool → Get Helo (Unit {0})
  opts_if read_nil true = read_nil >> update (put_opts none)
  opts_if read_nil false =
      zoom (λ z. opts_of z.options) (λ o. put_opts (some o)) (read_opts (name "Options" ∷ []))

  abbrev pub helo_fields : Get Helo (Unit {0}) → ℕ → Get Helo (Unit {0})
  helo_fields read_nil n =
      check_array 2 n
      >> (field_of "MessageType" rd.read_string (λ s z. record z { message_type = s })
          >> (peek rd.is_nil >>= opts_if read_nil))

  unfoldable pub helo_decode_msg : Get Helo (Unit {0})
  unfolding read_opts_field read_fields
  helo_decode_msg =
      wrap [] (read rd.read_array_header)
      >>= helo_fields (wrap (name "Options" ∷ []) (act rd.read_nil))

  unfoldable pub helo_unmarshal_msg : Get Helo (Unit {0})
  unfolding read_opts_field read_fields
  helo_unmarshal_msg =
      nil_on_error (wrap [] (read rd.read_array_header) >>= helo_fields (act rd.read_nil))

  -- `Ping`, from its last field backwards.
  abbrev pub ping_from_password : Get Ping (Unit {0})
  ping_from_password = field_of "Password" rd.read_string ping_put_password

  abbrev pub ping_from_username : Get Ping (Unit {0})
  ping_from_username = field_of "Username" rd.read_string ping_put_username >> ping_from_password

  abbrev pub ping_from_shared_key_hex_digest : Get Ping (Unit {0})
  ping_from_shared_key_hex_digest =
      field_of "SharedKeyHexDigest" rd.read_string ping_put_shared_key_hex_digest
      >> ping_from_username

  abbrev pub ping_from_shared_key_salt : Get Ping (Unit {0})
  ping_from_shared_key_salt =
      field_of "SharedKeySalt" rd.read_bytes ping_put_shared_key_salt
      >> ping_from_shared_key_hex_digest

  abbrev pub ping_from_client_hostname : Get Ping (Unit {0})
  ping_from_client_hostname =
      field_of "ClientHostname" rd.read_string ping_put_client_hostname >> ping_from_shared_key_salt

  abbrev pub ping_from_message_type : Get Ping (Unit {0})
  ping_from_message_type =
      field_of "MessageType" rd.read_string ping_put_message_type >> ping_from_client_hostname

  abbrev pub ping_fields : ℕ → Get Ping (Unit {0})
  ping_fields n = check_array 6 n >> ping_from_message_type

  unfoldable pub ping_decode_msg : Get Ping (Unit {0})
  ping_decode_msg = wrap [] (read rd.read_array_header) >>= ping_fields

  unfoldable pub ping_unmarshal_msg : Get Ping (Unit {0})
  ping_unmarshal_msg = nil_on_error (wrap [] (read rd.read_array_header) >>= ping_fields)

  -- `Pong`, from its last field backwards.
  abbrev pub pong_from_shared_key_hex_digest : Get Pong (Unit {0})
  pong_from_shared_key_hex_digest =
      field_of "SharedKeyHexDigest" rd.read_string pong_put_shared_key_hex_digest

  abbrev pub pong_from_server_hostname : Get Pong (Unit {0})
  pong_from_server_hostname =
      field_of "ServerHostname" rd.read_string pong_put_server_hostname
      >> pong_from_shared_key_hex_digest

  abbrev pub pong_from_reason : Get Pong (Unit {0})
  pong_from_reason = field_of "Reason" rd.read_string pong_put_reason >> pong_from_server_hostname

  abbrev pub pong_from_auth_result : Get Pong (Unit {0})
  pong_from_auth_result =
      field_of "AuthResult" rd.read_bool pong_put_auth_result >> pong_from_reason

  abbrev pub pong_from_message_type : Get Pong (Unit {0})
  pong_from_message_type =
      field_of "MessageType" rd.read_string pong_put_message_type >> pong_from_auth_result

  abbrev pub pong_fields : ℕ → Get Pong (Unit {0})
  pong_fields n = check_array 5 n >> pong_from_message_type

  unfoldable pub pong_decode_msg : Get Pong (Unit {0})
  pong_decode_msg = wrap [] (read rd.read_array_header) >>= pong_fields

  unfoldable pub pong_unmarshal_msg : Get Pong (Unit {0})
  pong_unmarshal_msg = nil_on_error (wrap [] (read rd.read_array_header) >>= pong_fields)
