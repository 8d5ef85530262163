-- ===== src/Protocol/Handshake/Wire.antt =====
-- The objects that the messages of the handshake are written as.
use fluent_forward_go.Common.{Option, none, some, ◌++◌, Bytes, codes}
use fluent_forward_go.Msgp.Format.{Wire, IsShort}
use fluent_forward_go.Protocol.Handshake.{HeloOpts, Helo, Ping, Pong}

module _ {Intf : Type 0} (w : Wire Intf) where
  abbrev pub helo_opts_wire : HeloOpts → Bytes
  helo_opts_wire z =
      w.map_header 3
      ++ (w.string (codes "nonce")
          ++ (w.bytes z.nonce
              ++ (w.string (codes "auth")
                  ++ (w.bytes z.auth ++ (w.string (codes "keepalive") ++ w.bool z.keepalive)))))

  abbrev pub opts_or_nil : Option HeloOpts → Bytes
  opts_or_nil none = w.nil
  opts_or_nil (some o) = helo_opts_wire o

  abbrev pub helo_wire : Helo → Bytes
  helo_wire z = w.array_header 2 ++ (w.string z.message_type ++ opts_or_nil z.options)

  abbrev pub ping_wire : Ping → Bytes
  ping_wire z =
      w.array_header 6
      ++ (w.string z.message_type
          ++ (w.string z.client_hostname
              ++ (w.bytes z.shared_key_salt
                  ++ (w.string z.shared_key_hex_digest
                      ++ (w.string z.username ++ w.string z.password)))))

  abbrev pub pong_wire : Pong → Bytes
  pong_wire z =
      w.array_header 5
      ++ (w.string z.message_type
          ++ (w.bool z.auth_result
              ++ (w.string z.reason
                  ++ (w.string z.server_hostname ++ w.string z.shared_key_hex_digest))))

-- What fits the lengths of the format.
pub record IsHeloOpts (z : HeloOpts) : Type 0 where
  pub nonce_short : IsShort z.nonce
  pub auth_short : IsShort z.auth

abbrev pub AreOpts : Option HeloOpts → Type 0
AreOpts none = Unit {0}
AreOpts (some o) = IsHeloOpts o

pub record IsHelo (z : Helo) : Type 0 where
  pub type_short : IsShort z.message_type
  pub opts : AreOpts z.options

pub record IsPing (z : Ping) : Type 0 where
  pub type_short : IsShort z.message_type
  pub hostname_short : IsShort z.client_hostname
  pub salt_short : IsShort z.shared_key_salt
  pub digest_short : IsShort z.shared_key_hex_digest
  pub username_short : IsShort z.username
  pub password_short : IsShort z.password

pub record IsPong (z : Pong) : Type 0 where
  pub type_short : IsShort z.message_type
  pub reason_short : IsShort z.reason
  pub hostname_short : IsShort z.server_hostname
  pub digest_short : IsShort z.shared_key_hex_digest
