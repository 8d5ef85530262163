-- ===== src/Protocol/Handshake/Size.antt =====
-- `Msgsize` of the messages of the handshake: fluent/protocol/handshake_gen.go.
use fluent_forward_go.Common.{ℕ, ◌+◌, Option, none, some, length}
use fluent_forward_go.Protocol.Handshake.{HeloOpts, Helo, Ping, Pong}

-- The parameters are the package's sizes of headers, of nil and of a Boolean.
module _ (string_prefix_size bytes_prefix_size nil_size bool_size : ℕ) where
  unfoldable pub helo_opts_msgsize : HeloOpts → ℕ
  helo_opts_msgsize z =
      1
      + 6
      + bytes_prefix_size
      + length z.nonce
      + 5
      + bytes_prefix_size
      + length z.auth
      + 10
      + bool_size

  abbrev options_msgsize : Option HeloOpts → ℕ
  options_msgsize none = nil_size
  options_msgsize (some opts) = helo_opts_msgsize opts

  unfoldable pub helo_msgsize : Helo → ℕ
  unfolding helo_opts_msgsize
  helo_msgsize z = 1 + string_prefix_size + length z.message_type + options_msgsize z.options

  unfoldable pub ping_msgsize : Ping → ℕ
  ping_msgsize z =
      1
      + string_prefix_size
      + length z.message_type
      + string_prefix_size
      + length z.client_hostname
      + bytes_prefix_size
      + length z.shared_key_salt
      + string_prefix_size
      + length z.shared_key_hex_digest
      + string_prefix_size
      + length z.username
      + string_prefix_size
      + length z.password

  unfoldable pub pong_msgsize : Pong → ℕ
  pong_msgsize z =
      1
      + string_prefix_size
      + length z.message_type
      + bool_size
      + string_prefix_size
      + length z.reason
      + string_prefix_size
      + length z.server_hostname
      + string_prefix_size
      + length z.shared_key_hex_digest
