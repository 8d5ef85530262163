-- ===== src/Protocol/Handshake/Read/Exchange.antt =====
-- The readers of PING and PONG on what their writers wrote.
use fluent_forward_go.Common.{ap, [], ◌∷◌, ◌++◌, arith}
use fluent_forward_go.Msgp.Errors.{name}
use fluent_forward_go.Msgp.Get.{read, wrap, nil_outcome, ◌>>=◌, Takes, Takes-into}
use fluent_forward_go.Msgp.Format.{Wire, Reads, IsReader}
use fluent_forward_go.Protocol.Handshake.{Ping, Pong}
use fluent_forward_go.Protocol.Handshake.Wire.{ping_wire, pong_wire, IsPing, IsPong}
use fluent_forward_go.Protocol.Handshake.Read.{
  ping_fields, pong_fields, ping_decode_msg, ping_unmarshal_msg, pong_decode_msg,
  pong_unmarshal_msg, pong_put_message_type, ping_put_message_type, pong_from_auth_result,
  ping_from_client_hostname, pong_put_auth_result, ping_put_client_hostname,
  ping_from_shared_key_salt, pong_from_reason, ping_put_shared_key_salt, pong_put_reason,
  ping_from_shared_key_hex_digest, pong_from_server_hostname, ping_put_shared_key_hex_digest,
  pong_put_server_hostname, ping_from_username, pong_from_shared_key_hex_digest,
  pong_put_shared_key_hex_digest, ping_put_username, ping_from_password, ping_put_password,
}
use fluent_forward_go.Protocol.Handshake.Read.Input.{array_lem, field_then}

module _ {Intf : Type 0} (w : Wire Intf) (rd : Reads Intf) (laws : IsReader w rd) where
  ping_lem :
      (z r : Ping)
      → IsPing z
      → Takes (wrap [] (read rd.read_array_header) >>= ping_fields rd) (ping_wire w z) r tt z
  ping_lem z r h = array_lem w rd laws 6 (ping_fields rd) _ r z (omega arith) (
      field_then w rd laws "MessageType" rd.read_string ping_put_message_type
        (ping_from_client_hostname rd) (w.string z.message_type)
        (w.string z.client_hostname
          ++ (w.bytes z.shared_key_salt
              ++ (w.string z.shared_key_hex_digest
                  ++ (w.string z.username ++ (w.string z.password)))))
        z.message_type r z (laws.string z.message_type h.type_short)
        (field_then w rd laws "ClientHostname" rd.read_string ping_put_client_hostname
          (ping_from_shared_key_salt rd) (w.string z.client_hostname)
          (w.bytes z.shared_key_salt
            ++ (w.string z.shared_key_hex_digest ++ (w.string z.username ++ (w.string z.password))))
          z.client_hostname (ping_put_message_type z.message_type r) z
          (laws.string z.client_hostname h.hostname_short)
          (field_then w rd laws "SharedKeySalt" rd.read_bytes ping_put_shared_key_salt
            (ping_from_shared_key_hex_digest rd) (w.bytes z.shared_key_salt)
            (w.string z.shared_key_hex_digest ++ (w.string z.username ++ (w.string z.password)))
            z.shared_key_salt
            (ping_put_client_hostname z.client_hostname (ping_put_message_type z.message_type r)) z
            (laws.bytes z.shared_key_salt h.salt_short)
            (field_then w rd laws "SharedKeyHexDigest" rd.read_string ping_put_shared_key_hex_digest
              (ping_from_username rd) (w.string z.shared_key_hex_digest)
              (w.string z.username ++ (w.string z.password)) z.shared_key_hex_digest
              (ping_put_shared_key_salt z.shared_key_salt (
                ping_put_client_hostname z.client_hostname
                  (ping_put_message_type z.message_type r)))
              z (laws.string z.shared_key_hex_digest h.digest_short)
              (field_then w rd laws "Username" rd.read_string ping_put_username
                (ping_from_password rd) (w.string z.username) (w.string z.password) z.username
                (ping_put_shared_key_hex_digest z.shared_key_hex_digest (
                  ping_put_shared_key_salt z.shared_key_salt (
                    ping_put_client_hostname z.client_hostname
                      (ping_put_message_type z.message_type r))))
                z (laws.string z.username h.username_short)
                (Takes-into (name "Password" ∷ []) rd.read_string ping_put_password
                  (w.string z.password)
                  (ping_put_username z.username (
                    ping_put_shared_key_hex_digest z.shared_key_hex_digest (
                      ping_put_shared_key_salt z.shared_key_salt (
                        ping_put_client_hostname z.client_hostname
                          (ping_put_message_type z.message_type r)))))
                  (laws.string z.password h.password_short)))))))

  pub ping_decode_msg_lem :
      (z r : Ping) → IsPing z → Takes (ping_decode_msg rd) (ping_wire w z) r tt z
  unfolding ping_decode_msg
  ping_decode_msg_lem z r h = ping_lem z r h

  pub ping_unmarshal_msg_lem :
      (z r : Ping) → IsPing z → Takes (ping_unmarshal_msg rd) (ping_wire w z) r tt z
  unfolding ping_unmarshal_msg
  ping_unmarshal_msg_lem z r h rest = ap nil_outcome (ping_lem z r h rest)

  pong_lem :
      (z r : Pong)
      → IsPong z
      → Takes (wrap [] (read rd.read_array_header) >>= pong_fields rd) (pong_wire w z) r tt z
  pong_lem z r h = array_lem w rd laws 5 (pong_fields rd) _ r z (omega arith) (
      field_then w rd laws "MessageType" rd.read_string pong_put_message_type
        (pong_from_auth_result rd) (w.string z.message_type)
        (w.bool z.auth_result
          ++ (w.string z.reason
              ++ (w.string z.server_hostname ++ (w.string z.shared_key_hex_digest))))
        z.message_type r z (laws.string z.message_type h.type_short)
        (field_then w rd laws "AuthResult" rd.read_bool pong_put_auth_result (pong_from_reason rd)
          (w.bool z.auth_result)
          (w.string z.reason ++ (w.string z.server_hostname ++ (w.string z.shared_key_hex_digest)))
          z.auth_result (pong_put_message_type z.message_type r) z (laws.bool z.auth_result)
          (field_then w rd laws "Reason" rd.read_string pong_put_reason
            (pong_from_server_hostname rd) (w.string z.reason)
            (w.string z.server_hostname ++ (w.string z.shared_key_hex_digest)) z.reason
            (pong_put_auth_result z.auth_result (pong_put_message_type z.message_type r)) z
            (laws.string z.reason h.reason_short)
            (field_then w rd laws "ServerHostname" rd.read_string pong_put_server_hostname
              (pong_from_shared_key_hex_digest rd) (w.string z.server_hostname)
              (w.string z.shared_key_hex_digest) z.server_hostname
              (pong_put_reason z.reason
                (pong_put_auth_result z.auth_result (pong_put_message_type z.message_type r)))
              z (laws.string z.server_hostname h.hostname_short)
              (Takes-into (name "SharedKeyHexDigest" ∷ []) rd.read_string
                pong_put_shared_key_hex_digest (w.string z.shared_key_hex_digest)
                (pong_put_server_hostname z.server_hostname (
                  pong_put_reason z.reason
                    (pong_put_auth_result z.auth_result (pong_put_message_type z.message_type r))))
                (laws.string z.shared_key_hex_digest h.digest_short))))))

  pub pong_decode_msg_lem :
      (z r : Pong) → IsPong z → Takes (pong_decode_msg rd) (pong_wire w z) r tt z
  unfolding pong_decode_msg
  pong_decode_msg_lem z r h = pong_lem z r h

  pub pong_unmarshal_msg_lem :
      (z r : Pong) → IsPong z → Takes (pong_unmarshal_msg rd) (pong_wire w z) r tt z
  unfolding pong_unmarshal_msg
  pong_unmarshal_msg_lem z r h rest = ap nil_outcome (pong_lem z r h rest)
