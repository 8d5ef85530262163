-- ===== src/Protocol/Handshake/Runs.antt =====
-- The theorems on the messages of the handshake, applied.
use fluent_forward_go.Common.{
  ℕ, ◌∷◌, [], none, some, Bytes, arith, codes, All, ◌≡◌, refl, true, ◌<◌, ◌%◌, ◌↔◌, false,
}
use fluent_forward_go.Protocol.Handshake.{
  Helo, Ping, Pong, new_ping_with_auth, new_pong, validate_ping_digest, validate_pong_digest,
}
use fluent_forward_go.Protocol.Handshake.Digest.{
  validate_ping_digest-new_ping_with_auth, validate_pong_digest-new_pong,
}
use fluent_forward_go.Protocol.Handshake.Wire.{IsHelo, IsPing, IsPong}
use fluent_forward_go.Protocol.Handshake.Write.{
  helo_encode_msg, helo_marshal_msg, ping_encode_msg, ping_marshal_msg, pong_encode_msg,
  pong_marshal_msg,
}
use fluent_forward_go.Protocol.Handshake.Read.{
  helo_decode_msg, helo_unmarshal_msg, ping_decode_msg, ping_unmarshal_msg, pong_decode_msg,
  pong_unmarshal_msg,
}
use fluent_forward_go.Protocol.RoundTrip.{RoundTrips}
use fluent_forward_go.Protocol.RoundTrip.Handshake.{handshake_round_trip}
use fluent_forward_go.Msgp.Model.{wire, writes, appends}
use fluent_forward_go.Msgp.Model.Laws.{
  reads, wire-IsFormat, reads-IsReader, writes-IsWriter, appends-IsAppender,
}

-- A sum of as many bytes as are hashed.
abbrev low : Bytes → Bytes
low [] = []
low (b ∷ bs) = (b % 256) ∷ low bs

low-AreBytes : (bs : Bytes) → All (λ (b : ℕ). b < 256) (low bs)
low-AreBytes [] = tt
low-AreBytes (b ∷ bs) = (omega arith, low-AreBytes bs)

abbrev a_helo : Helo
a_helo = record {
  message_type = codes "HELO";
  options = some (record { nonce = 9 ∷ []; auth = []; keepalive = true });
}

abbrev a_ping : Ping
a_ping = record {
  message_type = codes "PING";
  client_hostname = codes "c";
  shared_key_salt = 1 ∷ 2 ∷ [];
  shared_key_hex_digest = [];
  username = [];
  password = [];
}

validate_ping_digest-new_ping_with_auth_example :
    let (ping, err) =
      new_ping_with_auth low (codes "c") (codes "key") (1 ∷ []) (9 ∷ []) (codes "u") (codes "p") in
    (err ≡ none)
    × ((validate_ping_digest low ping (codes "kez") (9 ∷ []) ≡ none) ↔ (codes "key" ≡ codes "kez"))
validate_ping_digest-new_ping_with_auth_example =
    validate_ping_digest-new_ping_with_auth low low-AreBytes (codes "c") (codes "key") (codes "kez")
      (1 ∷ []) (9 ∷ []) (codes "u") (codes "p") (λ h. cc)

validate_pong_digest-new_pong_example :
    (pong : Pong) × (new_pong low true [] (codes "s") (codes "key") (some a_helo) (some a_ping)
      ≡ (some pong, none))
    × ((validate_pong_digest low pong (codes "key") (9 ∷ []) (1 ∷ 2 ∷ []) ≡ none)
        ↔ (codes "key" ≡ codes "key"))
validate_pong_digest-new_pong_example =
    validate_pong_digest-new_pong low low-AreBytes true [] (codes "s") (codes "key") (codes "key")
      a_helo (record { nonce = 9 ∷ []; auth = []; keepalive = true }) a_ping refl (λ h. h)

abbrev a_pong : Pong
a_pong = record {
  message_type = codes "PONG";
  auth_result = true;
  reason = [];
  server_hostname = codes "s";
  shared_key_hex_digest = 7 ∷ [];
}

abbrev other_helo : Helo
other_helo = record { message_type = []; options = none }

abbrev other_ping : Ping
other_ping = record a_ping { client_hostname = codes "d"; password = 5 ∷ [] }

abbrev other_pong : Pong
other_pong = record a_pong { auth_result = false; reason = codes "no" }

a_helo-IsHelo : IsHelo a_helo
a_helo-IsHelo = record {
  type_short = omega arith;
  opts = record { nonce_short = omega arith; auth_short = omega arith };
}

a_ping-IsPing : IsPing a_ping
a_ping-IsPing = record {
  type_short = omega arith;
  hostname_short = omega arith;
  salt_short = omega arith;
  digest_short = omega arith;
  username_short = omega arith;
  password_short = omega arith;
}

a_pong-IsPong : IsPong a_pong
a_pong-IsPong = record {
  type_short = omega arith;
  reason_short = omega arith;
  hostname_short = omega arith;
  digest_short = omega arith;
}

handshake_round_trip_example :
    RoundTrips
      (helo_marshal_msg appends a_helo)
      (helo_encode_msg writes a_helo)
      (helo_unmarshal_msg reads)
      (helo_decode_msg reads)
      other_helo
      a_helo
    × RoundTrips
        (ping_marshal_msg appends a_ping)
        (ping_encode_msg writes a_ping)
        (ping_unmarshal_msg reads)
        (ping_decode_msg reads)
        other_ping
        a_ping
    × RoundTrips
        (pong_marshal_msg appends a_pong)
        (pong_encode_msg writes a_pong)
        (pong_unmarshal_msg reads)
        (pong_decode_msg reads)
        other_pong
        a_pong
handshake_round_trip_example =
    handshake_round_trip wire wire-IsFormat reads reads-IsReader writes writes-IsWriter appends
      appends-IsAppender a_helo other_helo a_ping other_ping a_pong other_pong a_helo-IsHelo
      a_ping-IsPing a_pong-IsPong
