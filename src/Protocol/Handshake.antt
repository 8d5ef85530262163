-- ===== src/Protocol/Handshake.antt =====
-- fluent/protocol/handshake.go: the messages HELO, PING and PONG, and the digests in them.
pub mod Digest
pub mod Wire
pub mod Write
pub mod Read
pub mod Size
mod Runs
use fluent_forward_go.Common.{
  ℕ, ◌+◌, ◌-◌, ◌/◌, ◌%◌, Bool, true, Option, none, some, List, [], ◌∷◌, ◌++◌, ltb, if◌then◌else◌,
  Bytes, same, codes,
}
use fluent_forward_go.Msgp.Errors.{Error, text}

pub record HeloOpts : Type 0 where
  pub nonce : Bytes
  pub auth : Bytes
  pub keepalive : Bool

pub record Helo : Type 0 where
  pub message_type : Bytes
  pub options : Option HeloOpts

pub record Ping : Type 0 where
  pub message_type : Bytes
  pub client_hostname : Bytes
  pub shared_key_salt : Bytes
  pub shared_key_hex_digest : Bytes
  pub username : Bytes
  pub password : Bytes

pub record Pong : Type 0 where
  pub message_type : Bytes
  pub auth_result : Bool
  pub reason : Bytes
  pub server_hostname : Bytes
  pub shared_key_hex_digest : Bytes

-- `opts` is a pointer.
unfoldable pub new_helo : Option HeloOpts → Helo
new_helo none = record {
  message_type = codes "HELO";
  options = some (record { nonce = []; auth = []; keepalive = true });
}
new_helo (some opts) = record { message_type = codes "HELO"; options = some opts }

-- `hex.Encode`: two digits for a byte.
abbrev pub hex_digit : ℕ → ℕ
hex_digit n = if ltb n 10 then b'0' + n else b'a' + (n - 10)

abbrev pub hex : Bytes → Bytes
hex [] = []
hex (b ∷ bs) = hex_digit (b / 16) ∷ hex_digit (b % 16) ∷ hex bs

-- What is written into the hash.
abbrev pub hashed : Bytes → Bytes → Bytes → Bytes → Bytes
hashed salt hostname nonce shared_key = salt ++ (hostname ++ (nonce ++ shared_key))

abbrev pub credentials : List Bytes → Ping → Ping
credentials (username ∷ password ∷ _) p = record p { username = username; password = password }
credentials _ p = p

abbrev pub matched : Bytes → Bytes × Option Error → Option Error
matched received (expected, some err) = some err
matched received (expected, none) = if same received expected then none else some (text "No match")

-- `sha512` is the sum of all that was written into a new hash. Writing into a hash never returns an
-- error.
module _ (sha512 : Bytes → Bytes) where
  unfoldable pub compute_hex_digest : Bytes → Bytes → Bytes → Bytes → Bytes × Option Error
  compute_hex_digest salt hostname nonce shared_key =
      (hex (sha512 (hashed salt hostname nonce shared_key)), none)

  unfoldable pub make_ping : Bytes → Bytes → Bytes → Bytes → List Bytes → Ping × Option Error
  unfolding compute_hex_digest
  make_ping hostname shared_key salt nonce creds =
      let (hex_digest, err) = compute_hex_digest salt hostname nonce shared_key in
      (
        credentials creds (record {
          message_type = codes "PING";
          client_hostname = hostname;
          shared_key_salt = salt;
          shared_key_hex_digest = hex_digest;
          username = [];
          password = [];
        }),
        err,
      )

  unfoldable pub new_ping : Bytes → Bytes → Bytes → Bytes → Ping × Option Error
  unfolding make_ping
  new_ping hostname shared_key salt nonce = make_ping hostname shared_key salt nonce []

  unfoldable pub new_ping_with_auth :
      Bytes → Bytes → Bytes → Bytes → Bytes → Bytes → Ping × Option Error
  unfolding make_ping
  new_ping_with_auth hostname shared_key salt nonce username password =
      make_ping hostname shared_key salt nonce (username ∷ password ∷ [])

  -- Behind the tests for nil.
  abbrev pub make_pong : Bool → Bytes → Bytes → Bytes → HeloOpts → Ping → Option Pong × Option Error
  make_pong auth_result reason hostname shared_key opts ping =
      let (hex_digest, err) =
        compute_hex_digest ping.shared_key_salt hostname opts.nonce shared_key in
      (
        some (record {
          message_type = codes "PONG";
          auth_result = auth_result;
          reason = reason;
          server_hostname = hostname;
          shared_key_hex_digest = hex_digest;
        }),
        err,
      )

  abbrev pub pong_for :
      Bool → Bytes → Bytes → Bytes → Option HeloOpts → Ping → Option Pong × Option Error
  pong_for auth_result reason hostname shared_key none ping =
      (none, some (text "Helo has a nil options field"))
  pong_for auth_result reason hostname shared_key (some opts) ping =
      make_pong auth_result reason hostname shared_key opts ping

  unfoldable pub new_pong :
      Bool → Bytes → Bytes → Bytes → Option Helo → Option Ping → Option Pong × Option Error
  unfolding compute_hex_digest
  new_pong auth_result reason hostname shared_key (some helo) (some ping) =
      pong_for auth_result reason hostname shared_key helo.options ping
  new_pong auth_result reason hostname shared_key _ _ =
      (none, some (text "Either helo or ping is nil"))

  unfoldable pub validate_digest : Bytes → Bytes → Bytes → Bytes → Bytes → Option Error
  unfolding compute_hex_digest
  validate_digest received key nonce salt hostname =
      matched received (compute_hex_digest salt hostname nonce key)

  unfoldable pub validate_ping_digest : Ping → Bytes → Bytes → Option Error
  unfolding validate_digest
  validate_ping_digest p key nonce =
      validate_digest p.shared_key_hex_digest key nonce p.shared_key_salt p.client_hostname

  unfoldable pub validate_pong_digest : Pong → Bytes → Bytes → Bytes → Option Error
  unfolding validate_digest
  validate_pong_digest p key nonce salt =
      validate_digest p.shared_key_hex_digest key nonce salt p.server_hostname
