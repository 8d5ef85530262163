-- ===== src/Protocol/Handshake/Digest.antt =====
-- Which digests of handshake.go are accepted.
use fluent_forward_go.Common.{
  ℕ, ◌/◌, ◌%◌, ◌<◌, ◌≡◌, refl, ap, ◌↔◌, Bool, true, false, none, some, [], ◌∷◌, ◌++◌, arith, Bytes,
  same, same_iff, codes, All, Bool-cases, inl, inr,
}
use fluent_forward_go.Msgp.Errors.{text}
use fluent_forward_go.Protocol.Handshake.{
  HeloOpts, Helo, Ping, Pong, hex_digit, hex, hashed, new_ping_with_auth, new_pong, matched,
  validate_ping_digest, validate_pong_digest,
}

hex_digit-injective : (a b : ℕ) → a < 16 → b < 16 → hex_digit a ≡ hex_digit b → a ≡ b
hex_digit-injective a b ha hb h = ground arith

hex_head :
    (a b : ℕ)
    → a < 256
    → b < 256
    → hex_digit (a / 16) ≡ hex_digit (b / 16)
    → hex_digit (a % 16) ≡ hex_digit (b % 16)
    → a ≡ b
hex_head a b ha hb h k =
    let e : a / 16 ≡ b / 16 = hex_digit-injective (a / 16) (b / 16) (omega arith) (omega arith) h in
    let f : a % 16 ≡ b % 16 = hex_digit-injective (a % 16) (b % 16) (omega arith) (omega arith) k in
    omega arith

abbrev AreBytes : Bytes → Type 0
AreBytes bs = All (λ (b : ℕ). b < 256) bs

hex-injective : (s t : Bytes) → AreBytes s → AreBytes t → hex s ≡ hex t → s ≡ t
hex-injective [] [] hs ht h = refl
hex-injective [] (y ∷ t) hs ht h = cc
hex-injective (x ∷ s) [] hs ht h = cc
hex-injective (x ∷ s) (y ∷ t) hs ht h =
    let a : hex_digit (x / 16) ≡ hex_digit (y / 16) = cc in
    let b : hex_digit (x % 16) ≡ hex_digit (y % 16) = cc in
    let c : hex s ≡ hex t = cc in
    let e : x ≡ y = hex_head x y hs.0 ht.0 a b in
    let f : s ≡ t = hex-injective s t hs.1 ht.1 c in cc

append-cancel : (xs ys zs : Bytes) → xs ++ ys ≡ xs ++ zs → ys ≡ zs
append-cancel [] ys zs h = h
append-cancel (x ∷ xs) ys zs h = append-cancel xs ys zs cc

hashed-cancel :
    (salt hostname nonce key key' : Bytes)
    → hashed salt hostname nonce key ≡ hashed salt hostname nonce key'
    → key ≡ key'
hashed-cancel salt hostname nonce key key' h = append-cancel nonce key key' (
    append-cancel hostname (nonce ++ key) (nonce ++ key')
      (append-cancel salt (hostname ++ (nonce ++ key)) (hostname ++ (nonce ++ key')) h))

matched_iff :
    (received expected : Bytes) → (matched received (expected, none) ≡ none) ↔ (received ≡ expected)
matched_iff received expected = elim (Bool-cases (same received expected)) [
  | inl e ↦ (λ _. (same_iff received expected).0 e, λ _. rw e refl)
  | inr e ↦ (λ k. absurd (not_none (rw e at k)), λ k. absurd (differ e k))
]
  where
    not_none : some (text "No match") ≡ none → ⊥
    not_none k = cc

    differ : same received expected ≡ false → received ≡ expected → ⊥
    differ e k = let t : same received expected ≡ true = (same_iff received expected).1 k in cc

module _ (sha512 : Bytes → Bytes) (sums : (bs : Bytes) → AreBytes (sha512 bs)) where
  -- The digest for one key is the digest for another only where the keys are the same.
  digests_iff :
      (salt hostname nonce key key' : Bytes)
      → (sha512 (hashed salt hostname nonce key) ≡ sha512 (hashed salt hostname nonce key')
          → hashed salt hostname nonce key ≡ hashed salt hostname nonce key')
      → (hex (sha512 (hashed salt hostname nonce key))
          ≡ hex (sha512 (hashed salt hostname nonce key')))
        ↔ (key ≡ key')
  digests_iff salt hostname nonce key key' unique = (
    λ h.
        hashed-cancel salt hostname nonce key key' (unique (hex-injective _ _ (sums _) (sums _) h)),
    λ h. ap (λ k. hex (sha512 (hashed salt hostname nonce k))) h,
  )

  -- NewPingWithAuth gives a PING without an error, and ValidatePingDigest accepts it under a key,
  -- with the nonce of the PING, exactly where the key is that of NewPingWithAuth. SHA-512 is a
  -- parameter that gives bytes and does not map the two hashed texts to one sum where they differ.
  pub validate_ping_digest-new_ping_with_auth :
      (hostname key key' salt nonce username password : Bytes)
      → (sha512 (hashed salt hostname nonce key) ≡ sha512 (hashed salt hostname nonce key')
          → hashed salt hostname nonce key ≡ hashed salt hostname nonce key')
      → let (ping, err) = new_ping_with_auth sha512 hostname key salt nonce username password in
        (err ≡ none) × ((validate_ping_digest sha512 ping key' nonce ≡ none) ↔ (key ≡ key'))
  unfolding new_ping_with_auth validate_ping_digest
  validate_ping_digest-new_ping_with_auth hostname key key' salt nonce username password unique =
      let (f, g) = digests_iff salt hostname nonce key key' unique in
      let (p, q) =
        matched_iff (hex (sha512 (hashed salt hostname nonce key)))
          (hex (sha512 (hashed salt hostname nonce key'))) in
      (refl, (λ h. f (p h), λ h. q (g h)))

  -- For a HELO with options and a PING, NewPong gives a PONG without an error, and
  -- ValidatePongDigest accepts it under a key, with the nonce of the HELO and the salt of the PING,
  -- exactly where the key is that of NewPong. SHA-512 is a parameter that gives bytes and does not
  -- map the two hashed texts to one sum where they differ.
  pub validate_pong_digest-new_pong :
      (auth_result : Bool) (reason hostname key key' : Bytes) (helo : Helo) (opts : HeloOpts)
      (ping : Ping)
      → helo.options ≡ some opts
      → (sha512 (hashed ping.shared_key_salt hostname opts.nonce key)
            ≡ sha512 (hashed ping.shared_key_salt hostname opts.nonce key')
          → hashed ping.shared_key_salt hostname opts.nonce key
            ≡ hashed ping.shared_key_salt hostname opts.nonce key')
      → (pong : Pong) × (new_pong sha512 auth_result reason hostname key (some helo) (some ping)
          ≡ (some pong, none))
        × ((validate_pong_digest sha512 pong key' opts.nonce ping.shared_key_salt ≡ none)
            ↔ (key ≡ key'))
  unfolding new_pong validate_pong_digest
  validate_pong_digest-new_pong auth_result reason hostname key key' helo opts ping e unique =
      let (f, g) = digests_iff ping.shared_key_salt hostname opts.nonce key key' unique in
      let (p, q) =
        matched_iff (hex (sha512 (hashed ping.shared_key_salt hostname opts.nonce key)))
          (hex (sha512 (hashed ping.shared_key_salt hostname opts.nonce key'))) in
      (
        record {
          message_type = codes "PONG";
          auth_result = auth_result;
          reason = reason;
          server_hostname = hostname;
          shared_key_hex_digest =
              hex (sha512 (hashed ping.shared_key_salt hostname opts.nonce key));
        },
        rw e refl,
        (λ h. f (p h), λ h. q (g h)),
      )
