-- ===== src/Client/Dial.antt =====
-- `WSConnError` of fluent/client/errors.go, and `New` and `NewSession` of the connection factories of
-- fluent/client/ws_client.go and fluent/client/conn_factory.go. The dialers, `http.Header` and
-- `tls.Config` are outside.
use fluent_forward_go.Common.{
  ℕ, ◌≤◌, Bool, true, false, Option, none, some, Bytes, List, [], ◌∷◌, ◌==◌, leb, length, codes,
  ◌≡◌, ◌↔◌, refl, if◌then◌else◌, Bool-cases, inl, inr, ◌<◌, arith, ◌⊎◌, ℤ,
}
use fluent_forward_go.Msgp.Errors.{Error}

pub record WsConnError : Type 0 where
  pub status_code : ℕ
  pub response_body : Bytes
  pub conn_err : Option Error
  pub retryable : Bool

abbrev pub non_retryable_status_codes : List ℕ
non_retryable_status_codes = 400 ∷ 401 ∷ 403 ∷ 404 ∷ 405 ∷ 501 ∷ 505 ∷ []

-- The loop over the codes.
unfoldable pub is_retryable_from : List ℕ → ℕ → Bool
is_retryable_from [] status_code = true
is_retryable_from (code ∷ codes) status_code =
    let rest = is_retryable_from codes status_code in if status_code == code then false else rest

unfoldable pub is_retryable_status_code : ℕ → Bool
unfolding is_retryable_from
is_retryable_status_code status_code = is_retryable_from non_retryable_status_codes status_code

unfoldable pub new_ws_conn_error : Option Error → ℕ → Bytes → WsConnError
unfolding is_retryable_status_code
new_ws_conn_error err status_code body = record {
  status_code = status_code;
  response_body = body;
  conn_err = err;
  retryable = is_retryable_status_code status_code;
}

-- `resp`, with what `io.ReadAll` of its body returns where there is a body.
pub record Response : Type 0 where
  pub status_code : ℕ
  pub body : Option (Bytes × Option Error)

pub data DialError : Type 0 where
  plain : Error → DialError
  refused : WsConnError → DialError

abbrev pub plain_error : Option Error → Option DialError
plain_error none = none
plain_error (some e) = some (plain e)

-- `if readErr != nil { err = readErr }`
abbrev pub last_error : Option Error → Option Error → Option Error
last_error err none = err
last_error err (some read_err) = some read_err

abbrev pub with_status : ℕ → Bytes → Option Error → Option DialError
with_status status_code body err =
    if leb 300 status_code
    then some (refused (new_ws_conn_error err status_code body))
    else plain_error err

abbrev pub body_error : ℕ → Option (Bytes × Option Error) → Option Error → Option DialError
body_error status_code none err = plain_error err
body_error status_code (some (bits, read_err)) err =
    with_status status_code bits (last_error err read_err)

-- What becomes of the error of `Dial`.
unfoldable pub dial_error : Option Response → Option Error → Option DialError
dial_error none err = plain_error err
dial_error (some resp) err = body_error resp.status_code resp.body err

pub record WsFactory (Tls Header : Type 0) : Type 0 where
  pub url : Bytes
  pub auth_info : Option Bytes
  pub tls_config : Option Tls
  pub header : Option Header

module _ {Header : Type 0} (no_header : Header) (set : Bytes → Bytes → Header → Header) where
  abbrev pub or_new : Option Header → Header
  or_new none = no_header
  or_new (some h) = h

  -- The token is set where it is not empty.
  abbrev pub authorized : Option Bytes → Header → Header
  authorized none h = h
  authorized (some []) h = h
  authorized (some token) h = set (codes "Authorization") token h

  unfoldable pub ws_header : {Tls : Type 0} → WsFactory Tls Header → Header
  ws_header wcf = authorized wcf.auth_info (or_new wcf.header)

  -- `dial` is `Dial` of a `websocket.Dialer` with the `TLSClientConfig`.
  unfoldable pub ws_new :
      {Tls Conn : Type 0}
      → (Option Tls → Bytes → Header → Conn × (Option Response × Option Error))
      → WsFactory Tls Header
      → Conn × Option DialError
  unfolding ws_header dial_error
  ws_new dial wcf =
      let (conn, (resp, err)) = dial wcf.tls_config wcf.url (ws_header wcf) in
      (conn, dial_error resp err)

pub record ConnFactory (Tls : Type 0) : Type 0 where
  pub network : Bytes
  pub address : Bytes
  pub tls_config : Option Tls
  pub timeout : ℤ

module _ {Tls Conn : Type 0} (dial : ℤ → Bytes → Bytes → Conn × Option Error)
    (dial_tls : ℤ → Bytes → Bytes → Tls → Conn × Option Error) where
  abbrev pub with_network : ConnFactory Tls → ConnFactory Tls
  with_network f = record f { network = if length f.network == 0 then codes "tcp" else f.network }

  abbrev pub dial_with : ConnFactory Tls → Option Tls → Conn × Option Error
  dial_with f none = dial f.timeout f.network f.address
  dial_with f (some tls) = dial_tls f.timeout f.network f.address tls

  -- The factory keeps the network that is filled in.
  unfoldable pub conn_factory_new : ConnFactory Tls → ConnFactory Tls × (Conn × Option Error)
  conn_factory_new f = (with_network f, dial_with (with_network f) f.tls_config)

-- `n` is one of the codes.
abbrev pub IsListed : ℕ → List ℕ → Type 0
IsListed n [] = ⊥
IsListed n (code ∷ codes) = (n ≡ code) ⊎ IsListed n codes

is_retryable_iff : (codes : List ℕ) (n : ℕ) → (is_retryable_from codes n ≡ false) ↔ IsListed n codes
unfolding is_retryable_from
is_retryable_iff [] n = (λ h. cc, λ h. absurd h)
is_retryable_iff (code ∷ codes) n =
    let (f, g) = is_retryable_iff codes n in
    elim (Bool-cases (n == code)) [
      | inl q ↦ (λ _. inl (ground arith), λ _. rw q refl)
      | inr q ↦ (
        λ h. inr (f (rw q at h)),
        λ h. rw q (elim h [ inl e ↦ ground arith | inr listed ↦ g listed ]),
      )
    ]

-- With a status of 300 or more the error is a WSConnError, which is retryable unless the status is one
-- of the listed codes; below, there is an error where the dialer or the reading of the body has one.
pub dial_error_lem :
    (n : ℕ) (bits : Bytes) (read_err err : Option Error)
    → let failed =
        dial_error (some (record { status_code = n; body = some (bits, read_err) })) err in
      (300 ≤ n
        → (w : WsConnError) × (failed ≡ some (refused w))
          × (w.status_code ≡ n)
          × (w.response_body ≡ bits)
          × ((w.retryable ≡ false) ↔ IsListed n non_retryable_status_codes))
      × (n < 300 → (failed ≡ none) ↔ ((read_err ≡ none) × (err ≡ none)))
unfolding dial_error new_ws_conn_error is_retryable_status_code
dial_error_lem n bits read_err err = (
  λ h. (
    new_ws_conn_error (last_error err read_err) n bits,
    ground arith,
    refl,
    refl,
    is_retryable_iff non_retryable_status_codes n,
  ),
  λ h. ground arith,
)
