-- ===== src/Client/Setup.antt =====
-- The constructors of the clients: `New` of fluent/client/client.go, and `NewWS` and `IAMAuthInfo` of
-- fluent/client/ws_client.go. The text of `WSConnError` of fluent/client/errors.go. Both factories are
-- interfaces.
use fluent_forward_go.Common.{
  ℤ, pos, is_zero, ◌≢◌, Bool, Option, none, some, Bytes, [], ◌∷◌, List, codes, if◌then◌else◌,
  String, arith, ℕ,
}
use fluent_forward_go.Msgp.Errors.{Error}
use fluent_forward_go.Client.Session.{Client}
use fluent_forward_go.Client.WsClient.{WsClient}
use fluent_forward_go.Client.Dial.{WsConnError, ConnFactory, WsFactory}
use fluent_forward_go.Client.Ws.New.{ConnectionOptions}

pub record AuthInfo : Type 0 where
  pub shared_key : Option Bytes
  pub username : Bytes
  pub password : Bytes

pub record ClientOptions (Factory : Type 0) : Type 0 where
  pub factory : Option Factory
  pub require_ack : Bool
  pub connection_timeout : ℤ
  pub auth_info : AuthInfo

-- In nanoseconds.
abbrev pub default_connection_timeout : ℤ
default_connection_timeout = pos 60000000000

abbrev pub default_factory : {Tls : Type 0} → ConnFactory Tls
default_factory = record {
  network = codes "tcp";
  address = codes "localhost:24224";
  tls_config = none;
  timeout = pos 0;
}

abbrev pub factory_or : {Factory : Type 0} → Factory → Option Factory → Factory
factory_or f none = f
factory_or f (some g) = g

abbrev pub timeout_or_default : ℤ → ℤ
timeout_or_default n = if is_zero n then default_connection_timeout else n

module _ {Conn Factory : Type 0} (of_conn_factory : Factory) where
  -- The factory, and the other fields of the client.
  unfoldable pub new_client : ClientOptions Factory → Factory × Client Conn
  new_client opts = (
    factory_or of_conn_factory opts.factory,
    record {
      require_ack = opts.require_ack;
      timeout = timeout_or_default opts.connection_timeout;
      shared_key = opts.auth_info.shared_key;
      hostname = [];
      session = none;
    },
  )

-- The client that New makes has a deadline for its acks.
timeout_or_default_lem : (n : ℤ) → timeout_or_default n ≢ pos 0
timeout_or_default_lem n = ground arith

abbrev pub default_ws_factory : {Tls Header : Type 0} → WsFactory Tls Header
default_ws_factory = record {
  url = codes "127.0.0.1:8083";
  auth_info = none;
  tls_config = none;
  header = none;
}

pub record WsClientOptions (Factory H R : Type 0) : Type 0 where
  pub connection : ConnectionOptions H R
  pub factory : Option Factory

-- The factory and the options of the connections, and the other fields of the client.
unfoldable pub new_ws :
    {Factory H R Conn : Type 0}
    → Factory
    → WsClientOptions Factory H R
    → Factory × (ConnectionOptions H R × WsClient Conn)
new_ws of_ws_factory opts = (
  factory_or of_ws_factory opts.factory,
  (opts.connection, record { session = none; err = none }),
)

pub record IamAuthInfo : Type 0 where
  pub token : Bytes

abbrev pub new_iam_auth_info : Bytes → IamAuthInfo
new_iam_auth_info token = record { token = token }

abbrev pub set_iam_token : Bytes → IamAuthInfo → IamAuthInfo
set_iam_token token ai = record ai { token = token }

-- What `%s` and `%d` are filled in with.
pub data Argument : Type 0 where
  a_string : Bytes → Argument
  a_number : ℕ → Argument

-- `fmt.Sprintf`, and the text of an error.
module _ (sprintf : String → List Argument → Bytes) (text_of : Error → Bytes) where
  abbrev pub conn_error_text : WsConnError → Option Error → Bytes
  conn_error_text e (some err) =
      sprintf "Connection Error %s. Status Code: %d. Response: %s"
        (a_string (text_of err) ∷ a_number e.status_code ∷ a_string e.response_body ∷ [])
  conn_error_text e none =
      sprintf "Connection Error. Status Code: %d. Response: %s"
        (a_number e.status_code ∷ a_string e.response_body ∷ [])

  unfoldable pub ws_conn_error_error : WsConnError → Bytes
  ws_conn_error_error e = conn_error_text e e.conn_err
