-- ===== src/Client/WsClient/Calls.antt =====
-- Sequences of calls of the `WSClient` of fluent/client/ws_client.go, and of ends of its `Listen`.
use fluent_forward_go.Common.{
  Bool, true, false, Option, none, some, Bytes, List, [], ◌∷◌, ◌≡◌, refl, ap, ◌∙◌, inl, inr,
  Bool-cases,
}
use fluent_forward_go.Msgp.Errors.{Error}
use fluent_forward_go.Client.Session.{Ended, ok, panicked, refused, ended}
use fluent_forward_go.Client.WsClient.{
  Connection, WsClient, Opening, not_opened, opened, connect, disconnect, reconnect, listened, send,
  send_raw, send_while, without_error, encoded, written, when_active, new_connection, open_session,
  connect_from,
}

-- A call, with what the factory returns in it, or the end of a `Listen` with its error.
pub data Call (Conn E : Type 0) : Type 0 where
  connecting reconnecting : Opening Conn → Call Conn E
  disconnecting : Call Conn E
  sending : E → Call Conn E
  sending_raw : Bytes → Call Conn E
  listening_ends : Option Error → Call Conn E

-- What a caller knows of the client: whether a session is active, and the error of the connection.
pub record Known : Type 0 where
  pub active : Bool
  pub failure : Option Error

abbrev pub is_some {ℓ} : {A : Type ℓ} → Option A → Bool
is_some none = false
is_some (some _) = true

abbrev pub known : {Conn : Type 0} → WsClient Conn → Known
known c = record { active = is_some c.session; failure = c.err }

module _ {Conn E : Type 0} where
  -- How a call that ended so changes what is known.
  abbrev pub learn : Known → Call Conn E → Ended → Known
  learn k (connecting o) ok = record k { active = true }
  learn k (connecting o) _ = k
  learn k (reconnecting o) ok = record { active = true; failure = none }
  learn k (reconnecting o) (refused e) = record { active = false; failure = some e }
  learn k (reconnecting o) panicked = k
  learn k disconnecting _ = record k { active = false }
  learn k (sending x) _ = k
  learn k (sending_raw m) _ = k
  learn k (listening_ends none) _ = k
  learn k (listening_ends (some e)) _ = record k { failure = some e }

  unfoldable pub learned : Known → List (Call Conn E × Ended) → Known
  learned k [] = k
  learned k ((call, e) ∷ more) = learned (learn k call e) more

  module _ (net : Connection Conn E) where
    abbrev pub returns : WsClient Conn × Option Error → WsClient Conn × Ended
    returns (c, e) = (c, ended e)

    unfoldable pub perform : Call Conn E → WsClient Conn → WsClient Conn × Ended
    perform (connecting o) c = returns (connect o c)
    perform (reconnecting o) c = returns (reconnect net o c)
    perform disconnecting c = returns (disconnect net c)
    perform (sending x) c = send net x c
    perform (sending_raw m) c = send_raw net m c
    perform (listening_ends e) c = (listened e c, ok)

    unfoldable pub run : List (Call Conn E) → WsClient Conn → WsClient Conn
    run [] c = c
    run (call ∷ calls) c = run calls (perform call c).0

    unfoldable pub history : List (Call Conn E) → WsClient Conn → List (Call Conn E × Ended)
    history [] c = []
    history (call ∷ calls) c = (call, (perform call c).1) ∷ history calls (perform call c).0

    connect-learn :
        (o : Opening Conn) (c : WsClient Conn) (s : Option Conn)
        → c.session ≡ s
        → known (connect_from o c s).0
          ≡ learn (known c) (connecting o) (ended (connect_from o c s).1)
    unfolding open_session new_connection
    connect-learn (not_opened x) c none e = refl
    connect-learn (opened conn (some x) w) c none e = refl
    connect-learn (opened conn none (some x)) c none e = refl
    connect-learn (opened conn none none) c none e = refl
    connect-learn o c (some conn) e = refl

    reconnect-learn :
        (o : Opening Conn) (c : WsClient Conn)
        → known (reconnect net o c).0
          ≡ learn (known c) (reconnecting o) (ended (reconnect net o c).1)
    unfolding reconnect open_session new_connection
    reconnect-learn (not_opened x) c = refl
    reconnect-learn (opened conn (some x) w) c = refl
    reconnect-learn (opened conn none (some x)) c = refl
    reconnect-learn (opened conn none none) c = refl

    -- A call of `Send` or `SendRaw` keeps what is known.
    write-known :
        (c : WsClient Conn) (go : Conn → WsClient Conn × Ended)
        → ((conn : Conn) → c.session ≡ some conn → known (go conn).0 ≡ known c)
        → (f : Option Error) (s : Option Conn) → c.session ≡ s
        → known (without_error net f c (when_active net s c go)).0 ≡ known c
    write-known c go h (some x) s e = refl
    write-known c go h none none e = refl
    write-known c go h none (some conn) e = elim (Bool-cases (net.closed conn)) [
      | inl q ↦ rw q refl
      | inr q ↦ rw q (h conn e)
    ]

    encoded-known :
        (c : WsClient Conn) (conn : Conn) (r : Bytes × Option Error)
        → c.session ≡ some conn
        → known (encoded net c r).0 ≡ known c
    encoded-known c conn (m, some x) e = refl
    encoded-known c conn (m, none) e = rw e refl

    perform-learn :
        (call : Call Conn E) (c : WsClient Conn)
        → known (perform call c).0 ≡ learn (known c) call (perform call c).1
    unfolding perform connect disconnect send send_while send_raw listened
    perform-learn (connecting o) c = connect-learn o c c.session refl
    perform-learn (reconnecting o) c = reconnect-learn o c
    perform-learn disconnecting c = refl
    perform-learn (sending x) c =
        write-known c (λ (conn : Conn). encoded net c (net.encode x))
          (λ conn e. encoded-known c conn (net.encode x) e) c.err c.session refl
    perform-learn (sending_raw m) c =
        write-known c (λ (conn : Conn). written net c (net.write m conn)) (λ conn e. rw e refl)
          c.err c.session refl
    perform-learn (listening_ends none) c = refl
    perform-learn (listening_ends (some x)) c = refl

    -- After any sequence of Connect, Reconnect, Disconnect, Send, SendRaw and ends of Listen, with
    -- any results of the factory and of the connection, whether the client has a session, and the
    -- error that it keeps, are what the sequence of the calls and of their results says.
    pub run-learned :
        (calls : List (Call Conn E)) (c : WsClient Conn)
        → known (run calls c) ≡ learned (known c) (history calls c)
    unfolding run history learned
    run-learned [] c = refl
    run-learned (call ∷ calls) c =
        run-learned calls (perform call c).0
        ∙ ap (λ k. learned k (history calls (perform call c).0)) (perform-learn call c)
