-- ===== src/Client/WsClient/Sends.antt =====
-- When `Send` and `SendRaw` of fluent/client/ws_client.go reach the connection.
use fluent_forward_go.Common.{
  Bool, true, false, Option, none, some, Bytes, List, [], ◌∷◌, ◌≡◌, ◌↔◌, refl, ◌∙◌, ap, All,
  Bool-cases, inl, inr, ◌≢◌, arith,
}
use fluent_forward_go.Msgp.Errors.{Error}
use fluent_forward_go.Client.Session.{Ended, ok, panicked, refused, ended}
use fluent_forward_go.Client.WsClient.{
  Connection, WsClient, Opening, not_opened, opened, reconnect, send, send_raw, send_while,
  without_error, encoded, when_active, new_connection, open_session, write_session,
}
use fluent_forward_go.Client.WsClient.Calls.{
  Call, connecting, reconnecting, disconnecting, sending, sending_raw, listening_ends, Known, learn,
  learned, known, perform, run, history, run-learned,
}

-- Neither a call of `Reconnect` nor the end of a `Listen` with an error.
abbrev pub leaves_error : {Conn E : Type 0} → Call Conn E → Bool
leaves_error (reconnecting o) = false
leaves_error (listening_ends (some x)) = false
leaves_error _ = true

module _ {Conn E : Type 0} (net : Connection Conn E) where
  learn-failure :
      (k : Known) (call : Call Conn E) (e : Ended)
      → leaves_error call ≡ true
      → (learn k call e).failure ≡ k.failure
  learn-failure k (connecting o) ok h = refl
  learn-failure k (connecting o) panicked h = refl
  learn-failure k (connecting o) (refused x) h = refl
  learn-failure k disconnecting e h = refl
  learn-failure k (sending x) e h = refl
  learn-failure k (sending_raw m) e h = refl
  learn-failure k (listening_ends none) e h = refl
  learn-failure k call e h = cc

  learned-failure :
      (calls : List (Call Conn E)) (c : WsClient Conn) (k : Known)
      → All (λ (call : Call Conn E). leaves_error call ≡ true) calls
      → (learned k (history net calls c)).failure ≡ k.failure
  unfolding history learned
  learned-failure [] c k h = refl
  learned-failure (call ∷ calls) c k (h, hs) =
      learned-failure calls (perform net call c).0 _ hs
      ∙ learn-failure k call (perform net call c).1 h

  -- While the client keeps an error, Send and SendRaw return it and change nothing, after any calls
  -- without a Reconnect and without another error of Listen: a Disconnect and a Connect that
  -- succeeds do not clear it.
  pub error_stays :
      (calls : List (Call Conn E)) (c : WsClient Conn) (x : Error) (e : E) (m : Bytes)
      → c.err ≡ some x
      → All (λ (call : Call Conn E). leaves_error call ≡ true) calls
      → (send net e (run net calls c) ≡ (run net calls c, refused x))
        × (send_raw net m (run net calls c) ≡ (run net calls c, refused x))
  unfolding send send_while send_raw
  error_stays calls c x e m h hs = (rw failed refl, rw failed refl)
    where
      failed : (run net calls c).err ≡ some x
      failed =
          ap (λ k. k.failure) (run-learned net calls c) ∙ learned-failure calls c (known c) hs ∙ h

  -- Behind a Reconnect that fails, SendRaw returns its error; behind one that returns nil, SendRaw writes
  -- to the connection that was opened, where that is not closed, and returns what the write does.
  pub reconnect-send_raw :
      (o : Opening Conn) (c : WsClient Conn) (m : Bytes)
      → let (d, failed) = reconnect net o c in
        ((x : Error) → failed ≡ some x → send_raw net m d ≡ (d, refused x))
        × (failed ≡ none
            → (conn : Conn) × (o ≡ opened conn none none)
              × (net.closed conn ≡ false
                  → send_raw net m d ≡ (
                    record d { session = some (net.write m conn).0 },
                    ended (net.write m conn).1,
                  )))
  unfolding reconnect open_session new_connection send_raw
  reconnect-send_raw (not_opened x) c m = (λ y e. cc, λ e. cc)
  reconnect-send_raw (opened conn (some x) w) c m = (λ y e. cc, λ e. cc)
  reconnect-send_raw (opened conn none (some x)) c m = (λ y e. cc, λ e. cc)
  reconnect-send_raw (opened conn none none) c m = (λ y e. cc, λ _. (conn, refl, λ q. rw q refl))

  -- The checks of `Send` let a message pass to the encoding.
  abbrev pub Passes : WsClient Conn → Type 0
  Passes c = (c.err ≡ none) × ((conn : Conn) × (c.session ≡ some conn) × (net.closed conn ≡ false))

  ended-returns : (o : Option Error) → ended o ≢ panicked
  ended-returns none e = cc
  ended-returns (some x) e = cc

  checked-panics :
      (go : Conn → WsClient Conn × Ended) (c : WsClient Conn) (f : Option Error) (s : Option Conn)
      → c.err ≡ f
      → c.session ≡ s
      → (without_error net f c (when_active net s c go)).1 ≡ panicked
      → Passes c × ((conn : Conn) × ((go conn).1 ≡ panicked))
  checked-panics go c (some x) s e q h = cc
  checked-panics go c none none e q h = cc
  checked-panics go c none (some conn) e q h = elim (Bool-cases (net.closed conn)) [
    | inl is_closed ↦ ground arith
    | inr is_open ↦ ((e, (conn, q, is_open)), (conn, ground arith))
  ]

  write-panics :
      (m : Bytes) (d : WsClient Conn) (s : Option Conn)
      → (write_session net m d s).1 ≡ panicked
      → s ≡ none
  write-panics m d none h = refl
  write-panics m d (some conn) h = absurd (ended-returns _ h)

  encoded-panics :
      (d : WsClient Conn) (r : Bytes × Option Error)
      → (encoded net d r).1 ≡ panicked
      → (r.1 ≡ none) × (d.session ≡ none)
  encoded-panics d (m, some x) h = cc
  encoded-panics d (m, none) h = (refl, write-panics m d d.session h)

  passed :
      (go : Conn → WsClient Conn × Ended) (c : WsClient Conn) (f : Option Error) (s : Option Conn)
      (conn : Conn)
      → f ≡ none
      → s ≡ some conn
      → net.closed conn ≡ false
      → without_error net f c (when_active net s c go) ≡ go conn
  passed go c f s conn e q is_open = rw (e, q, is_open) refl

  encoded-gone :
      (d : WsClient Conn) (r : Bytes × Option Error)
      → r.1 ≡ none
      → d.session ≡ none
      → (encoded net d r).1 ≡ panicked
  encoded-gone d (m, none) e gone = rw gone refl
  encoded-gone d (m, some x) e gone = cc

  -- Send panics exactly where its checks pass (no error is kept, and there is a session whose
  -- connection is not closed), the message is encoded without an error, and the calls in between
  -- have cleared the session.
  pub send_while-panics :
      (later : WsClient Conn → WsClient Conn) (e : E) (c : WsClient Conn)
      → ((send_while net later e c).1 ≡ panicked)
        ↔ Passes c × ((net.encode e).1 ≡ none) × ((later c).session ≡ none)
  unfolding send_while
  send_while-panics later e c = (
    λ h.
        let (passes, found) = checked-panics _ c c.err c.session refl refl h in
        let (coded, gone) = encoded-panics (later c) (net.encode e) found.1 in
        (passes, coded, gone),
    λ h.
        let (passes, coded, gone) = h in
        let (f, found) = passes in
        let (conn, q, is_open) = found in
        ap (λ r. r.1) (passed _ c c.err c.session conn f q is_open)
        ∙ encoded-gone (later c) (net.encode e) coded gone,
  )
