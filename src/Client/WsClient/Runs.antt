-- ===== src/Client/WsClient/Runs.antt =====
-- The theorems on `WSClient`, applied to a connection that counts.
use fluent_forward_go.Common.{
  ℕ, ◌+◌, ◌==◌, Bytes, List, [], ◌∷◌, none, some, ◌≡◌, ◌↔◌, refl, length,
}
use fluent_forward_go.Msgp.Errors.{text}
use fluent_forward_go.Client.Session.{panicked, refused}
use fluent_forward_go.Client.WsClient.{
  Connection, WsClient, opened, disconnect, send_while, send, send_raw,
}
use fluent_forward_go.Client.WsClient.Calls.{
  Call, connecting, reconnecting, disconnecting, sending, sending_raw, listening_ends, learned,
  known, run, history, run-learned,
}
use fluent_forward_go.Client.WsClient.Sends.{Passes, error_stays, send_while-panics}

-- A connection counts the bytes that are written to it, from 1; a closed one is 0.
abbrev counting : Connection ℕ Bytes
counting = record {
  closed = λ n. n == 0;
  close = λ n. (0, none);
  write = λ m n. (n + length m, none);
  encode = λ e. (e, none);
}

abbrev active : WsClient ℕ
active = record { session = some 1; err = none }

abbrev failed : WsClient ℕ
failed = record { session = some 1; err = some (text "reset") }

abbrev some_calls : List (Call ℕ Bytes)
some_calls =
    sending (1 ∷ 2 ∷ [])
    ∷ listening_ends (some (text "reset"))
    ∷ reconnecting (opened 5 none (some (text "deadline")))
    ∷ connecting (opened 5 none none)
    ∷ sending_raw (3 ∷ [])
    ∷ []

run-learned_example :
    known (run counting some_calls active)
    ≡ learned (known active) (history counting some_calls active)
run-learned_example = run-learned counting some_calls active

-- A new session does not clear the error.
abbrev renewing : List (Call ℕ Bytes)
renewing = disconnecting ∷ connecting (opened 7 none none) ∷ []

error_stays_example :
    (send counting (1 ∷ []) (run counting renewing failed)
      ≡ (run counting renewing failed, refused (text "reset")))
    × (send_raw counting (2 ∷ []) (run counting renewing failed)
        ≡ (run counting renewing failed, refused (text "reset")))
error_stays_example =
    error_stays counting renewing failed (text "reset") (1 ∷ []) (2 ∷ []) refl (refl, (refl, tt))

-- Disconnect comes between the checks of Send and its write.
send_while-panics_example :
    ((send_while counting (λ c. (disconnect counting c).0) (1 ∷ []) active).1 ≡ panicked)
    ↔ Passes counting active
      × ((counting.encode (1 ∷ [])).1 ≡ none)
      × ((disconnect counting active).0.session ≡ none)
send_while-panics_example =
    send_while-panics counting (λ c. (disconnect counting c).0) (1 ∷ []) active

send_panics : (send_while counting (λ c. (disconnect counting c).0) (1 ∷ []) active).1 ≡ panicked
unfolding send_while disconnect
send_panics = refl
