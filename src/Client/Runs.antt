-- ===== src/Client/Runs.antt =====
-- The theorems on `Client`, applied to a connection that answers.
use fluent_forward_go.Common.{
  ℕ, ◌+◌, Bool, true, false, none, some, Bytes, List, [], ◌∷◌, ◌≡◌, ◌↔◌, refl, codes, same, length,
  pos,
}
use fluent_forward_go.Protocol.Handshake.{validate_pong_digest, new_ping, hex, hashed}
use fluent_forward_go.Client.Session.{Network, Client, ok, opened, transport_phase, send, handshake}
use fluent_forward_go.Client.Session.Phase.{
  Call, connecting, disconnecting, handshaking, sending, run, history, earned, transport_phase-run,
}
use fluent_forward_go.Client.Session.Checks.{
  IsAcknowledged, IsAnswered, send-IsAcknowledged, handshake-IsAnswered,
}

abbrev whole : Bytes → Bytes
whole bs = bs

-- A connection counts what is written to it. Its server answers each PING for the key "key" and the
-- salt 5, and each message with the ack "id".
abbrev answering : Network ℕ Bytes
answering = record {
  close = λ n. (n, none);
  set_read_deadline = λ t n. (n, none);
  read_helo = λ n. (
    n,
    (
      record {
        message_type = codes "HELO";
        options = some (record { nonce = 9 ∷ []; auth = []; keepalive = true });
      },
      none,
    ),
  );
  read_pong = λ n. (
    n,
    (
      record {
        message_type = codes "PONG";
        auth_result = true;
        reason = [];
        server_hostname = codes "s";
        shared_key_hex_digest = hex (hashed (5 ∷ []) (codes "s") (9 ∷ []) (codes "key"));
      },
      none,
    ),
  );
  read_ack = λ n. (n, (codes "id", none));
  write_ping = λ p n. (n + 1, none);
  write = λ m n. (n + length m, none);
  encode = λ e n. (n + length e, none);
  chunk = λ e. (e, (codes "id", none));
}

abbrev connected : Bool → Client ℕ
connected phase = record {
  require_ack = true;
  timeout = pos 0;
  shared_key = some (codes "key");
  hostname = codes "c";
  session = some (record { connection = 0; transport_phase = phase });
}

abbrev some_calls : List (Call ℕ Bytes)
some_calls =
    disconnecting
    ∷ connecting (opened 3)
    ∷ sending (1 ∷ [])
    ∷ handshaking (5 ∷ [], none)
    ∷ sending (1 ∷ [])
    ∷ []

transport_phase-run_example :
    transport_phase (run answering whole some_calls (connected true))
    ≡ earned
        (transport_phase (connected true))
        (history answering whole some_calls (connected true))
transport_phase-run_example =
    transport_phase-run answering whole some_calls (connected true) (codes "key") refl

send-IsAcknowledged_example :
    ((send answering (1 ∷ []) (connected true)).1 ≡ ok)
    ↔ IsAcknowledged answering (pos 0) (1 ∷ [], (codes "id", none)) 0
send-IsAcknowledged_example =
    send-IsAcknowledged answering (1 ∷ []) (connected true)
      (record { connection = 0; transport_phase = true }) refl refl refl

succeeds : (handshake answering whole (5 ∷ [], none) (connected false)).1 ≡ ok
unfolding handshake validate_pong_digest new_ping same
succeeds = refl

handshake-IsAnswered_example :
    IsAnswered answering whole
      (connected false)
      (5 ∷ [])
      (some (record { nonce = 9 ∷ []; auth = []; keepalive = true }))
      0
handshake-IsAnswered_example =
    handshake-IsAnswered answering whole (5 ∷ [], none) (connected false)
      (record { connection = 0; transport_phase = false }) refl succeeds
