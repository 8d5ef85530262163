-- ===== src/Client/Ws/State/Bits.antt =====
-- The operations on the number are those on the flags: the 64 states are tried, for each flag.
use fluent_forward_go.Common.{◌≡◌, refl, Bool, true, false, not, ◌&&◌, ◌==◌, ==_iff}
use fluent_forward_go.Client.Ws.State.{
  Flag, is_open, is_listening, is_close_received, is_close_sent, is_closed, is_error, ConnState,
  has_flag, put_flag, number, has_conn_state, set_conn_state, unset_conn_state,
}

abbrev same_bool : Bool → Bool → Bool
same_bool true b = b
same_bool false b = not b

same_bool-eq : (a b : Bool) → same_bool a b ≡ true → a ≡ b
same_bool-eq true true h = refl
same_bool-eq true false h = cc
same_bool-eq false true h = cc
same_bool-eq false false h = refl

both : (a b : Bool) → (a && b) ≡ true → (a ≡ true) × (b ≡ true)
both true b h = (refl, h)
both false b h = (cc, cc)

abbrev every : (Bool → Bool) → Bool
every f = f true && f false

every_lem : (f : Bool → Bool) → every f ≡ true → (b : Bool) → f b ≡ true
every_lem f h true = (both (f true) (f false) h).0
every_lem f h false = (both (f true) (f false) h).1

abbrev state : Bool → Bool → Bool → Bool → Bool → Bool → ConnState
state a b c d e f = record {
  open_flag = a;
  listening = b;
  close_received = c;
  close_sent = d;
  closed = e;
  error = f;
}

every_state : (ConnState → Bool) → Bool
every_state p =
    every
      (λ a. every (λ b. every (λ c. every (λ d. every (λ e. every (λ f. p (state a b c d e f)))))))

every_state_lem : (p : ConnState → Bool) → every_state p ≡ true → (s : ConnState) → p s ≡ true
unfolding every_state
every_state_lem p h s =
    every_lem (λ f. p (state s.open_flag s.listening s.close_received s.close_sent s.closed f))
      (every_lem
        (λ e. every (λ f. p (state s.open_flag s.listening s.close_received s.close_sent e f)))
        (every_lem
          (λ d. every (λ e. every (λ f. p (state s.open_flag s.listening s.close_received d e f))))
          (every_lem
            (λ c. every (λ d. every (λ e. every (λ f. p (state s.open_flag s.listening c d e f)))))
            (every_lem
              (λ b.
                every (λ c. every (λ d. every (λ e. every (λ f. p (state s.open_flag b c d e f))))))
              (every_lem
                (λ a.
                  every (λ b.
                    every (λ c. every (λ d. every (λ e. every (λ f. p (state a b c d e f)))))))
                h s.open_flag)
              s.listening)
            s.close_received)
          s.close_sent)
        s.closed)
      s.error

-- The three operations, compared at one flag and one state.
agrees : Flag → ConnState → Bool
agrees cs s =
    same_bool (has_conn_state cs (number s)) (has_flag cs s)
    && (set_conn_state cs (number s) == number (put_flag true cs s)
        && unset_conn_state cs (number s) == number (put_flag false cs s))

agrees_everywhere : (cs : Flag) → every_state (agrees cs) ≡ true
unfolding every_state agrees has_conn_state set_conn_state unset_conn_state number
agrees_everywhere is_open = refl
agrees_everywhere is_listening = refl
agrees_everywhere is_close_received = refl
agrees_everywhere is_close_sent = refl
agrees_everywhere is_closed = refl
agrees_everywhere is_error = refl

-- On the number of a state of six flags, hasConnState, setConnState and unsetConnState give the
-- flag, and the numbers of the states with the flag set and cleared, for each flag and each state.
pub conn_state-flags :
    (cs : Flag) (s : ConnState)
    → (has_conn_state cs (number s) ≡ has_flag cs s)
      × (set_conn_state cs (number s) ≡ number (put_flag true cs s))
      × (unset_conn_state cs (number s) ≡ number (put_flag false cs s))
unfolding agrees
conn_state-flags cs s =
    let (h, k) = both _ _ (every_state_lem (agrees cs) (agrees_everywhere cs) s) in
    let (l, m) = both _ _ k in (same_bool-eq _ _ h, (==_iff _ _).0 l, (==_iff _ _).0 m)
