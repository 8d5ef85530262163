-- ===== src/Client/Ws/Writer.antt =====
-- `WriteMessage` and `Write` of fluent/client/ws/connection.go, called from any number of goroutines on
-- one connection, with `writeLock`. The network connection takes the bytes of a message in pieces.
pub mod Whole
mod Runs
use fluent_forward_go.Common.{
  subst, ◌≢◌, ℕ, Bool, true, false, Option, none, some, Bytes, List, [], ◌∷◌, ◌++◌, append_assoc,
  append-nil, concat, ◌≡◌, refl, sym, ap, ◌∙◌, arith, update,
}
use fluent_forward_go.Msgp.Errors.{Error}

-- `wire` is what the network connection took. `frames` are the messages that it took, each whole, but
-- for the last one once a write has failed and the connection is `broken`.
pub record Line : Type 0 where
  pub wire : Bytes
  pub frames : List Bytes
  pub broken : Bool
  pub write_lock : Option ℕ

-- Where a call stands; in a write, the message, what of it is written, and what is left.
pub data Writer : Type 0 where
  uncalled : Writer
  locking : Bytes → Writer
  writing : Bytes → Bytes → Bytes → Writer
  unlocking : Option Error → Writer
  returned : Option Error → Writer

-- The network connection took a message, or the part of one.
abbrev pub put_frame : Bytes → Line → Line
put_frame bs m = record m { frames = m.frames ++ (bs ∷ []) }

-- One step of call `i`. A connection whose write has failed takes nothing more.
pub data Move (i : ℕ) (m : Line) : Writer → Line → Writer → Type 0 where
  call : {bs : Bytes} → Move i m uncalled m (locking bs)
  lock :
      {bs : Bytes}
      → m.write_lock ≡ none
      → Move i m (locking bs) (record m { write_lock = some i }) (writing bs [] bs)
  piece :
      {bs sent : Bytes} (more left : Bytes)
      → m.broken ≡ false
      → Move i m
          (writing bs sent (more ++ left))
          (record m { wire = m.wire ++ more })
          (writing bs (sent ++ more) left)
  finish :
      {bs sent : Bytes}
      → m.broken ≡ false
      → Move i m (writing bs sent []) (put_frame bs m) (unlocking none)
  fail :
      {bs sent left : Bytes} {e : Error}
      → Move i m
          (writing bs sent left)
          (record (put_frame sent m) { broken = true })
          (unlocking (some e))
  unlock : {o : Option Error} → Move i m (unlocking o) (record m { write_lock = none }) (returned o)

pub record System : Type 0 where
  pub mem : Line
  pub writers : ℕ → Writer

pub data Step (s : System) : System → Type 0 where
  step :
      (i : ℕ) {m : Line} {p : Writer}
      → Move i s.mem (s.writers i) m p
      → Step s (record { mem = m; writers = update s.writers i p })

abbrev pub init : System
init = record {
  mem = record { wire = []; frames = []; broken = false; write_lock = none };
  writers = λ _. uncalled;
}

pub data Reach : System → Type 0 where
  start : Reach init
  later : {s t : System} → Reach s → Step s t → Reach t

-- Between taking the lock and giving it back.
abbrev pub has_lock : Writer → Bool
has_lock (writing bs sent left) = true
has_lock (unlocking o) = true
has_lock _ = false

-- What is written of a message that is not whole.
abbrev pub part : Writer → Bytes
part (writing bs sent left) = sent
part _ = []
