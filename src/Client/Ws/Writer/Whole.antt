-- ===== src/Client/Ws/Writer/Whole.antt =====
-- The messages that `WriteMessage` of fluent/client/ws/connection.go puts on the wire, however its calls
-- are interleaved.
use native.Mathlib.Decide.{ℕ_discrete}
use fluent_forward_go.Common.{
  subst, ◌≢◌, ℕ, true, none, some, Bytes, List, [], ◌∷◌, ◌++◌, append_assoc, append-nil, concat,
  ◌≡◌, refl, sym, ap, ◌∙◌, arith, update,
}
use fluent_forward_go.Client.Ws.Writer.{
  Line, Writer, writing, put_frame, Move, call, lock, piece, finish, fail, unlock, System, step,
  Reach, start, later, has_lock, part,
}

abbrev IsSplit : Writer → Type 0
IsSplit (writing bs sent left) = sent ++ left ≡ bs
IsSplit _ = Unit

record Inv (m : Line) (ps : ℕ → Writer) : Type 0 where
  locked : (i : ℕ) → has_lock (ps i) ≡ true → m.write_lock ≡ some i
  whole : m.write_lock ≡ none → m.wire ≡ concat m.frames
  parted : (i : ℕ) → has_lock (ps i) ≡ true → m.wire ≡ concat m.frames ++ part (ps i)
  splits : (i : ℕ) → IsSplit (ps i)

concat-snoc : (xs : List Bytes) (x : Bytes) → concat (xs ++ (x ∷ [])) ≡ concat xs ++ x
concat-snoc [] x = append-nil x
concat-snoc (y ∷ ys) x = rw (concat-snoc ys x, append_assoc y (concat ys) x) refl

put_frame_lem :
    (m : Line) (bs : Bytes)
    → m.wire ≡ concat m.frames ++ bs
    → m.wire ≡ concat (put_frame bs m).frames
put_frame_lem m bs h = h ∙ sym (concat-snoc m.frames bs)

module _ {m : Line} {ps : ℕ → Writer} (inv : Inv m ps) (i : ℕ) where
  open inv use {locked, whole, parted, splits}

  held : {p : Writer} → ps i ≡ p → has_lock p ≡ true → m.wire ≡ concat m.frames ++ part p
  held e h = subst (λ p. m.wire ≡ concat m.frames ++ part p) e (parted i (ground arith))

  moved_locked :
      {m' : Line} {p p' : Writer}
      → Move i m p m' p'
      → ps i ≡ p
      → (j : ℕ) → has_lock (update ps i p' j) ≡ true
      → m'.write_lock ≡ some j
  moved_locked call e j q = ground (arith, locked j)
  moved_locked (lock free) e j q = ground (arith, locked j)
  moved_locked mv e j q = ground (arith, locked i, locked j)

  moved_whole :
      {m' : Line} {p p' : Writer}
      → Move i m p m' p'
      → ps i ≡ p
      → m'.write_lock ≡ none
      → m'.wire ≡ concat m'.frames
  moved_whole call e q = whole q
  moved_whole unlock e q = held e refl ∙ append-nil (concat m.frames)
  moved_whole mv e q = ground (arith, locked i)

  all_of : {bs sent : Bytes} → ps i ≡ writing bs sent [] → sent ≡ bs
  all_of {sent} e = sym (append-nil sent) ∙ subst IsSplit e (splits i)

  own_part :
      {m' : Line} {p p' : Writer}
      → Move i m p m' p'
      → ps i ≡ p
      → has_lock p' ≡ true
      → m'.wire ≡ concat m'.frames ++ part p'
  own_part (lock free) e q = whole free ∙ sym (append-nil (concat m.frames))
  own_part (piece {sent} more left going) e q =
      ap (λ bs. bs ++ more) (held e refl) ∙ append_assoc (concat m.frames) sent more
  own_part (finish {bs} {sent} going) e q =
      put_frame_lem m bs (held e refl ∙ ap (λ r. concat m.frames ++ r) (all_of e))
      ∙ sym (append-nil (concat (put_frame bs m).frames))
  own_part (fail {sent}) e q =
      put_frame_lem m sent (held e refl) ∙ sym (append-nil (concat (put_frame sent m).frames))
  own_part mv e q = ground arith

  other_part :
      {m' : Line} {p p' : Writer}
      → Move i m p m' p'
      → ps i ≡ p
      → (j : ℕ) → i ≢ j
      → has_lock (ps j) ≡ true
      → m'.wire ≡ concat m'.frames ++ part (ps j)
  other_part call e j n q = parted j q
  other_part (lock free) e j n q = parted j q
  other_part mv e j n q = ground (arith, locked i, locked j)

  moved_parted :
      {m' : Line} {p p' : Writer}
      → Move i m p m' p'
      → ps i ≡ p
      → (j : ℕ) → has_lock (update ps i p' j) ≡ true
      → m'.wire ≡ concat m'.frames ++ part (update ps i p' j)
  moved_parted {m'} {p} {p'} mv e j q = elim (ℕ_discrete i j) [
    | yes same ↦
        let here : p' ≡ update ps i p' j = ground arith in
        subst (λ r. m'.wire ≡ concat m'.frames ++ part r) here (own_part mv e (ground arith))
    | no other ↦
        let there : ps j ≡ update ps i p' j = ground arith in
        subst (λ r. m'.wire ≡ concat m'.frames ++ part r) there
          (other_part mv e j other (ground arith))
  ]

  own-IsSplit : {m' : Line} {p p' : Writer} → Move i m p m' p' → ps i ≡ p → IsSplit p'
  own-IsSplit (lock free) e = refl
  own-IsSplit (piece {sent} more left going) e =
      append_assoc sent more left ∙ subst IsSplit e (splits i)
  own-IsSplit mv e = tt

  moved-IsSplit :
      {m' : Line} {p p' : Writer}
      → Move i m p m' p'
      → ps i ≡ p
      → (j : ℕ) → IsSplit (update ps i p' j)
  moved-IsSplit {p'} mv e j = elim (ℕ_discrete i j) [
    | yes same ↦
        let here : p' ≡ update ps i p' j = ground arith in subst IsSplit here (own-IsSplit mv e)
    | no other ↦
        let there : ps j ≡ update ps i p' j = ground arith in subst IsSplit there (splits j)
  ]

  Move-Inv : {m' : Line} {p' : Writer} → Move i m (ps i) m' p' → Inv m' (update ps i p')
  Move-Inv mv = record {
    locked = moved_locked mv refl;
    whole = moved_whole mv refl;
    parted = moved_parted mv refl;
    splits = moved-IsSplit mv refl;
  }

Reach-Inv : {s : System} → Reach s → Inv s.mem s.writers
Reach-Inv start = record {
  locked = λ i q. cc;
  whole = λ q. refl;
  parted = λ i q. cc;
  splits = λ i. tt;
}
Reach-Inv (later r (step i mv)) = Move-Inv (Reach-Inv r) i mv

-- In every reachable state of any number of calls of WriteMessage on one connection, interleaved in
-- any order, with a network connection that takes a message in pieces and nothing after a write
-- that failed: the bytes on the wire are those of the messages that were finished, one after the
-- other, or of the part that was written where one failed, followed by what the call with writeLock
-- has written of its own; at most one call has the lock.
pub writes_apart :
    {s : System}
    → Reach s
    → (s.mem.write_lock ≡ none → s.mem.wire ≡ concat s.mem.frames)
      × ((i : ℕ)
          → has_lock (s.writers i) ≡ true
          → (s.mem.wire ≡ concat s.mem.frames ++ part (s.writers i))
            × ((j : ℕ) → has_lock (s.writers j) ≡ true → i ≡ j))
writes_apart {s} r = (whole, λ i p. (parted i p, λ j q. ground (arith, locked i, locked j)))
  where
    open (Reach-Inv r) use {locked, whole, parted}
