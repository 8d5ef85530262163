-- ===== src/Client/Ws/Writer/Runs.antt =====
-- Two calls of `WriteMessage` of fluent/client/ws/connection.go.
use fluent_forward_go.Common.{ℕ, ◌≡◌, refl, true, none, [], ◌∷◌, ◌++◌, concat}
use fluent_forward_go.Client.Ws.Writer.{
  call, lock, piece, finish, unlock, System, step, Reach, start, later, has_lock, part,
}
use fluent_forward_go.Client.Ws.Writer.Whole.{writes_apart}

-- Call 0 has written its message, and call 1 the half of its own.
abbrev two_write : (s : System) × Reach s
two_write = (
  _,
  later
      (later
        (later
          (later
            (later
              (later
                (later (later start (step 0 (call {bs = 1 ∷ 2 ∷ []})))
                  (step 1 (call {bs = 3 ∷ 4 ∷ []})))
                (step 0 (lock refl)))
              (step 0 (piece (1 ∷ 2 ∷ []) [] refl)))
            (step 0 (finish refl)))
          (step 0 unlock))
        (step 1 (lock refl)))
      (step 1 (piece (3 ∷ []) (4 ∷ []) refl)),
)

writes_apart_example :
    (two_write.0.mem.write_lock ≡ none → two_write.0.mem.wire ≡ concat two_write.0.mem.frames)
    × ((i : ℕ)
        → has_lock (two_write.0.writers i) ≡ true
        → (two_write.0.mem.wire ≡ concat two_write.0.mem.frames ++ part (two_write.0.writers i))
          × ((j : ℕ) → has_lock (two_write.0.writers j) ≡ true → i ≡ j))
writes_apart_example = writes_apart two_write.1

written : two_write.0.mem.wire ≡ 1 ∷ 2 ∷ 3 ∷ []
written = refl
