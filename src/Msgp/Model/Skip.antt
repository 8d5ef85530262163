-- ===== src/Msgp/Model/Skip.antt =====
-- `Skip` of the codec: objects and payload that are pending.
use fluent_forward_go.Common.{
  ℕ, zero, suc, ◌+◌, ◌≡◌, refl, ap, ◌∙◌, subst, inl, inr, Option, none, some, List, [], ◌∷◌, ◌++◌,
  append_assoc, arith, Bytes, Option-cases, length, All, concat,
}
use fluent_forward_go.Msgp.Errors.{Error}
use fluent_forward_go.Msgp.Get.{Step}
use fluent_forward_go.Msgp.Format.{Passes}
use native.Mathlib.Nat.{zero-add, suc-add, add-zero, add_assoc}
use fluent_forward_go.Msgp.Model.{
  Head, an_array, a_map, a_string, a_binary, an_extension, head, bad,
}

abbrev pub children : Head → ℕ
children (an_array n) = n
children (a_map n) = n + n
children _ = 0

abbrev pub payload : Head → ℕ
payload (a_string n) = n
payload (a_binary n) = n
payload (an_extension n) = suc n
payload _ = 0

-- The payload to pass over, and behind it the objects to pass over.
skip_loop : ℕ → ℕ → Bytes → Option Bytes
skip_loop (suc k) p [] = none
skip_loop (suc k) p (b ∷ bs) = skip_loop k p bs
skip_loop zero zero bs = some bs
skip_loop zero (suc p) [] = none
skip_loop zero (suc p) (b ∷ bs) = skip_loop (payload (head b)) (children (head b) + p) bs

abbrev skip_result : Bytes → Option Bytes → Bytes × Option Error
skip_result bs none = (bs, some bad)
skip_result bs (some rest) = (rest, none)

unfoldable pub skip : Step
unfolding skip_loop head
skip bs = skip_result bs (skip_loop 0 1 bs)

skip_loop-append :
    (p : ℕ) (s rest : Bytes) → skip_loop (length s) p (s ++ rest) ≡ skip_loop 0 p rest
unfolding skip_loop
skip_loop-append p [] rest = refl
skip_loop-append p (b ∷ s) rest = skip_loop-append p s rest

skip_loop-add :
    (bs : Bytes) (k p q : ℕ) {rest : Bytes}
    → skip_loop k p bs ≡ some rest
    → skip_loop k (p + q) bs ≡ skip_loop 0 q rest
unfolding skip_loop
skip_loop-add [] (suc k) p q h = cc
skip_loop-add (b ∷ bs) (suc k) p q h = skip_loop-add bs k p q h
skip_loop-add bs zero zero q {rest} h = rw zero-add (ap (skip_loop 0 q) same_rest)
  where
    same_rest : bs ≡ rest
    same_rest = cc
skip_loop-add [] zero (suc p) q h = cc
skip_loop-add (b ∷ bs) zero (suc p) q {rest} h = rw (suc-add p q) (
    subst (λ n. skip_loop (payload (head b)) n bs ≡ skip_loop 0 q rest)
      (add_assoc (children (head b)) p q)
      (skip_loop-add bs (payload (head b)) (children (head b) + p) q h))

skip_inv : (bs rest : Bytes) → skip bs ≡ (rest, none) → skip_loop 0 1 bs ≡ some rest
unfolding skip
skip_inv bs rest h = elim (Option-cases (skip_loop 0 1 bs)) [
  | inl e ↦ absurd (not_skipped e)
  | inr (r, e) ↦ e ∙ ap some (ap (λ (t : Bytes × Option Error). t.0) (rw e at h))
]
  where
    not_skipped : skip_loop 0 1 bs ≡ none → ⊥
    not_skipped e = cc (ap (λ (t : Bytes × Option Error). t.1) (rw e at h))

pub skip_one :
    (b : ℕ) (s rest : Bytes)
    → children (head b) ≡ 0
    → payload (head b) ≡ length s
    → skip ((b ∷ s) ++ rest) ≡ (rest, none)
unfolding skip
skip_one b s rest hc hp = ap (skip_result ((b ∷ s) ++ rest)) passed
  where
    passed : skip_loop 0 1 ((b ∷ s) ++ rest) ≡ some rest
    passed = rw (skip_loop, hc, hp) (skip_loop-append 0 s rest)

objects_lem :
    (objects : List Bytes) (rest : Bytes)
    → All (Passes skip) objects
    → skip_loop 0 (length objects) (concat objects ++ rest) ≡ some rest
objects_lem [] rest h = unfold skip_loop in refl
objects_lem (o ∷ objects) rest h = rw append_assoc (
    subst (λ n. skip_loop 0 n (o ++ (concat objects ++ rest)) ≡ some rest) one_more
      (skip_loop-add (o ++ (concat objects ++ rest)) 0 1 (length objects)
          (skip_inv _ (concat objects ++ rest) (h.0 (concat objects ++ rest)))
        ∙ objects_lem objects rest h.1))
  where
    one_more : 1 + length objects ≡ suc (length objects)
    one_more = omega arith

pub skip_array :
    (b : ℕ) (objects : List Bytes)
    → head b ≡ an_array (length objects)
    → All (Passes skip) objects
    → Passes skip ((b ∷ []) ++ concat objects)
unfolding skip skip_loop
skip_array b objects e h rest = ap (skip_result (((b ∷ []) ++ concat objects) ++ rest)) passed
  where
    passed : skip_loop 0 1 (((b ∷ []) ++ concat objects) ++ rest) ≡ some rest
    passed = rw (skip_loop, e, add-zero) (objects_lem objects rest h)
