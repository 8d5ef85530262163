-- ===== src/Protocol/Entries/Equal.antt =====
-- `EntryList.Equal` of fluent/protocol/transport.go.
use fluent_forward_go.Common.{
  ℕ, ◌+◌, ◌≤◌, ◌≡◌, ◌↔◌, refl, ap, Bool, true, false, ◌&&◌, if◌then◌else◌, ◌==◌, ==_iff, [], ◌∷◌,
  length, All, ℤ, pos, negsuc, arith, Bool-cases, inl, inr,
}
use fluent_forward_go.Protocol.EventTime.{EventTime}
use fluent_forward_go.Protocol.Entries.{EntryExt, EntryList}

abbrev pub same_int : ℤ → ℤ → Bool
same_int (pos m) (pos n) = m == n
same_int (negsuc m) (negsuc n) = m == n
same_int _ _ = false

-- `time.Time.Equal`: the same instant.
abbrev pub same_time : EventTime → EventTime → Bool
same_time a b = same_int a.unix b.unix && a.nanosecond == b.nanosecond

-- `deep_equal` is `reflect.DeepEqual` on records.
module _ {Intf : Type 0} (deep_equal : Intf → Intf → Bool) where
  abbrev pub matching : EntryExt Intf → EntryExt Intf → Bool
  matching ea eb =
      if same_time ea.timestamp eb.timestamp then deep_equal ea.event eb.event else false

  -- The inner loop, with `matches`.
  count_from : ℕ → EntryExt Intf → EntryList Intf → ℕ
  count_from matches ea [] = matches
  count_from matches ea (eb ∷ second) =
      count_from (if matching ea eb then matches + 1 else matches) ea second

  -- The outer loop.
  pairs_from : ℕ → EntryList Intf → EntryList Intf → ℕ
  pairs_from matches [] second = matches
  pairs_from matches (ea ∷ first) second = pairs_from (count_from matches ea second) first second

  unfoldable pub equal : EntryList Intf → EntryList Intf → Bool
  unfolding count_from pairs_from
  equal el e2 = if length el == length e2 then pairs_from 0 el e2 == length el else false

  -- No entry matches a later one.
  abbrev pub AreDistinct : EntryList Intf → Type 0
  AreDistinct [] = Unit {0}
  AreDistinct (e ∷ es) = All (λ x. matching e x ≡ false) es × AreDistinct es

  abbrev bit : Bool → ℕ
  bit b = if b then 1 else 0

  counted :
      (m : ℕ) (e : EntryExt Intf) (es : EntryList Intf) → count_from m e es ≡ m + count_from 0 e es
  unfolding count_from
  counted m e [] = omega arith
  counted m e (x ∷ es) = elim (Bool-cases (matching e x)) [
    | inl q ↦ rw q (omega (arith, counted (m + 1) e es, counted 1 e es))
    | inr q ↦ rw q (counted m e es)
  ]

  count_cons :
      (e x : EntryExt Intf) (es : EntryList Intf)
      → count_from 0 e (x ∷ es) ≡ bit (matching e x) + count_from 0 e es
  unfolding count_from
  count_cons e x es = elim (Bool-cases (matching e x)) [
    | inl q ↦ rw q (counted 1 e es)
    | inr q ↦ rw q (omega arith)
  ]

  paired : (m : ℕ) (xs ys : EntryList Intf) → pairs_from m xs ys ≡ m + pairs_from 0 xs ys
  unfolding pairs_from
  paired m [] ys = omega arith
  paired m (x ∷ xs) ys =
      omega
        (arith, paired (count_from m x ys) xs ys, paired (count_from 0 x ys) xs ys, counted m x ys)

  module _ (symmetric : (a b : EntryExt Intf) → matching a b ≡ matching b a)
      (reflexive : (a : EntryExt Intf) → matching a a ≡ true) where
    pairs_cons :
        (xs : EntryList Intf) (y : EntryExt Intf) (ys : EntryList Intf)
        → pairs_from 0 xs (y ∷ ys) ≡ count_from 0 y xs + pairs_from 0 xs ys
    unfolding pairs_from
    pairs_cons [] y ys = unfold count_from in refl
    pairs_cons (x ∷ xs) y ys = omega (
      arith,
      paired (count_from 0 x (y ∷ ys)) xs (y ∷ ys),
      paired (count_from 0 x ys) xs ys,
      count_cons x y ys,
      count_cons y x xs,
      pairs_cons xs y ys,
      ap bit (symmetric x y),
    )

    pairs_self :
        (e : EntryExt Intf) (es : EntryList Intf)
        → pairs_from 0 (e ∷ es) (e ∷ es)
          ≡ 1 + (count_from 0 e es + count_from 0 e es) + pairs_from 0 es es
    unfolding pairs_from
    pairs_self e es = omega (
      arith,
      paired (count_from 0 e (e ∷ es)) es (e ∷ es),
      count_cons e e es,
      pairs_cons es e es,
      ap bit (reflexive e),
    )

    none_counted :
        (e : EntryExt Intf) (es : EntryList Intf)
        → (count_from 0 e es ≡ 0) ↔ All (λ x. matching e x ≡ false) es
    none_counted e [] = (λ _. tt, λ _. unfold count_from in refl)
    none_counted e (x ∷ es) =
        let (f, g) = none_counted e es in
        elim (Bool-cases (matching e x)) [
          | inl q ↦ (
            λ h. absurd (omega (arith, count_cons e x es, ap bit q)),
            λ h. absurd (omega (arith, ap bit q, ap bit h.0)),
          )
          | inr q ↦ (
            λ h. (q, f (omega (arith, count_cons e x es))),
            λ h. omega (arith, count_cons e x es, ap bit q, g h.1),
          )
        ]

    at_least : (es : EntryList Intf) → length es ≤ pairs_from 0 es es
    at_least [] = unfold pairs_from in omega arith
    at_least (e ∷ es) = omega (arith, pairs_self e es, at_least es)

    exact_iff : (es : EntryList Intf) → (pairs_from 0 es es ≡ length es) ↔ AreDistinct es
    exact_iff [] = (λ _. tt, λ _. unfold pairs_from in refl)
    exact_iff (e ∷ es) =
        let (f, g) = exact_iff es in
        let (p, q) = none_counted e es in
        (
          λ h. (
            p (omega (arith, pairs_self e es, at_least es)),
            f (omega (arith, pairs_self e es, at_least es)),
          ),
          λ h. omega (arith, pairs_self e es, q h.0, g h.1),
        )

    -- EntryList.Equal finds a list equal to itself exactly where no entry of it matches a later
    -- one, where the comparison of entries is symmetric and each entry matches itself.
    pub equal-AreDistinct : (es : EntryList Intf) → (equal es es ≡ true) ↔ AreDistinct es
    unfolding equal
    equal-AreDistinct es =
        let (f, g) = exact_iff es in
        let (p, q) = ==_iff (pairs_from 0 es es) (length es) in
        rw ((==_iff (length es) (length es)).1 refl) (λ h. f (p h), λ h. q (g h))
