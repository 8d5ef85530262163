-- ===== src/Msgp/Get.antt =====
-- Programs that read: `DecodeMsg` on a `msgp.Reader`, and `UnmarshalMsg` on a byte slice.
-- A reader is the bytes that it has not delivered. The object that is filled is a state `R`,
-- which keeps what was assigned before an error.
use fluent_forward_go.Common.{
  ℕ, ◌≡◌, refl, ap, subst, Option, none, some, List, [], ◌++◌, append_assoc, Bytes, ◌⊎◌, inl, inr,
  if◌then◌else◌, ◌==◌, ◌∷◌,
}
use fluent_forward_go.Msgp.Errors.{Context, Error, wrapped, name}

pub data Outcome (R A : Type 0) : Type 0 where
  done : A → R → Bytes → Outcome R A
  failed : Error → R → Bytes → Outcome R A

abbrev pub Get : Type 0 → Type 0 → Type 0
Get R A = R → Bytes → Outcome R A

pub Outcome-cases :
    {R : Type 0} (o : Outcome R (Unit {0}))
    → ((r : R) × ((bs : Bytes) × (o ≡ done tt r bs)))
      ⊎ ((e : Error) × ((r : R) × ((bs : Bytes) × (o ≡ failed e r bs))))
Outcome-cases (done u r bs) = inl (r, (bs, refl))
Outcome-cases (failed e r bs) = inr (e, (r, (bs, refl)))

-- What a function of the package returns: a value, the bytes left, and the error if there is one.
abbrev pub Read : Type 0 → Type 0
Read A = Bytes → A × Bytes × Option Error

-- The same with no value.
abbrev pub Step : Type 0
Step = Bytes → Bytes × Option Error

module _ {R A : Type 0} where
  abbrev pub assigned : (A → R → R) → R → A × Bytes × Option Error → Outcome R (Unit {0})
  assigned put r (a, bs, none) = done tt (put a r) bs
  assigned put r (a, bs, some e) = failed e (put a r) bs
      -- `r.f, err = read()`: the field is assigned also where there is an error.

  abbrev pub read_into : Read A → (A → R → R) → Get R (Unit {0})
  read_into rd put r bs = assigned put r (rd bs)

  abbrev pub returned : R → A × Bytes × Option Error → Outcome R A
  returned r (a, bs, none) = done a r bs
  returned r (a, bs, some e) = failed e r bs

  -- `x, err = read()` into a local variable.
  abbrev pub read : Read A → Get R A
  read rd r bs = returned r (rd bs)

  -- A look at the bytes that consumes none.
  abbrev pub peek : (Bytes → A) → Get R A
  peek f r bs = done (f bs) r bs

  abbrev pub fail : Error → Get R A
  fail e r bs = failed e r bs

  abbrev pub wrap_outcome : List Context → Outcome R A → Outcome R A
  wrap_outcome c (done a r bs) = done a r bs
  wrap_outcome c (failed e r bs) = failed (wrapped c e) r bs

  -- `msgp.WrapError(err, …)`
  abbrev pub wrap : List Context → Get R A → Get R A
  wrap c m r bs = wrap_outcome c (m r bs)

  abbrev pub map_error_outcome : (Error → Error) → Outcome R A → Outcome R A
  map_error_outcome f (done a r bs) = done a r bs
  map_error_outcome f (failed e r bs) = failed (f e) r bs

  abbrev pub map_error : (Error → Error) → Get R A → Get R A
  map_error f m r bs = map_error_outcome f (m r bs)

  abbrev pub nil_outcome : Outcome R A → Outcome R A
  nil_outcome (done a r bs) = done a r bs
  nil_outcome (failed e r bs) = failed e r []

  -- A generated `UnmarshalMsg` sets its result `o` only at its end: on an error it returns nil.
  abbrev pub nil_on_error : Get R A → Get R A
  nil_on_error m r bs = nil_outcome (m r bs)

module _ {R : Type 0} where
  abbrev pub stepped : R → Bytes × Option Error → Outcome R (Unit {0})
  stepped r (bs, none) = done tt r bs
  stepped r (bs, some e) = failed e r bs

  abbrev pub act : Step → Get R (Unit {0})
  act f r bs = stepped r (f bs)

  abbrev pub update : (R → R) → Get R (Unit {0})
  update f r bs = done tt (f r) bs

  abbrev pub pass : Get R (Unit {0})
  pass r bs = done tt r bs

infixl 5 ◌>>=◌ ◌>>◌
abbrev pub ◌>>=◌ : {R A B : Type 0} → Get R A → (A → Get R B) → Get R B
◌>>=◌ m f r bs = elim (m r bs) [ done a r' bs' ↦ f a r' bs' | failed e r' bs' ↦ failed e r' bs' ]

abbrev pub ◌>>◌ : {R B : Type 0} → Get R (Unit {0}) → Get R B → Get R B
m >> k = m >>= λ _. k

-- A program on a part of the object.
module _ {R S A : Type 0} where
  abbrev pub put_back : (S → R → R) → R → Outcome S A → Outcome R A
  put_back put r (done a s bs) = done a (put s r) bs
  put_back put r (failed e s bs) = failed e (put s r) bs

  abbrev pub zoom : (R → S) → (S → R → R) → Get S A → Get R A
  zoom get put m r bs = put_back put r (m (get r) bs)

-- `m` consumes exactly `bs`, whatever follows it, takes `r` to `r'` and returns `a`.
abbrev pub Takes : {R A : Type 0} → Get R A → Bytes → R → A → R → Type 0
Takes m bs r a r' = (rest : Bytes) → m r (bs ++ rest) ≡ done a r' rest

module _ {R A B : Type 0} where
  pub Takes-bind :
      (m : Get R A) (f : A → Get R B) (bs cs : Bytes) {r s t : R} {a : A} {b : B}
      → Takes m bs r a s
      → Takes (f a) cs s b t
      → Takes (m >>= f) (bs ++ cs) r b t
  Takes-bind m f bs cs {r} hm hf rest =
      rw (append_assoc bs cs rest, hm (cs ++ rest), ◌>>=◌) (hf rest)

  pub Takes-peek :
      (f : Bytes → A) (g : A → Get R B) (bs : Bytes) {r s : R} {a : A} {b : B}
      → ((rest : Bytes) → f (bs ++ rest) ≡ a)
      → Takes (g a) bs r b s
      → Takes (peek f >>= g) bs r b s
  Takes-peek f g bs h k rest = rw (h rest) (k rest)

module _ {R A : Type 0} where
  pub Takes-read :
      (rd : Read A) (bs : Bytes) (r : R) {a : A}
      → ((rest : Bytes) → rd (bs ++ rest) ≡ (a, rest, none))
      → Takes (read rd) bs r a r
  Takes-read rd bs r h rest = ap (returned r) (h rest)

  pub Takes-read_into :
      (rd : Read A) (put : A → R → R) (bs : Bytes) (r : R) {a : A}
      → ((rest : Bytes) → rd (bs ++ rest) ≡ (a, rest, none))
      → Takes (read_into rd put) bs r tt (put a r)
  Takes-read_into rd put bs r h rest = ap (assigned put r) (h rest)

  pub Takes-wrap :
      (c : List Context) (m : Get R A) (bs : Bytes) {r s : R} {a : A}
      → Takes m bs r a s
      → Takes (wrap c m) bs r a s
  Takes-wrap c m bs h rest = ap (wrap_outcome c) (h rest)

  pub Takes-map_error :
      (f : Error → Error) (m : Get R A) (bs : Bytes) {r s : R} {a : A}
      → Takes m bs r a s
      → Takes (map_error f m) bs r a s
  Takes-map_error f m bs h rest = ap (map_error_outcome f) (h rest)

  pub Takes-nil_on_error :
      (m : Get R A) (bs : Bytes) {r s : R} {a : A}
      → Takes m bs r a s
      → Takes (nil_on_error m) bs r a s
  Takes-nil_on_error m bs h rest = ap nil_outcome (h rest)

module _ {R : Type 0} where
  pub Takes-act :
      (f : Step) (bs : Bytes) (r : R)
      → ((rest : Bytes) → f (bs ++ rest) ≡ (rest, none))
      → Takes (act f) bs r tt r
  Takes-act f bs r h rest = ap (stepped r) (h rest)

module _ {R S A : Type 0} where
  pub Takes-zoom :
      (get : R → S) (put : S → R → R) (m : Get S A) (bs : Bytes) (r : R) {s : S} {a : A}
      → Takes m bs (get r) a s
      → Takes (zoom get put m) bs r a (put s r)
  Takes-zoom get put m bs r h rest = ap (put_back put r) (h rest)

module _ {R : Type 0} where
  pub Takes-update : (f : R → R) (r : R) → Takes (update f) [] r tt (f r)
  Takes-update f r rest = refl

  pub Takes-pass : (r : R) → Takes pass [] r tt r
  Takes-pass r rest = refl

-- What is taken, written in another way.
pub Takes-eq :
    {R A : Type 0} (m : Get R A) {bs cs : Bytes} {r s : R} {a : A}
    → bs ≡ cs
    → Takes m bs r a s
    → Takes m cs r a s
Takes-eq m {r} {s} {a} e h = subst (λ x. Takes m x r a s) e h

-- The commonest steps: a field that is read, and an object that is passed over.
module _ {R A : Type 0} where
  pub Takes-into :
      (c : List Context) (rd : Read A) (put : A → R → R) (bs : Bytes) (r : R) {a : A}
      → ((rest : Bytes) → rd (bs ++ rest) ≡ (a, rest, none))
      → Takes (wrap c (read_into rd put)) bs r tt (put a r)
  Takes-into c rd put bs r h = Takes-wrap c (read_into rd put) bs (Takes-read_into rd put bs r h)

module _ {R : Type 0} where
  pub Takes-skip :
      (c : List Context) (f : Step) (bs : Bytes) (r : R)
      → ((rest : Bytes) → f (bs ++ rest) ≡ (rest, none))
      → Takes (wrap c (act f)) bs r tt r
  Takes-skip c f bs r h = Takes-wrap c (act f) bs (Takes-act f bs r h)

module _ {R B : Type 0} where
  pub Takes-then :
      (m : Get R (Unit {0})) (k : Get R B) (bs cs : Bytes) {r s t : R} {b : B}
      → Takes m bs r tt s
      → Takes k cs s b t
      → Takes (m >> k) (bs ++ cs) r b t
  Takes-then m k bs cs hm hk = Takes-bind m (λ _. k) bs cs hm hk

-- A header, fields, and a last element that depends on the header, each with what it takes.
module _ {R N : Type 0} where
  pub Takes-fields₂ :
      (h : Get R N) (p q : Get R (Unit {0})) (t : N → Get R (Unit {0})) (a b c d : Bytes) (n : N)
      (r s u v : R)
      → Takes h a r n r
      → Takes p b r tt s
      → Takes q c s tt u
      → Takes (t n) d u tt v
      → Takes (h >>= λ k. p >> (q >> t k)) (a ++ (b ++ (c ++ d))) r tt v
  Takes-fields₂ h p q t a b c d n r s u v hh hp hq ht =
      Takes-bind h (λ k. p >> (q >> t k)) a (b ++ (c ++ d)) hh
        (Takes-then p (q >> t n) b (c ++ d) hp (Takes-then q (t n) c d hq ht))

  pub Takes-fields₃ :
      (h : Get R N) (p q x : Get R (Unit {0})) (t : N → Get R (Unit {0})) (a b c d e : Bytes)
      (n : N) (r s u v z : R)
      → Takes h a r n r
      → Takes p b r tt s
      → Takes q c s tt u
      → Takes x d u tt v
      → Takes (t n) e v tt z
      → Takes (h >>= λ k. p >> (q >> (x >> t k))) (a ++ (b ++ (c ++ (d ++ e)))) r tt z
  Takes-fields₃ h p q x t a b c d e n r s u v z hh hp hq hx ht =
      Takes-bind h (λ k. p >> (q >> (x >> t k))) a (b ++ (c ++ (d ++ e))) hh
        (Takes-then p (q >> (x >> t n)) b (c ++ (d ++ e)) hp
          (Takes-then q (x >> t n) c (d ++ e) hq (Takes-then x (t n) d e hx ht)))

-- The array header of a message.
module _ {R : Type 0} where
  abbrev pub header : Read ℕ → Get R ℕ
  header rd = wrap (name "Array Header" ∷ []) (read rd)

  pub header_lem :
      (rd : Read ℕ) (bs : Bytes) (n : ℕ) (r : R)
      → ((rest : Bytes) → rd (bs ++ rest) ≡ (n, rest, none))
      → Takes (header rd) bs r n r
  header_lem rd bs n r h = Takes-wrap (name "Array Header" ∷ []) (read rd) bs (Takes-read rd bs r h)

  -- Where the array has the length `full`, it has a last element.
  abbrev pub last_if : ℕ → Get R (Unit {0}) → ℕ → Get R (Unit {0})
  last_if full tail sz = if sz == full then tail else pass
