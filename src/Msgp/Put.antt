-- ===== src/Msgp/Put.antt =====
-- Programs that write: `EncodeMsg` on a `msgp.Writer`, and `MarshalMsg` on a byte slice.
-- A writer is what it has been given so far, and a slice grows at its end.
use fluent_forward_go.Common.{
  ℕ, ◌≡◌, refl, sym, ap, ◌∙◌, subst, Bool, List, [], ◌++◌, append_assoc, append-nil, Bytes, ℤ,
}
use fluent_forward_go.Msgp.Errors.{Context, Error, wrapped}

-- What came of a write: the bytes so far, and the error if there is one.
pub data Written : Type 0 where
  wrote : Bytes → Written
  broke : Error → Bytes → Written

abbrev pub Put : Type 0
Put = Bytes → Written

-- `if err != nil { return }` between two writes.
infixl 5 ◌>>◌
abbrev pub ◌>>◌ : Put → Put → Put
◌>>◌ p q out = elim (p out) [ wrote out' ↦ q out' | broke e out' ↦ broke e out' ]

abbrev pub wrap_written : List Context → Written → Written
wrap_written c (wrote out) = wrote out
wrap_written c (broke e out) = broke (wrapped c e) out

-- `msgp.WrapError(err, …)` on the error of one write.
abbrev pub wrap : List Context → Put → Put
wrap c p out = wrap_written c (p out)

-- A function that appends and has no error, such as `msgp.AppendString`.
abbrev pub total : (Bytes → Bytes) → Put
total f out = wrote (f out)

-- `append(o, …)`
abbrev pub literal : Bytes → Put
literal bs = total (λ out. out ++ bs)

-- Nothing to write.
abbrev pub nothing : Put
nothing out = wrote out

-- The methods of `msgp.Writer`.
pub record Writes (Intf : Type 0) : Type 0 where
  pub append : Bytes → Put
  pub write : Bytes → Put
  pub write_array_header : ℕ → Put
  pub write_string : Bytes → Put
  pub write_bytes : Bytes → Put
  pub write_int64 : ℤ → Put
  pub write_int : ℤ → Put
  pub write_bool : Bool → Put
  pub write_nil : Put
  pub write_intf : Intf → Put
  pub write_extension : ℕ → Bytes → Put

-- The functions `msgp.Append…`; the slice is the last argument. `msgp.Require` changes the
-- capacity of a slice only, and the model has no capacities.
pub record Appends (Intf : Type 0) : Type 0 where
  pub append_array_header : ℕ → Bytes → Bytes
  pub append_string : Bytes → Bytes → Bytes
  pub append_bytes : Bytes → Bytes → Bytes
  pub append_int64 : ℤ → Bytes → Bytes
  pub append_int : ℤ → Bytes → Bytes
  pub append_bool : Bool → Bytes → Bytes
  pub append_nil : Bytes → Bytes
  pub append_intf : Intf → Put
  pub append_extension : ℕ → Bytes → Put

-- `p` adds `bs` and meets no error.
abbrev pub Emits : Put → Bytes → Type 0
Emits p bs = (out : Bytes) → p out ≡ wrote (out ++ bs)

pub Emits-seq : (p q : Put) (bs cs : Bytes) → Emits p bs → Emits q cs → Emits (p >> q) (bs ++ cs)
Emits-seq p q bs cs hp hq out =
    rw (hp out, ◌>>◌) (hq (out ++ bs) ∙ ap wrote (append_assoc out bs cs))

pub Emits-wrap : (c : List Context) (p : Put) (bs : Bytes) → Emits p bs → Emits (wrap c p) bs
Emits-wrap c p bs h out = ap (wrap_written c) (h out)

pub Emits-literal : (bs : Bytes) → Emits (literal bs) bs
Emits-literal bs out = refl

pub Emits-nothing : Emits nothing []
Emits-nothing out = ap wrote (sym (append-nil out))

pub Emits-total :
    (f : Bytes → Bytes) (bs : Bytes) → ((out : Bytes) → f out ≡ out ++ bs) → Emits (total f) bs
Emits-total f bs h out = ap wrote (h out)

pub Emits-eq : (p : Put) {bs cs : Bytes} → bs ≡ cs → Emits p bs → Emits p cs
Emits-eq p e h = subst (Emits p) e h
