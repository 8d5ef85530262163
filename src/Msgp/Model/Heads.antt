-- ===== src/Msgp/Model/Heads.antt =====
-- What the headers of the codec are read as.
use fluent_forward_go.Common.{
  ℕ, ◌+◌, ◌-◌, ◌/◌, ◌%◌, ◌<◌, ◌≡◌, refl, inl, inr, Bool, true, false, arith, ltb, ltb→lt,
  Bool-cases, ℤ, pos, negsuc,
}
use fluent_forward_go.Msgp.Model.{
  an_array, a_map, a_string, an_int, a_bool, head, wide, array_number, map_number, string_number,
  int_number, bool_number, wide_head,
}

wide_div : (n c : ℕ) → c < 8 → (wide n c - 256) / 8 ≡ n
wide_div n c h = ground arith

wide_mod : (n c : ℕ) → c < 8 → (wide n c - 256) % 8 ≡ c
wide_mod n c h = ground arith

pub head-wide : (n c : ℕ) → c < 8 → head (wide n c) ≡ wide_head n c
unfolding head
head-wide n c h = ground (arith, wide_div n c h, wide_mod n c h)

pub head-fix_array : (n : ℕ) → n < 16 → head (0x90 + n) ≡ an_array n
unfolding head
head-fix_array n h = ground arith

pub head-fix_map : (n : ℕ) → n < 16 → head (0x80 + n) ≡ a_map n
unfolding head
head-fix_map n h = ground arith

pub head-fix_string : (n : ℕ) → n < 32 → head (0xa0 + n) ≡ a_string n
unfolding head
head-fix_string n h = ground arith

pub head-array : (n : ℕ) → head (array_number n) ≡ an_array n
head-array n = elim (Bool-cases (ltb n 16)) [
  | inl e ↦ rw e (head-fix_array n (ltb→lt n 16 e))
  | inr e ↦ rw e (head-wide n 0 (omega arith))
]

pub head-map : (n : ℕ) → head (map_number n) ≡ a_map n
head-map n = elim (Bool-cases (ltb n 16)) [
  | inl e ↦ rw e (head-fix_map n (ltb→lt n 16 e))
  | inr e ↦ rw e (head-wide n 1 (omega arith))
]

pub head-string : (n : ℕ) → head (string_number n) ≡ a_string n
head-string n = elim (Bool-cases (ltb n 32)) [
  | inl e ↦ rw e (head-fix_string n (ltb→lt n 32 e))
  | inr e ↦ rw e (head-wide n 2 (omega arith))
]

pub head-int : (i : ℤ) → head (int_number i) ≡ an_int i
head-int (pos n) = head-wide n 5 (omega arith)
head-int (negsuc n) = head-wide n 6 (omega arith)

pub head-bool : (b : Bool) → head (bool_number b) ≡ a_bool b
unfolding head
head-bool true = refl
head-bool false = refl
