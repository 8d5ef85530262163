-- ===== src/Msgp/Fields.antt =====
-- The loop of generated code over the fields of a map: `for n > 0 { n--; read the key; switch … }`.
use fluent_forward_go.Common.{ℕ, zero, suc, [], List, ◌++◌, append-nil, Bytes, ◌<◌, ap, ◌^◌}
use fluent_forward_go.Msgp.Errors.{Context}
use fluent_forward_go.Msgp.Get.{
  Get, read, wrap, pass, ◌>>=◌, ◌>>◌, Takes, Takes-bind, Takes-read, Takes-wrap, Takes-eq,
  Takes-then, Takes-pass,
}
use fluent_forward_go.Msgp.Format.{Wire, Reads, IsShort, IsReader}

-- `at` is the context of its errors, and `field` the switch.
module _ {Intf R : Type 0} (rd : Reads Intf) (at : List Context)
    (field : Bytes → Get R (Unit {0})) where
  unfoldable pub read_fields : ℕ → Get R (Unit {0})
  read_fields zero = pass
  read_fields (suc n) = wrap at (read rd.read_map_key) >>= λ key. field key >> read_fields n

  abbrev pub read_map : Get R (Unit {0})
  read_map = wrap at (read rd.read_map_header) >>= read_fields

module _ {Intf R : Type 0} (w : Wire Intf) (rd : Reads Intf) (laws : IsReader w rd)
    (at : List Context) (field : Bytes → Get R (Unit {0})) where
  pub no_field : (r : R) → Takes (read_fields rd at field 0) [] r tt r
  unfolding read_fields
  no_field r = Takes-pass r

  pub one_field :
      (key value more : Bytes) (n : ℕ) (r s t : R)
      → IsShort key
      → Takes (field key) value r tt s
      → Takes (read_fields rd at field n) more s tt t
      → Takes (read_fields rd at field (suc n)) (w.string key ++ (value ++ more)) r tt t
  unfolding read_fields
  one_field key value more n r s t short h k =
      Takes-bind (wrap at (read rd.read_map_key)) (λ key'. field key' >> read_fields rd at field n)
        (w.string key) (value ++ more)
        (Takes-wrap at (read rd.read_map_key) (w.string key)
          (Takes-read rd.read_map_key (w.string key) r (laws.map_key key short)))
        (Takes-then (field key) (read_fields rd at field n) value more h k)

  pub last_field :
      (key value : Bytes) (r s : R)
      → IsShort key
      → Takes (field key) value r tt s
      → Takes (read_fields rd at field 1) (w.string key ++ value) r tt s
  last_field key value r s short h =
      Takes-eq (read_fields rd at field 1) (ap (λ v. w.string key ++ v) (append-nil value))
        (one_field key value [] 0 r s s short h (no_field s))

  pub map_lem :
      (n : ℕ) (fields : Bytes) (r s : R)
      → n < 2 ^ 32
      → Takes (read_fields rd at field n) fields r tt s
      → Takes (read_map rd at field) (w.map_header n ++ fields) r tt s
  map_lem n fields r s few h =
      Takes-bind (wrap at (read rd.read_map_header)) (read_fields rd at field) (w.map_header n)
        fields
        (Takes-wrap at (read rd.read_map_header) (w.map_header n)
          (Takes-read rd.read_map_header (w.map_header n) r (laws.map_header n few)))
        h
