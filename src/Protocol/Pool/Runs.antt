-- ===== src/Protocol/Pool/Runs.antt =====
-- The theorems on the pool of buffers, applied to an empty pool.
use fluent_forward_go.Common.{
  ℕ, ◌<◌, ◌≡◌, ◌≢◌, refl, false, true, none, some, [], ◌∷◌, pos, arith, All,
}
use fluent_forward_go.Msgp.Model.{wire, writes}
use fluent_forward_go.Msgp.Model.Laws.{wire-IsFormat, writes-IsWriter}
use fluent_forward_go.Protocol.Entries.{EntryList, IsEntryExt}
use fluent_forward_go.Protocol.EventTime.{marshal_binary_to}
use fluent_forward_go.Protocol.Entries.Write.{entry_ext_encode_msg}
use fluent_forward_go.Protocol.Entries.Packed.{marshal_packed}
use fluent_forward_go.Protocol.Pool.{Store, Slice, contents, pooled_marshal_packed}
use fluent_forward_go.Protocol.Pool.Buffers.{IsStore}
use fluent_forward_go.Protocol.Pool.Marshal.{
  pooled_marshal_packed_lem, contents-pooled_marshal_packed,
}

abbrev empty_pool : Store
empty_pool = record { arrays = λ _. []; next = 0; pooled = λ _. false }

empty_pool-IsStore : IsStore empty_pool
empty_pool-IsStore a p = cc

abbrev one : ℕ → EntryList ℕ
one n = record { timestamp = record { unix = pos 5; nanosecond = 7 }; event = n } ∷ []

one-IsEntryExt : (n : ℕ) → All (IsEntryExt wire) (one n)
one-IsEntryExt n = (
  record { time = record { seconds = omega arith; nanoseconds = omega arith }; plain = refl },
  tt,
)

pooled_marshal_packed_lem_example :
    (st : Store) × (s : Slice) × (pooled_marshal_packed
        (λ capacity n. n)
        (λ bs. 0)
        writes
        none
        (one 3)
        empty_pool
      ≡ (st, (some s, none)))
    × (contents st s ≡ (marshal_packed writes (one 3)).0)
    × (st.pooled s.array ≡ true)
    × IsStore st
    × ((t : Slice) → t.array < 0 → none ≢ some t.array → contents st t ≡ contents empty_pool t)
pooled_marshal_packed_lem_example =
    pooled_marshal_packed_lem wire wire-IsFormat writes writes-IsWriter (λ capacity n. n) (λ bs. 0)
      (one 3) none empty_pool (one-IsEntryExt 3) empty_pool-IsStore

contents-pooled_marshal_packed_example :
    (st : Store) × (s : Slice) × (pooled_marshal_packed
        (λ capacity n. n)
        (λ bs. 0)
        writes
        none
        (one 3)
        empty_pool
      ≡ (st, (some s, none)))
    × (contents st s ≡ (marshal_packed writes (one 3)).0)
    × (contents
          (pooled_marshal_packed (λ capacity n. n) (λ bs. 0) writes (some s.array) (one 4) st).0
          s
        ≡ (marshal_packed writes (one 4)).0)
unfolding marshal_packed entry_ext_encode_msg marshal_binary_to
contents-pooled_marshal_packed_example =
    contents-pooled_marshal_packed wire wire-IsFormat writes writes-IsWriter (λ capacity n. n)
      (λ bs. 0) (one 3) (one 4) none empty_pool (one-IsEntryExt 3) (one-IsEntryExt 4)
      empty_pool-IsStore refl
