-- ===== src/Msgp/Errors.antt =====
-- Go's error values, as far as the code builds or wraps them.
use fluent_forward_go.Common.{ℕ, String, List, Bytes}

-- An argument of `msgp.WrapError` behind the error.
pub data Context : Type 0 where
  name : String → Context
  index : ℕ → Context

pub data Error : Type 0 where
  -- an error that a package outside the repository made
  foreign : ℕ → Error
  -- `msgp.ArrayError`
  array_error : ℕ → ℕ → Error
  -- `errors.New`, or `fmt.Errorf` with no error to wrap
  text : String → Error
  -- `fmt.Errorf` with strings to fill in
  formatted : String → List Bytes → Error
  -- `fmt.Errorf("…: %w", err)`
  prefixed : String → Error → Error
  -- `msgp.WrapError`
  wrapped : List Context → Error → Error
