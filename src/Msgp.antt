-- ===== src/Msgp.antt =====
-- The package github.com/tinylib/msgp, which is not part of the repository, as the code uses it:
-- its format, the methods of `msgp.Writer` and `msgp.Reader`, and the functions on byte slices.
-- Each is an argument of the definitions that call it; the laws of the children `Format`, `Put`
-- and `Get` are its documented behaviour.
pub mod Errors
pub mod Put
pub mod Get
pub mod Format
pub mod Fields
pub mod Model
