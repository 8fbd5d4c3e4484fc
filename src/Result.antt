-- ===== src/Result.antt =====
-- What a function that throws returns: its value, or the exception. The constructors of `Error`
-- are the exceptions of the program, named after their messages.
use atomkv.Prelude.{Bool, true, false}

pub data Error : Type 0 where
  not_enough_pages : Error
  txid_overflow : Error
  read_only : Error
  not_atomkv_file : Error
  version_too_high : Error
  database_damaged : Error
  page_size_mismatch : Error
  key_size_exceeded : Error
  value_size_exceeded : Error
  unrecoverable_logs : Error
  invalid_tx : Error
  no_write_transaction : Error
  sync_failed : Error
  invalid_iterator : Error
  size_mismatch : Error
  not_a_sub_bucket : Error
  system_page_size_exceeded : Error
  options_page_size_mismatch : Error

-- A thrown exception, or the value that is returned.
pub data Result {ℓ} (Value : Type ℓ) : Type ℓ where
  err : Error → Result Value
  ok : Value → Result Value

-- if (bad) throw e;
abbrev pub throw_if : Bool → Error → Result (Unit {0})
throw_if false e = ok tt
throw_if true e = err e

infixl 5 ◌>>=◌
-- An exception ends the function; a value goes to the rest of it.
abbrev pub ◌>>=◌ {ℓ κ} : {V : Type ℓ} {W : Type κ} → Result V → (V → Result W) → Result W
err thrown >>= rest = err thrown
ok value >>= rest = rest value

infixl 5 ◌>>◌
abbrev pub ◌>>◌ {ℓ} : {W : Type ℓ} → Result (Unit {0}) → Result W → Result W
statement >> rest = statement >>= (λ done. rest)
