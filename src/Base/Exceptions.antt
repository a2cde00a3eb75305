-- ===== src/Base/Exceptions.antt =====
-- C++ exceptions as values, and the state passing style of the server with them.
use mathlib.Core.Option.{Option, none, some}
use irc_chat.Base.Text.{Str}

-- What a call may throw. `null_deref` is no exception but the undefined behaviour of reading
-- through a null or dangling pointer or an empty `optional`; it too ends the run of the model.
pub data Exception : Type 0 where
  parse_error : Str → Exception
  out_of_range bad_variant_access bad_optional_access runtime_error null_deref : Exception

pub data Result {ℓ} (A : Type ℓ) : Type ℓ where
  ok : A → Result A
  throw : Exception → Result A

infixl 5 ◌>>=◌
abbrev pub ◌>>=◌ {ℓ κ} : {A : Type ℓ} {B : Type κ} → Result A → (A → Result B) → Result B
ok a >>= f = f a
throw e >>= f = throw e

abbrev pub or_throw {ℓ} : {A : Type ℓ} → Exception → Option A → Result A
or_throw e none = throw e
or_throw e (some a) = ok a
