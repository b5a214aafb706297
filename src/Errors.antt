-- ===== src/Errors.antt =====
-- pkg/errors.go, and errorVars of internal/server/error.go. An error is a value of one
-- type: the typed errors of the package, context.Canceled, any other error, and errors.Join of two.
-- Messages for people are left out.
use tilegroxy.Base.{ℕ, Bool, true, false, Option, none, some, if◌then◌else◌, Text, text_eq, codes}
use tilegroxy.Base.Int.{ℤ}

pub data TypeOfError : Type 0 where
  bounds auth provider bad_request other : TypeOfError

pub data Error : Type 0 where
  unauthorized provider_auth : Text → Error
  invalid_content_length : ℤ → Error
  invalid_content_type : Text → Error
  remote_server : ℕ → Error
  invalid_srid : ℕ → Error
  range : Text → ℤ → ℤ → Error
  too_many_tiles : ℕ → Error
  invalid_argument : Text → Error
  canceled : Error
  plain : Text → Error
  joined : Error → Error → Error

or_else {ℓ} : {A : Type ℓ} → Option A → Option A → Option A
or_else none b = b
or_else (some a) b = some a

-- errors.As(err, &te) for a TypedError, with te.Type(): the first in the tree of joined errors.
unfoldable pub type_of : Error → Option TypeOfError
unfolding or_else
type_of (unauthorized m) = some auth
type_of (provider_auth m) = some provider
type_of (invalid_content_length n) = some provider
type_of (invalid_content_type t) = some provider
type_of (remote_server n) = some provider
type_of (invalid_srid n) = some other
type_of (range p lo hi) = some bounds
type_of (too_many_tiles n) = some bad_request
type_of (invalid_argument n) = some bad_request
type_of canceled = none
type_of (plain t) = none
type_of (joined a b) = or_else (type_of a) (type_of b)

-- errors.As(err, &authError) for a ProviderAuthError.
unfoldable pub is_provider_auth : Error → Bool
is_provider_auth (provider_auth m) = true
is_provider_auth (joined a b) = if is_provider_auth a then true else is_provider_auth b
is_provider_auth _ = false

-- errors.Is(err, context.Canceled)
unfoldable pub is_canceled : Error → Bool
is_canceled canceled = true
is_canceled (joined a b) = if is_canceled a then true else is_canceled b
is_canceled _ = false

-- err.Error() == context.Canceled.Error()
unfoldable pub says_canceled : Error → Bool
says_canceled (plain t) = text_eq t (codes "context canceled")
says_canceled _ = false

-- errors.Join of two errors that may be nil.
abbrev pub join : Option Error → Option Error → Option Error
join none b = b
join (some a) none = some a
join (some a) (some b) = some (joined a b)

pub data Level : Type 0 where
  debug info warn : Level

-- errorVars, without the path of the image.
unfoldable pub error_vars : Bool → TypeOfError → ℕ × Level
error_vars always_ok auth = (if always_ok then 200 else 401, debug)
error_vars always_ok bounds = (if always_ok then 200 else 400, debug)
error_vars always_ok provider = (if always_ok then 200 else 500, info)
error_vars always_ok bad_request = (if always_ok then 200 else 400, debug)
error_vars always_ok other = (if always_ok then 200 else 500, warn)
