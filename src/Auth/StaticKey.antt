-- ===== src/Auth/StaticKey.antt =====
-- internal/authentications/static_key.go: the static key. The random key that is made when none is
-- configured is an argument.
pub mod Tests
use tilegroxy.Base.{
  Bool, false, List, [], ◌∷◌, ◌++◌, Option, none, some, if◌then◌else◌, Text, codes, text_eq, lookup,
}
use tilegroxy.Server.Response.{Header}

-- Initialize: the key that is in use.
unfoldable pub static_key : Text → Text → Text
static_key random key = if text_eq key [] then random else key

-- CheckAuthentication, on the header of a request
unfoldable pub check_static_key : Text → Header → Bool
check_static_key key h = elim (lookup (codes "Authorization") h) [
  | some (v ∷ vs) ↦ text_eq v (codes "Bearer " ++ key)
  | _ ↦ false
]
