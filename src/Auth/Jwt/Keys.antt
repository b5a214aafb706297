-- ===== src/Auth/Jwt/Keys.antt =====
-- internal/authentications/jwt.go and jwks.go: the key that verifies a token. A set of keys is a
-- parameter, and so is reading a key.
use tilegroxy.Base.{
  ℕ, zero, Bool, true, false, not, List, Option, none, some, if◌then◌else◌, ◌==◌, Text, codes,
  text_eq, index, contains,
}
use tilegroxy.Auth.Jwt.{is_empty}

pub data Parser : Type 0 where
  bytes : Parser
  rsa_pem : Parser
  ec_pem : Parser
  ed_pem : Parser

unfoldable pub at_start : Text → Text → Bool
at_start s sub = elim (index s sub) [ some zero ↦ true | _ ↦ false ]

-- What parseKey reads the key with, from the first algorithm.
unfoldable pub parse_key : Text → Option Parser
unfolding at_start
parse_key alg =
    if at_start alg (codes "HS")
    then some bytes
    else if at_start alg (codes "RS")
    then some rsa_pem
    else if at_start alg (codes "ES")
    then some ec_pem
    else if at_start alg (codes "PS")
    then some rsa_pem
    else if text_eq alg (codes "EdDSA")
    then some ed_pem
    else none

-- A key of a set: whether it is of type OctetSeq, its algorithm, and its exported public key, if
-- that succeeds.
pub record Key (K : Type 0) : Type 0 where
  pub octet_seq : Bool
  pub algorithm : Option Text
  pub public : Option K

-- jwk.Set
pub record KeySets (S K : Type 0) : Type 0 where
  pub lookup_key_id : Text → S → Option (Key K)
  pub len : S → ℕ
  pub key_at : ℕ → S → Option (Key K)

unfoldable pub check_key_algorithm : {K : Type 0} → List Text → Key K → Bool
check_key_algorithm algorithms key = elim key.algorithm [
  | none ↦ false
  | some alg ↦ if key.octet_seq then false else contains algorithms alg
]

module _ {S K : Type 0} (sets : KeySets S K) where
  unfoldable pub lookup_key : S → Text → Option (Key K)
  unfolding is_empty
  lookup_key set kid =
      if not (is_empty kid)
      then sets.lookup_key_id kid set
      else if not (sets.len set == 1)
      then none
      else sets.key_at 0 set

  unfoldable pub use_key : List Text → Option (Key K) → Option K
  unfolding check_key_algorithm
  use_key algorithms none = none
  use_key algorithms (some key) = if check_key_algorithm algorithms key then key.public else none

  -- keyFor, on what the cache's lookup and its refresh give
  unfoldable pub key_for : List Text → Option S → Option S → Text → Option K
  unfolding lookup_key use_key
  key_for algorithms none refreshed kid = none
  key_for algorithms (some set) refreshed kid = elim (lookup_key set kid) [
    | some key ↦ use_key algorithms (some key)
    | none ↦ elim refreshed [ none ↦ none | some other ↦ use_key algorithms (lookup_key other kid) ]
  ]
