-- ===== src/Auth/Jwt/Tests.antt =====
-- A token that is valid until a time, for a layer, and a cache of one token.
use tilegroxy.Base.{
  ℕ, ◌≤◌, true, false, [], ◌∷◌, Option, none, some, some-injective, ◌≡◌, ◌≢◌, refl, sym, ap, ◌∙◌,
  arith, if◌then◌else◌, leb, Text, codes, text_eq, text_eq_iff, contains, passed_if, has_prefix,
  subst,
}
use tilegroxy.Base.Int.{ℤ, pos, negsuc}
use tilegroxy.Base.Strconv.{split, onto_first}
use tilegroxy.Request.{Grants, new_request_context, empty_box}
use tilegroxy.Tile.Tests.{integers}
use tilegroxy.Auth.Jwt.{
  JwtConfig, Claim, text, Token, CachedAuthResult, Libraries, TokenCache, check_without_cache,
  check_token, grant_token, read_claims, validate_scope, scoped_layers, validate_geohash, set_user,
  result_of, is_empty, check_token_text,
}
use tilegroxy.Auth.Jwt.Replay.{EqLaw, GeohashLaw}
use tilegroxy.Auth.Jwt.Refinement.{IsSound, Agrees, check_token_text_iff}
use tilegroxy.Auth.Jwt.Expiration.{ParseLaw}

abbrev pub config : JwtConfig
config = record {
  cache_size = 1;
  key = codes "k";
  algorithm = [];
  algorithms = codes "HS256" ∷ [];
  jwks = none;
  header_name = codes "Authorization";
  max_expiration = 60;
  expected_audience = [];
  expected_subject = [];
  expected_issuer = [];
  expected_scope = [];
  layer_scope = true;
  scope_prefix = codes "tile:";
  user_id = codes "sub";
}

abbrev claims_a : Text → Option Claim
claims_a k =
    if text_eq k (codes "scope")
    then some (text (codes "read tile:a"))
    else if text_eq k (codes "sub")
    then some (text (codes "u"))
    else none

abbrev token_a : Token
token_a = record { exp = some 100; claims = some claims_a }

abbrev pub library : Libraries ℤ
library = record {
  parse = λ c now token. if leb now 100 then some token_a else none;
  validate = λ hash. true;
  bounding_box = λ hash. (pos 0, pos 1, pos 0, pos 1);
}

abbrev pub Entry : Type 0
Entry = Text × CachedAuthResult ℤ

abbrev find_entry : Text → Option Entry → Option (CachedAuthResult ℤ)
find_entry token none = none
find_entry token (some (k, r)) = if text_eq k token then some r else none

abbrev add_entry : Text → CachedAuthResult ℤ → Option Entry → Option Entry
add_entry token r none = some (token, r)
add_entry token r (some e) = some e

abbrev pub one_token : TokenCache ℤ (Option Entry)
one_token = record { get = find_entry; set_if_absent = add_entry }

parsed_later :
    (now : ℕ) (a : Token) (e : ℕ)
    → some token_a ≡ some a
    → a.exp ≡ some e
    → now ≤ e
    → (if leb now 100 then some token_a else none) ≡ some a
parsed_later now a e h k u =
    let p : token_a ≡ a = some-injective _ _ h in
    let q : 100 ≡ e = some-injective _ _ (ap (λ (t : Token). t.exp) p ∙ k) in
    let r : leb now 100 ≡ true = ground arith in rw r h

pub parse_law : ParseLaw library config
parse_law = record {
  same = λ t0 t1 token a b h k.
      some-injective _ _ (sym (passed_if (leb t0 100) h).1)
      ∙ some-injective _ _ (passed_if (leb t1 100) k).1;
  later = λ t0 now token a e h k l u. parsed_later now a e (passed_if (leb t0 100) h).1 k u;
}

pub geohash_law : GeohashLaw integers library
unfolding GeohashLaw
geohash_law hash h = refl

pub eq_law : EqLaw integers
unfolding EqLaw
eq_law (pos a) (pos b) (pos z) h k = ground arith
eq_law (pos a) (pos b) (negsuc z) h k = ground arith
eq_law (pos a) (negsuc b) z h k = ground arith
eq_law (negsuc a) (pos b) (pos z) h k = ground arith
eq_law (negsuc a) (pos b) (negsuc z) h k = ground arith
eq_law (negsuc a) (negsuc b) (pos z) h k = ground arith
eq_law (negsuc a) (negsuc b) (negsuc z) h k = ground arith

pub empty-IsSound : IsSound integers library one_token config 50 none
unfolding IsSound
empty-IsSound token r h = absurd (let z : none ≡ some r = h in cc)

abbrev pub fresh : Grants ℤ
fresh = record {
  limit_layers = false;
  allowed_layers = [];
  allowed_area = record { south = pos 0; north = pos 0; west = pos 0; east = pos 0; srid = 0 };
  limit_area_partial = false;
  user_id = [];
  ref_depth = 0;
}

abbrev pub granted_a : Grants ℤ
granted_a = record fresh {
  limit_layers = true;
  allowed_layers = codes "a" ∷ [];
  user_id = codes "u";
}

abbrev result_a : CachedAuthResult ℤ
result_a = record {
  expiration = 100;
  limit_layers = true;
  allowed_layers = codes "a" ∷ [];
  limit_area_partial = false;
  allowed_area = fresh.allowed_area;
  user_id = codes "u";
}

checked_a :
    check_without_cache library config 50 (codes "t") (new_request_context integers)
    ≡ (some result_a, granted_a)
unfolding check_without_cache check_token grant_token read_claims validate_scope scoped_layers
    validate_geohash set_user result_of split onto_first has_prefix is_empty contains text_eq
    new_request_context empty_box
checked_a = refl

-- The cache after the token has been verified.
abbrev held_a : Option Entry
held_a = some (codes "t", result_a)

held_a-IsSound : IsSound integers library one_token config 60 held_a
unfolding IsSound text_eq
held_a-IsSound token r h =
    let (e, k) = passed_if (text_eq (codes "t") token) h in
    (
      50,
      (
        omega arith,
        subst
            (λ (x : Text).
              (check_without_cache library config 50 x (new_request_context integers)).0 ≡ some r)
            ((text_eq_iff (codes "t") token).0 e) (ap (λ x. x.0) checked_a ∙ k),
      ),
    )

fresh_enough : (r : CachedAuthResult ℤ) → find_entry (codes "t") held_a ≡ some r → r.expiration ≢ 60
unfolding text_eq
fresh_enough r h e =
    let k : 100 ≡ r.expiration =
      ap (λ (x : CachedAuthResult ℤ). x.expiration) (some-injective _ _ h) in
    omega arith

check_token_text_iff_example : Agrees integers library one_token config 60 (codes "t") granted_a (
    check_token_text integers library one_token config 60
      (codes "t")
      (new_request_context integers)
      held_a)
check_token_text_iff_example =
    check_token_text_iff integers library one_token config parse_law geohash_law eq_law 60
      (codes "t") held_a granted_a held_a-IsSound fresh_enough
