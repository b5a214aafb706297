-- ===== src/Auth/Jwt/Confusion.antt =====
-- The algorithms and the keys that a JWT which was set up verifies tokens with.
pub mod Tests
use tilegroxy.Base.{
  true, false, not, ◌&&◌, List, [], ◌∷◌, Option, none, some, some-injective, if◌then◌else◌, ◌==◌,
  ◌≡◌, inl, inr, refl, sym, ap, ◌∙◌, subst, arith, Bool-cases, Option-cases, All, passed_unless,
  passed_if, true_unless, true_if, Text, codes, text_eq, text_eq_iff, has_prefix, index, contains,
}
use tilegroxy.Auth.Jwt.{JwtConfig, is_empty}
use tilegroxy.Auth.Jwt.Setup.{
  valid_algorithms, all_valid, no_algorithms, resolve_algorithms, algorithm_family, same_family,
  one_family, Services, check_keys, with_defaults, initialize,
}
use tilegroxy.Auth.Jwt.Keys.{
  Parser, bytes, rsa_pem, ec_pem, ed_pem, parse_key, at_start, Key, KeySets,
}

-- What all of a list have, one that the list contains has.
All-contains :
    (P : Text → Type 0) (ss : List Text) (t : Text) → All P ss → contains ss t ≡ true → P t
unfolding contains
All-contains P [] t h e = cc
All-contains P (s ∷ ss) t h e = elim (Bool-cases (text_eq s t)) [
  | inl k ↦ subst P ((text_eq_iff s t).0 k) h.0
  | inr k ↦ All-contains P ss t h.1 (rw k at e)
]

all_valid-All :
    (algs : List Text) → all_valid algs ≡ true → All (λ a. contains valid_algorithms a ≡ true) algs
unfolding all_valid
all_valid-All [] h = tt
all_valid-All (a ∷ algs) h =
    let (k, r) = true_if (contains valid_algorithms a) h in (k, all_valid-All algs r)

same_family-All :
    (algs : List Text) (family : Text)
    → same_family family algs ≡ true
    → All (λ a. algorithm_family a ≡ family) algs
unfolding same_family
same_family-All [] family h = tt
same_family-All (a ∷ algs) family h =
    let (k, r) = true_unless (not (text_eq (algorithm_family a) family)) h in
    (ground (arith, text_eq_iff (algorithm_family a) family), same_family-All algs family r)

one_family-eq :
    (algs : List Text) (a b : Text)
    → one_family algs ≡ true
    → contains algs a ≡ true
    → contains algs b ≡ true
    → algorithm_family a ≡ algorithm_family b
unfolding one_family contains
one_family-eq [] a b h i j = let z : false ≡ true = i in cc
one_family-eq (x ∷ algs) a b h i j =
    let all = same_family-All algs (algorithm_family x) h in
    let P : Text → Type 0 = λ t. algorithm_family t ≡ algorithm_family x in
    All-contains P (x ∷ algs) a (refl, all) i ∙ sym (All-contains P (x ∷ algs) b (refl, all) j)

-- The parser of a family's key.
family_parser : Text → Option Parser
unfolding parse_key
family_parser fam = if text_eq fam (codes "RSA") then some rsa_pem else parse_key fam

parse_key-family :
    (a : Text)
    → contains valid_algorithms a ≡ true
    → (p : Parser) × ((parse_key a ≡ some p) × (family_parser (algorithm_family a) ≡ some p))
unfolding parse_key family_parser algorithm_family at_start index has_prefix text_eq
parse_key-family a h = All-contains Parsed valid_algorithms a all h
  where
    Parsed : Text → Type 0
    Parsed x =
        (p : Parser) × ((parse_key x ≡ some p) × (family_parser (algorithm_family x) ≡ some p))

    all : All Parsed valid_algorithms
    all = (
      (bytes, (refl, refl)),
      (
        (bytes, (refl, refl)),
        (
          (bytes, (refl, refl)),
          (
            (rsa_pem, (refl, refl)),
            (
              (rsa_pem, (refl, refl)),
              (
                (rsa_pem, (refl, refl)),
                (
                  (ec_pem, (refl, refl)),
                  (
                    (ec_pem, (refl, refl)),
                    (
                      (ec_pem, (refl, refl)),
                      (
                        (rsa_pem, (refl, refl)),
                        (
                          (rsa_pem, (refl, refl)),
                          ((rsa_pem, (refl, refl)), ((ed_pem, (refl, refl)), tt)),
                        ),
                      ),
                    ),
                  ),
                ),
              ),
            ),
          ),
        ),
      ),
    )

resolve_algorithms-valid :
    (c : JwtConfig) (algs : List Text) → resolve_algorithms c ≡ some algs → all_valid algs ≡ true
unfolding resolve_algorithms
resolve_algorithms-valid c algs h =
    let algorithms = if not (is_empty c.algorithm) then c.algorithm ∷ [] else c.algorithms in
    let (a, h1) =
      passed_unless (not (is_empty c.algorithm) && not (no_algorithms c.algorithms)) h in
    let (b, h2) = passed_unless (no_algorithms algorithms) h1 in
    let (v, h3) = passed_if (all_valid algorithms) h2 in
    subst (λ x. all_valid x ≡ true) (some-injective _ _ h3) v

-- What a set-up that succeeds has checked.
initialized :
    (lib : Services) (c d : JwtConfig)
    → initialize lib c ≡ some d
    → (all_valid d.algorithms ≡ true) × ((d.jwks ≡ c.jwks) × (check_keys lib c d.algorithms ≡ true))
unfolding initialize with_defaults
initialized lib c d h = elim (Option-cases (resolve_algorithms c)) [
  | inl n ↦ absurd (let z : none ≡ some d = rw (n, initialize) at h in cc)
  | inr (algs, n) ↦ checked algs (resolve_algorithms-valid c algs n) (rw (n, initialize) at h)
]
  where
    built :
        (algs : List Text)
        → all_valid algs ≡ true
        → check_keys lib c algs ≡ true
        → some (with_defaults algs c) ≡ some d
        → (all_valid d.algorithms ≡ true)
          × ((d.jwks ≡ c.jwks) × (check_keys lib c d.algorithms ≡ true))
    built algs v k h3 =
        subst
          (λ (x : JwtConfig).
            (all_valid x.algorithms ≡ true)
            × ((x.jwks ≡ c.jwks) × (check_keys lib c x.algorithms ≡ true)))
          (some-injective _ _ h3) (v, (refl, k))

    checked :
        (algs : List Text)
        → all_valid algs ≡ true
        → (if not (check_keys lib c algs)
            then none
            else if c.cache_size == 0
            then some (with_defaults algs c)
            else if lib.build c.cache_size
            then some (with_defaults algs c)
            else none)
          ≡ some d
        → (all_valid d.algorithms ≡ true)
          × ((d.jwks ≡ c.jwks) × (check_keys lib c d.algorithms ≡ true))
    checked algs v h1 =
        let (k, h2) = passed_unless (not (check_keys lib c algs)) h1 in
        let k2 : check_keys lib c algs ≡ true = ground arith in
        elim (Bool-cases (c.cache_size == 0)) [
          | inl e ↦ built algs v k2 (rw e at h2)
          | inr e ↦ built algs v k2 (passed_if (lib.build c.cache_size) (rw e at h2)).1
        ]

-- After a set-up with a static key, the key is read by one and the same parser for any two of the
-- algorithms that are allowed.
pub initialize-parse_key :
    (lib : Services) (c d : JwtConfig) (a b : Text)
    → initialize lib c ≡ some d
    → d.jwks ≡ none
    → contains d.algorithms a ≡ true
    → contains d.algorithms b ≡ true
    → (p : Parser) × ((parse_key a ≡ some p) × (parse_key b ≡ some p))
unfolding check_keys
initialize-parse_key lib c d a b h n i j =
    let (v, (e, k)) = initialized lib c d h in
    let all = all_valid-All d.algorithms v in
    let valid : Text → Type 0 = λ x. contains valid_algorithms x ≡ true in
    let (p, (pa, fa)) = parse_key-family a (All-contains valid d.algorithms a all i) in
    let (q, (pb, fb)) = parse_key-family b (All-contains valid d.algorithms b all j) in
    let m : c.jwks ≡ none = sym e ∙ n in
    let o = (true_unless (is_empty c.key) (rw (m, check_keys) at k)).1 in
    let w = one_family-eq d.algorithms a b o i j in
    (p, (pa, pb ∙ (sym fb ∙ (ap family_parser (sym w) ∙ fa))))

module _ {S K : Type 0} (sets : KeySets S K) where
  -- The key is in its list of algorithms, and it is not a sequence of octets.
  IsChecked : List Text → K → Type 0
  IsChecked algs k =
      (key : Key K) × ((alg : Text) × ((key.public ≡ some k)
          × ((key.octet_seq ≡ false) × ((key.algorithm ≡ some alg) × (contains algs alg ≡ true)))))
