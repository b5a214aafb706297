-- ===== src/Auth/Jwt/Replay.antt =====
-- What a verified token has granted, replayed from the cache on a fresh request context.
use tilegroxy.Base.{
  ℕ, ◌+◌, ◌*◌, Bool, true, false, not, ◌&&◌, [], ◌∷◌, Option, none, some, some-injective, ◌≡◌, refl,
  sym, ◌∙◌, subst, arith, if◌then◌else◌, if-ind, Bool-cases, Option-cases, inl, inr, ltb, Text,
  codes, contains,
}
use tilegroxy.Base.Strconv.{split}
use tilegroxy.Base.Int.{pos}
use tilegroxy.Request.{Grants, new_request_context, empty_box}
use tilegroxy.Tile.Floats.{Floats}
use tilegroxy.Tile.Bounds.{Box, is_null_island, srid_wgs84}
use tilegroxy.Auth.Jwt.{
  JwtConfig, Claim, text, other, Token, CachedAuthResult, Libraries, is_empty, validate_scope,
  new_bounds_from_geohash, validate_geohash, set_user, result_of, read_claims, grant_token,
  check_token, check_without_cache, apply, second,
}

is_empty_iff : (s : Text) → is_empty s ≡ true → s ≡ []
unfolding is_empty
is_empty_iff [] h = refl
is_empty_iff (c ∷ s) h = cc

module _ (f : Floats) where
  -- A null area is the fresh context's, and no Ref has been followed.
  IsReplayable : Grants f.F → Type 0
  IsReplayable g =
      (is_null_island f g.allowed_area ≡ true → g.allowed_area ≡ empty_box f) × (g.ref_depth ≡ 0)

  fresh-IsReplayable : IsReplayable (new_request_context f)
  unfolding IsReplayable new_request_context
  fresh-IsReplayable = ((λ e. refl), refl)

  apply-result_of :
      (exp : ℕ) (g : Grants f.F)
      → IsReplayable g
      → apply f (result_of exp g) (new_request_context f) ≡ g
  unfolding apply result_of IsReplayable new_request_context
  apply-result_of exp g (a, d) = elim (Bool-cases (is_null_island f g.allowed_area)) [
    | inl n ↦ elim (Bool-cases (is_empty g.user_id)) [
      | inl u ↦ (let k = a n in let v = is_empty_iff g.user_id u in rw (n, u) cc)
      | inr u ↦ (let k = a n in rw (n, u) cc)
    ]
    | inr n ↦ elim (Bool-cases (is_empty g.user_id)) [
      | inl u ↦ (let v = is_empty_iff g.user_id u in rw (n, u) cc)
      | inr u ↦ rw (n, u) cc
    ]
  ]

  -- The floats' equality with zero, and an order that is strict.
  unfoldable pub EqLaw : Type 0
  EqLaw = (a b z : f.F) → f.eq a z ≡ true → f.eq b z ≡ true → f.lt a b ≡ false

  -- The box of a valid geohash has a width.
  unfoldable pub GeohashLaw : Libraries f.F → Type 0
  GeohashLaw lib =
      (hash : Text)
      → lib.validate hash ≡ true
      → f.lt (lib.bounding_box hash).2 (lib.bounding_box hash).3 ≡ true

  module _ (lib : Libraries f.F) (law : GeohashLaw lib) (eq_law : EqLaw) where
    geohash_not_null :
        (hash : Text) (b : Box f.F)
        → new_bounds_from_geohash lib hash ≡ some b
        → is_null_island f b ≡ false
    unfolding new_bounds_from_geohash is_null_island GeohashLaw EqLaw
    geohash_not_null hash b h = elim (Bool-cases (lib.validate hash)) [
      | inl v ↦
          (let (south, north, west, east) = lib.bounding_box hash in
            let box : record {
              south = (lib.bounding_box hash).0;
              north = (lib.bounding_box hash).1;
              west = (lib.bounding_box hash).2;
              east = (lib.bounding_box hash).3;
              srid = srid_wgs84;
            }
                ≡ b =
              some-injective _ _ (rw v at h) in
            let wide = law hash v in
            let z = f.of_int (pos 0) in
            let flat = eq_law (lib.bounding_box hash).2 (lib.bounding_box hash).3 z in
            subst (λ (x : Box f.F). is_null_island f x ≡ false) box (ground arith))
      | inr v ↦ absurd (let k : none ≡ some b = rw v at h in cc)
    ]

    validate_scope-IsReplayable :
        (c : JwtConfig) (o : Option Claim) (g : Grants f.F)
        → IsReplayable g
        → IsReplayable (validate_scope c o g).1
    unfolding validate_scope IsReplayable
    validate_scope-IsReplayable c none g h = h
    validate_scope-IsReplayable c (some other) g h = h
    validate_scope-IsReplayable c (some (text s)) g h =
        if-ind (λ (r : Bool × Grants f.F). IsReplayable r.1)
          (not (is_empty c.expected_scope) && not (contains (split b' ' s) c.expected_scope))
          (λ e. h)
          (λ e.
            if-ind (λ (r : Bool × Grants f.F). IsReplayable r.1) c.layer_scope (λ l. h) (λ l. h))

    validate_geohash-IsReplayable :
        (o : Option Claim) (g : Grants f.F)
        → IsReplayable g
        → IsReplayable (validate_geohash lib o g).1
    unfolding validate_geohash IsReplayable
    validate_geohash-IsReplayable none g h = h
    validate_geohash-IsReplayable (some other) g h = h
    validate_geohash-IsReplayable (some (text hash)) g h =
        elim (Option-cases (new_bounds_from_geohash lib hash)) [
          | inl e ↦ rw (e, validate_geohash) h
          | inr (b, e) ↦
              (let n = geohash_not_null hash b e in
                rw (e, validate_geohash)
                  ((λ k. absurd (let z : true ≡ false = sym k ∙ n in cc)), h.1))
        ]

    set_user-IsReplayable :
        (o : Option Claim) (g : Grants f.F) → IsReplayable g → IsReplayable (set_user o g)
    unfolding set_user IsReplayable
    set_user-IsReplayable none g h = h
    set_user-IsReplayable (some (text u)) g h = h
    set_user-IsReplayable (some other) g h = h

    read_claims-IsReplayable :
        (c : JwtConfig) (claims : Text → Option Claim) (g : Grants f.F)
        → IsReplayable g
        → IsReplayable (read_claims lib c claims g).1
    unfolding read_claims
    read_claims-IsReplayable c claims g h =
        let r1 = validate_scope c (claims (codes "scope")) g in
        let r2 = validate_geohash lib (claims (codes "geohash")) r1.1 in
        let h1 = validate_scope-IsReplayable c (claims (codes "scope")) g h in
        let h2 = validate_geohash-IsReplayable (claims (codes "geohash")) r1.1 h1 in
        if-ind (λ (r : Bool × Grants f.F). IsReplayable r.1) (not r1.0) (λ e. h1)
          (λ e.
            if-ind (λ (r : Bool × Grants f.F). IsReplayable r.1) (not r2.0) (λ k. h2)
              (λ k. set_user-IsReplayable (claims c.user_id) r2.1 h2))

    limited : JwtConfig → Grants f.F → Grants f.F
    limited c g = if c.layer_scope then record g { limit_layers = true } else g

    limited-IsReplayable :
        (c : JwtConfig) (g : Grants f.F) → IsReplayable g → IsReplayable (limited c g)
    unfolding limited IsReplayable
    limited-IsReplayable c g h = if-ind IsReplayable c.layer_scope (λ e. h) (λ e. h)

    -- If there is a result, it replays the grants that come with it.
    IsReplayed : Option (CachedAuthResult f.F) × Grants f.F → Type 0
    IsReplayed p =
        (r : CachedAuthResult f.F) → p.0 ≡ some r → apply f r (new_request_context f) ≡ p.1

    refused-IsReplayed : (g : Grants f.F) → IsReplayed (none, g)
    unfolding IsReplayed
    refused-IsReplayed g r e = let k : none ≡ some r = e in cc

    result_of-IsReplayed :
        (exp : ℕ) (p : Bool × Grants f.F)
        → IsReplayable p.1
        → IsReplayed ((if p.0 then some (result_of exp p.1) else none), p.1)
    unfolding IsReplayed
    result_of-IsReplayed exp (false, g) h r e = let k : none ≡ some r = e in cc
    result_of-IsReplayed exp (true, g) h r e =
        subst (λ x. apply f x (new_request_context f) ≡ g) (some-injective _ _ e)
          (apply-result_of exp g h)

    grant_token-IsReplayed :
        (c : JwtConfig) (exp : ℕ) (t : Token) (g : Grants f.F)
        → IsReplayable g
        → IsReplayed (grant_token lib c exp t g)
    unfolding limited grant_token
    grant_token-IsReplayed c exp t g h = elim (Option-cases t.claims) [
      | inl n ↦ rw (n, grant_token) (refused-IsReplayed (limited c g))
      | inr (claims, n) ↦
          rw (n, grant_token)
            (result_of-IsReplayed exp (read_claims lib c claims (limited c g))
              (read_claims-IsReplayable c claims (limited c g) (limited-IsReplayable c g h)))
    ]

    check_token-IsReplayed :
        (c : JwtConfig) (now : ℕ) (t : Token) (g : Grants f.F)
        → IsReplayable g
        → IsReplayed (check_token lib c now t g)
    unfolding check_token
    check_token-IsReplayed c now t g h = elim (Option-cases t.exp) [
      | inl n ↦ rw (n, check_token) (refused-IsReplayed g)
      | inr (exp, n) ↦
          rw (n, check_token)
            (if-ind IsReplayed (ltb exp now) (λ e. refused-IsReplayed g)
              (λ e.
                if-ind IsReplayed (ltb (now + c.max_expiration * second) exp)
                  (λ k. refused-IsReplayed g) (λ k. grant_token-IsReplayed c exp t g h)))
    ]

    -- A verified token's result, applied to a fresh context, grants exactly what verification on a
    -- fresh context has granted, if the box of a valid geohash has a width and floats are compared
    -- with zero consistently.
    pub check_without_cache-apply :
        (c : JwtConfig) (now : ℕ) (token : Text) (r : CachedAuthResult f.F)
        → (check_without_cache lib c now token (new_request_context f)).0 ≡ some r
        → apply f r (new_request_context f)
          ≡ (check_without_cache lib c now token (new_request_context f)).1
    unfolding check_without_cache IsReplayed
    check_without_cache-apply c now token =
        elim (Option-cases (lib.parse c now token))
          as (λ _. IsReplayed (check_without_cache lib c now token (new_request_context f))) [
            | inl n ↦ rw (n, check_without_cache) (refused-IsReplayed (new_request_context f))
            | inr (t, n) ↦
                rw (n, check_without_cache)
                  (check_token-IsReplayed c now t (new_request_context f) (fresh-IsReplayable))
          ]
