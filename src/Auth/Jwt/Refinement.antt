-- ===== src/Auth/Jwt/Refinement.antt =====
-- The cache of verified tokens against verification without a cache.
use tilegroxy.Base.{
  ℕ, ◌≤◌, ◌<◌, Bool, true, false, Option, none, some, ◌≡◌, ◌≢◌, ◌↔◌, ◌⊎◌, refl, sym, ◌∙◌, ap, subst,
  arith, if-ind, Option-cases, inl, inr, ltb, ◌==◌, Text,
}
use tilegroxy.Request.{Grants, new_request_context}
use tilegroxy.Tile.Floats.{Floats}
use tilegroxy.Auth.Jwt.{
  JwtConfig, CachedAuthResult, Libraries, TokenCache, check_without_cache, apply, verify,
  check_token_text,
}
use tilegroxy.Auth.Jwt.Replay.{EqLaw, GeohashLaw, check_without_cache-apply}
use tilegroxy.Auth.Jwt.Expiration.{ParseLaw, later_same, same_expiration}

module _ (f : Floats) {C : Type 0} (lib : Libraries f.F) (tokens : TokenCache f.F C)
    (c : JwtConfig) where
  -- The cache gives what was written under the token, or nothing.
  unfoldable pub CacheLaw : Type 0
  CacheLaw =
      (token other : Text) (a r : CachedAuthResult f.F) (cache : C)
      → tokens.get token (tokens.set_if_absent other a cache) ≡ some r
      → (tokens.get token cache ≡ some r) ⊎ ((token ≡ other) × (a ≡ r))

  -- Every result of the cache is what its token has granted on a fresh context, at this time or before.
  unfoldable pub IsSound : ℕ → C → Type 0
  IsSound now cache =
      (token : Text) (r : CachedAuthResult f.F)
      → tokens.get token cache ≡ some r
      → (t0 : ℕ) × ((t0 ≤ now)
          × ((check_without_cache lib c t0 token (new_request_context f)).0 ≡ some r))

  stored-IsSound :
      CacheLaw
      → (now : ℕ) (token : Text) (a : CachedAuthResult f.F) (cache : C) → IsSound now cache
      → (check_without_cache lib c now token (new_request_context f)).0 ≡ some a
      → IsSound now (tokens.set_if_absent token a cache)
  unfolding CacheLaw IsSound
  stored-IsSound law now token a cache h e t r k = elim (law t token a r cache k) [
    | inl o ↦ h t r o
    | inr (p, q) ↦ (
      now,
      (
        omega arith,
        subst (λ (x : Text). (check_without_cache lib c now x (new_request_context f)).0 ≡ some r)
            (sym p) (e ∙ ap some q),
      ),
    )
  ]

  verify-IsSound :
      CacheLaw
      → (now : ℕ) (token : Text) (cache : C) → IsSound now cache
      → IsSound now (verify f lib tokens c now token (new_request_context f) cache).2
  unfolding verify
  verify-IsSound law now token cache h =
      elim (Option-cases (check_without_cache lib c now token (new_request_context f)).0) [
        | inl n ↦ rw (n, verify) h
        | inr (a, n) ↦
            rw (n, verify)
              (if-ind (IsSound now) (c.cache_size == 0) (λ e. h)
                (λ e. stored-IsSound law now token a cache h n))
      ]

  -- A request with a fresh context keeps the cache sound: each result that the cache gives is what
  -- verification has found for its token at the time or before. The cache gives what it has held
  -- already or what is written, or nothing.
  pub check_token_text-IsSound :
      CacheLaw
      → (now : ℕ) (token : Text) (cache : C) → IsSound now cache
      → IsSound now (check_token_text f lib tokens c now token (new_request_context f) cache).2
  unfolding check_token_text
  check_token_text-IsSound law now token cache h =
      let fresh = verify-IsSound law now token cache h in
      if-ind (λ (p : Bool × Grants f.F × C). IsSound now p.2) (c.cache_size == 0) (λ z. fresh)
        (λ z. elim (Option-cases (tokens.get token cache)) [
          | inl n ↦ rw (n, check_token_text) fresh
          | inr (r, n) ↦
              rw (n, check_token_text)
                (if-ind (λ (p : Bool × Grants f.F × C). IsSound now p.2) (ltb now r.expiration)
                  (λ e. h) (λ e. h))
        ])

  pub later-IsSound : (now t : ℕ) (cache : C) → now ≤ t → IsSound now cache → IsSound t cache
  unfolding IsSound
  later-IsSound now t cache l h token r k = let (t0, (a, b)) = h token r k in (t0, (omega arith, b))

  pair_eq :
      (q : Option (CachedAuthResult f.F) × Grants f.F) (a : CachedAuthResult f.F) {g : Grants f.F}
      → q.0 ≡ some a
      → q.1 ≡ g
      → q ≡ (some a, g)
  pair_eq (o, g1) a e k = cc

  -- The outcome accepts with the grants exactly when verification without a cache does.
  pub Agrees : (now : ℕ) (token : Text) (g : Grants f.F) → Bool × Grants f.F × C → Type 0
  Agrees now token g p = ((p.0 ≡ true) × (p.1 ≡ g)) ↔ (
      (r : CachedAuthResult f.F) × (check_without_cache lib c now token (new_request_context f)
        ≡ (some r, g)))

  verify-Agrees :
      (now : ℕ) (token : Text) (cache : C) (g : Grants f.F)
      → Agrees now token g (verify f lib tokens c now token (new_request_context f) cache)
  unfolding verify Agrees
  verify-Agrees now token cache g =
      let q = check_without_cache lib c now token (new_request_context f) in
      elim (Option-cases q.0) [
        | inl n ↦
            rw (n, verify)
              (
                (λ h. absurd (let z : false ≡ true = h.0 in cc)),
                (λ h. absurd (let z : none ≡ some h.0 = sym n ∙ ap (λ x. x.0) h.1 in cc)),
              )
        | inr (a, n) ↦
            rw (n, verify) ((λ h. (a, pair_eq q a n h.1)), (λ h. (refl, ap (λ x. x.1) h.1)))
      ]

  module _ (parse : ParseLaw lib c) (geo : GeohashLaw f lib) (eq : EqLaw f) (now : ℕ) (token : Text)
      (cache : C) (g : Grants f.F) (h : IsSound now cache) where
    hit-Agrees :
        (r : CachedAuthResult f.F)
        → tokens.get token cache ≡ some r
        → now < r.expiration
        → Agrees now token g (true, apply f r (new_request_context f), cache)
    unfolding IsSound Agrees
    hit-Agrees r k l =
        let (t0, (a, b)) = h token r k in
        let e = later_same lib c parse t0 now token (new_request_context f) r b a (omega arith) in
        let s = check_without_cache-apply f lib geo eq c t0 token r b in
        (
          (λ p. (r, pair_eq _ r (ap (λ x. x.0) e ∙ b) (ap (λ x. x.1) e ∙ (sym s ∙ p.1)))),
          (λ p. (refl, s ∙ (sym (ap (λ x. x.1) e) ∙ ap (λ x. x.1) p.1))),
        )

    expired-Agrees :
        (r : CachedAuthResult f.F)
        → tokens.get token cache ≡ some r
        → r.expiration < now
        → Agrees now token g (false, new_request_context f, cache)
    unfolding IsSound Agrees
    expired-Agrees r k l =
        let (t0, (a, b)) = h token r k in
        (
          (λ p. absurd (let z : false ≡ true = p.0 in cc)),
          (λ p. absurd (
              let w =
                same_expiration lib c parse t0 now token (new_request_context f) r p.0 b
                  (ap (λ x. x.0) p.1) in
              omega arith)),
        )

    -- A request that is accepted with the cache, is accepted without it, with the same grants.
    pub check_token_text-granted :
        (check_token_text f lib tokens c now token (new_request_context f) cache).0 ≡ true
        → (check_token_text f lib tokens c now token (new_request_context f) cache).1 ≡ g
        → (r : CachedAuthResult f.F) × (check_without_cache lib c now token (new_request_context f)
            ≡ (some r, g))
    unfolding check_token_text Agrees
    check_token_text-granted a b = let fresh = verify-Agrees now token cache g in accepted fresh a b
      where
        Accepts : Bool × Grants f.F × C → Type 0
        Accepts p =
            (p.0 ≡ true)
            → (p.1 ≡ g)
            → (r : CachedAuthResult f.F) × (check_without_cache lib c now token
                  (new_request_context f)
                ≡ (some r, g))

        accepted :
            Agrees now token g (verify f lib tokens c now token (new_request_context f) cache)
            → Accepts (check_token_text f lib tokens c now token (new_request_context f) cache)
        accepted fresh =
            if-ind Accepts (c.cache_size == 0) (λ z a b. fresh.0 (a, b))
              (λ z. elim (Option-cases (tokens.get token cache)) [
                | inl m ↦ rw (m, check_token_text) (λ a b. fresh.0 (a, b))
                | inr (r, m) ↦
                    rw (m, check_token_text)
                      (if-ind Accepts (ltb now r.expiration)
                        (λ e a b. (hit-Agrees r m (ground arith)).0 (a, b))
                        (λ e a b. absurd (let z : false ≡ true = a in cc)))
              ])

    -- On a sound cache whose result for the token does not expire just now, a request with a fresh
    -- context is accepted with some grants exactly when verification without the cache accepts it with
    -- these grants: of the parser, a token stays what it is and valid until it expires, the box of a
    -- valid geohash has a width, and floats are compared with zero consistently.
    pub check_token_text_iff :
        ((r : CachedAuthResult f.F) → tokens.get token cache ≡ some r → r.expiration ≢ now)
        → Agrees now token g
            (check_token_text f lib tokens c now token (new_request_context f) cache)
    unfolding check_token_text
    check_token_text_iff n =
        let fresh = verify-Agrees now token cache g in
        if-ind (Agrees now token g) (c.cache_size == 0) (λ z. fresh)
          (λ z. elim (Option-cases (tokens.get token cache)) [
            | inl m ↦ rw (m, check_token_text) fresh
            | inr (r, m) ↦
                rw (m, check_token_text)
                  (if-ind (Agrees now token g) (ltb now r.expiration)
                    (λ e. hit-Agrees r m (ground arith))
                    (λ e. let d = n r m in expired-Agrees r m (ground arith)))
          ])
