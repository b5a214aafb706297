-- ===== src/Auth/Jwt/Expiration.antt =====
-- internal/authentications/jwt.go: a verified token at a later time, until it expires.
use tilegroxy.Base.{
  ℕ, ◌+◌, ◌*◌, ◌≤◌, Bool, true, false, none, some, some-injective, ◌≡◌, refl, sym, ◌∙◌, ap, arith,
  if◌then◌else◌, Bool-cases, Option-cases, inl, inr, ltb, Text,
}
use tilegroxy.Request.{Grants}
use tilegroxy.Auth.Jwt.{
  JwtConfig, Token, CachedAuthResult, Libraries, second, result_of, read_claims, grant_token,
  check_token, check_without_cache,
}

module _ {F : Type 0} (lib : Libraries F) (c : JwtConfig) where
  -- A token text that is parsed at two times is the same token, and while it has not expired it is
  -- parsed at any later time: the keys do not change, and no option of the parser but the expiration
  -- refuses a token for being old.
  pub record ParseLaw : Type 0 where
    pub same :
        (t0 t1 : ℕ) (token : Text) (a b : Token)
        → lib.parse c t0 token ≡ some a
        → lib.parse c t1 token ≡ some b
        → a ≡ b
    pub later :
        (t0 now : ℕ) (token : Text) (a : Token) (e : ℕ)
        → lib.parse c t0 token ≡ some a
        → a.exp ≡ some e
        → t0 ≤ now
        → now ≤ e
        → lib.parse c now token ≡ some a

  granted-expiration :
      (exp : ℕ) (p : Bool × Grants F) (r : CachedAuthResult F)
      → (if p.0 then some (result_of exp p.1) else none) ≡ some r
      → r.expiration ≡ exp
  unfolding result_of
  granted-expiration exp (false, g) r h = let k : none ≡ some r = h in cc
  granted-expiration exp (true, g) r h =
      sym (ap (λ (x : CachedAuthResult F). x.expiration) (some-injective _ _ h))

  grant_token-expiration :
      (exp : ℕ) (t : Token) (g : Grants F) (r : CachedAuthResult F)
      → (grant_token lib c exp t g).0 ≡ some r
      → r.expiration ≡ exp
  unfolding grant_token
  grant_token-expiration exp t g r h = elim (Option-cases t.claims) [
    | inl n ↦ (let k : none ≡ some r = rw (n, grant_token) at h in cc)
    | inr (claims, n) ↦
        granted-expiration exp
          (read_claims lib c claims (if c.layer_scope then record g { limit_layers = true } else g))
          r (rw (n, grant_token) at h)
  ]

  -- The result is of a token that is parsed at the time, that has the result's expiration, and whose
  -- expiration is in the range.
  pub IsTimely : (now : ℕ) (t : Token) (exp : ℕ) → Type 0
  IsTimely now t exp = (t.exp ≡ some exp) × ((now ≤ exp) × (exp ≤ now + c.max_expiration * second))

  timely :
      (now : ℕ) (t : Token) (g : Grants F) (r : CachedAuthResult F)
      → (check_token lib c now t g).0 ≡ some r
      → IsTimely now t r.expiration
  unfolding check_token IsTimely
  timely now t g r h = elim (Option-cases t.exp) [
    | inl n ↦ (let k : none ≡ some r = rw (n, check_token) at h in cc)
    | inr (exp, n) ↦ in_range exp n (rw (n, check_token) at h)
  ]
    where
      in_range :
          (exp : ℕ)
          → t.exp ≡ some exp
          → (if ltb exp now
              then (none, g)
              else if ltb (now + c.max_expiration * second) exp
              then (none, g)
              else grant_token lib c exp t g).0
            ≡ some r
          → IsTimely now t r.expiration
      in_range exp n k = elim (Bool-cases (ltb exp now)) [
        | inl a ↦ (let z : none ≡ some r = rw a at k in cc)
        | inr a ↦ elim (Bool-cases (ltb (now + c.max_expiration * second) exp)) [
          | inl b ↦ (let z : none ≡ some r = rw (a, b) at k in cc)
          | inr b ↦
              (let e = grant_token-expiration exp t g r (rw (a, b) at k) in
                (n ∙ ap some (sym e), (ground arith, ground arith)))
        ]
      ]

  check_token-timely :
      (now : ℕ) (t : Token) (exp : ℕ) (g : Grants F)
      → IsTimely now t exp
      → check_token lib c now t g ≡ grant_token lib c exp t g
  unfolding check_token IsTimely
  check_token-timely now t exp g (e, (l, u)) =
      let a : ltb exp now ≡ false = ground arith in
      let b : ltb (now + c.max_expiration * second) exp ≡ false = ground arith in
      rw (e, check_token) (rw (a, b) refl)

  -- A success is of a token that is parsed at the time.
  pub granted :
      (now : ℕ) (token : Text) (g : Grants F) (r : CachedAuthResult F)
      → (check_without_cache lib c now token g).0 ≡ some r
      → (t : Token) × ((lib.parse c now token ≡ some t)
          × (IsTimely now t r.expiration
              × (check_without_cache lib c now token g ≡ grant_token lib c r.expiration t g)))
  unfolding check_without_cache
  granted now token g r h = elim (Option-cases (lib.parse c now token)) [
    | inl n ↦ absurd (let k : none ≡ some r = rw (n, check_without_cache) at h in cc)
    | inr (t, n) ↦
        (let i = timely now t g r (rw (n, check_without_cache) at h) in
          (t, (n, (i, rw (n, check_without_cache) (check_token-timely now t r.expiration g i)))))
  ]

  -- What a success at one time grants, any later time grants until the expiration.
  pub later_same :
      ParseLaw
      → (t0 now : ℕ) (token : Text) (g : Grants F) (r : CachedAuthResult F)
      → (check_without_cache lib c t0 token g).0 ≡ some r
      → t0 ≤ now
      → now ≤ r.expiration
      → check_without_cache lib c now token g ≡ check_without_cache lib c t0 token g
  unfolding check_without_cache IsTimely
  later_same law t0 now token g r h l u = elim (Option-cases (lib.parse c t0 token)) [
    | inl n ↦ (let k : none ≡ some r = rw (n, check_without_cache) at h in cc)
    | inr (t, n) ↦
        (let i = timely t0 t g r (rw (n, check_without_cache) at h) in
          let m = law.later t0 now token t r.expiration n i.0 l u in
          let j : IsTimely now t r.expiration = (i.0, (u, omega (arith, i.1.1))) in
          rw (n, m, check_without_cache)
            (check_token-timely now t r.expiration g j
              ∙ sym (check_token-timely t0 t r.expiration g i)))
  ]

  -- A success at an earlier time has the expiration of a success now.
  pub same_expiration :
      ParseLaw
      → (t0 now : ℕ) (token : Text) (g : Grants F) (r r1 : CachedAuthResult F)
      → (check_without_cache lib c t0 token g).0 ≡ some r
      → (check_without_cache lib c now token g).0 ≡ some r1
      → now ≤ r.expiration
  unfolding check_without_cache IsTimely
  same_expiration law t0 now token g r r1 h k = elim (Option-cases (lib.parse c t0 token)) [
    | inl n ↦ (let k : none ≡ some r = rw (n, check_without_cache) at h in cc)
    | inr (t, n) ↦ elim (Option-cases (lib.parse c now token)) [
      | inl m ↦ (let z : none ≡ some r1 = rw (m, check_without_cache) at k in cc)
      | inr (t1, m) ↦
          (let i = timely t0 t g r (rw (n, check_without_cache) at h) in
            let j = timely now t1 g r1 (rw (m, check_without_cache) at k) in
            let e = law.same t0 now token t t1 n m in
            let w : r.expiration ≡ r1.expiration =
              some-injective _ _ (sym i.0 ∙ ap (λ (x : Token). x.exp) e ∙ j.0) in
            omega (arith, j.1.0))
    ]
  ]
