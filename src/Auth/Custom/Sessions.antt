-- ===== src/Auth/Custom/Sessions.antt =====
-- Custom.CheckAuthentication after any run of requests. The cache may forget what it likes, but what it
-- finds for a token is what was put for that token last or what it found before.
use tilegroxy.Base.{
  ℕ, ◌≤◌, ◌≡◌, ◌↔◌, ◌⊎◌, subst, arith, inl, inr, refl, sym, ap, ◌∙◌, true, List, [], ◌∷◌, Option,
  none, some, Text, Bool-cases,
}
use tilegroxy.Request.{Grants}
use tilegroxy.Auth.Custom.{
  Request, ValidationResult, is_good, extract_token, grant, conclude, AnswerCache, after_get,
  result_for, check_token, check_custom, run_custom,
}

pub record CacheLaws {C : Type 0} (lib : AnswerCache C) (empty : C) : Type 0 where
  pub get_empty : (t : Text) → lib.get t empty ≡ none
  pub get_put :
      (t t' : Text) (v v' : ValidationResult) (c : C)
      → lib.get t (lib.put t' v c) ≡ some v'
      → ((t ≡ t') × (v ≡ v')) ⊎ (lib.get t c ≡ some v')

good_iff :
    (now : ℕ) (v : ValidationResult)
    → (is_good now v ≡ true) ↔ ((v.pass ≡ true) × (now ≤ v.expiration))
unfolding is_good
good_iff now v = ((λ h. ground arith), (λ h. ground arith))

conclude_accepts :
    {F : Type 0} (now : ℕ) (v : ValidationResult) (g : Grants F)
    → (conclude now v g).0 ≡ true
    → (is_good now v ≡ true) × ((conclude now v g).1 ≡ grant v g)
unfolding conclude
conclude_accepts now v g h = elim (Bool-cases (is_good now v)) [
  | inl e ↦ (e, rw e refl)
  | inr e ↦ cc
]

module _ {W C : Type 0} (script : Text → W → ValidationResult × W) (lib : AnswerCache C) where
  -- An answer of the script for the token, in some state of its world.
  abbrev pub IsAnswer : Text → ValidationResult → Type 0
  IsAnswer t v = (w : W) × ((script t w).0 ≡ v)

  -- What a cache holds are answers of the script for the same token.
  abbrev pub IsHonest : Option C → Type 0
  IsHonest none = Unit
  IsHonest (some c) = (t : Text) (v : ValidationResult) → lib.get t c ≡ some v → IsAnswer t v

  module _ {F : Type 0} (token : List (Text × Text)) where
    -- What an accepted request has: a token, and an answer of the script for it that passes, has not
    -- expired, and is what the request is granted.
    pub record IsGranted (now : ℕ) (req : Request) (g g' : Grants F) : Type 0 where
      pub tok : Text
      pub answer : ValidationResult
      pub own_token : extract_token token req ≡ some tok
      pub answered : IsAnswer tok answer
      pub passes : answer.pass ≡ true
      pub unexpired : now ≤ answer.expiration
      pub granted : g' ≡ grant answer g

  module _ (empty : C) (laws : CacheLaws lib empty) where
    put-IsHonest :
        (t : Text) (c : C) (w : W)
        → IsHonest (some c)
        → IsHonest (some (lib.put t (script t w).0 c))
    put-IsHonest t c w h t' v e = elim (laws.get_put t' t _ v c e) [
      | inl p ↦ (w, ap (λ x. (script x w).0) p.0 ∙ p.1)
      | inr q ↦ h t' v q
    ]

    after_get-IsHonest :
        (t : Text) (o : Option ValidationResult) (c : C) (w : W)
        → ((v : ValidationResult) → o ≡ some v → IsAnswer t v)
        → IsHonest (some c)
        → IsAnswer t (after_get script lib t o c w).0 × IsHonest (after_get script lib t o c w).1
    unfolding after_get
    after_get-IsHonest t (some v) c w a h = (a v refl, h)
    after_get-IsHonest t none c w a h = ((w, refl), put-IsHonest t c w h)

    result_for-IsHonest :
        (t : Text) (cache : Option C) (w : W)
        → IsHonest cache
        → IsAnswer t (result_for script lib t cache w).0
          × IsHonest (result_for script lib t cache w).1
    unfolding result_for
    result_for-IsHonest t none w h = ((w, refl), tt)
    result_for-IsHonest t (some c) w h = after_get-IsHonest t (lib.get t c) c w (h t) h

    module _ {F : Type 0} (token : List (Text × Text)) where
      check_token-IsHonest :
          (now : ℕ) (o : Option Text) (cache : Option C) (w : W) (g : Grants F)
          → IsHonest cache
          → IsHonest (check_token script lib token now o (cache, w) g).1
      unfolding check_token
      check_token-IsHonest now none cache w g h = h
      check_token-IsHonest now (some t) cache w g h = (result_for-IsHonest t cache w h).1

      run_custom-IsHonest :
          (rs : List (ℕ × Request × Grants F)) (cache : Option C) (w : W)
          → IsHonest cache
          → IsHonest (run_custom script lib token rs (cache, w)).0
      unfolding run_custom check_custom
      run_custom-IsHonest [] cache w h = h
      run_custom-IsHonest ((now, req, g) ∷ rs) cache w h =
          check_token-IsHonest now (extract_token token req) _ _ g
            (run_custom-IsHonest rs cache w h)

      token_accepts :
          (now : ℕ) (req : Request) (o : Option Text) (cache : Option C) (w : W) (g : Grants F)
          → IsHonest cache
          → extract_token token req ≡ o
          → (check_token script lib token now o (cache, w) g).0.0 ≡ true
          → IsGranted token now req g (check_token script lib token now o (cache, w) g).0.1
      unfolding check_token
      token_accepts now req none cache w g h e a = cc
      token_accepts now req (some t) cache w g h e a =
          let c = conclude_accepts now (result_for script lib t cache w).0 g a in
          let q = (good_iff now (result_for script lib t cache w).0).0 c.0 in
          record {
            tok = t;
            answer = (result_for script lib t cache w).0;
            own_token = e;
            answered = (result_for-IsHonest t cache w h).0;
            passes = q.0;
            unexpired = q.1;
            granted = c.1;
          }

      -- After any run of requests, from a server without a cache or with an empty one, a request that
      -- is accepted has a token for which the script has an answer that passes and has not expired at
      -- the time of the request, and its grants are those of that answer: no token profits from the
      -- cached answer for another.
      pub check_custom-IsGranted :
          (rs : List (ℕ × Request × Grants F)) (cache : Option C) (w : W)
          → (cache ≡ none) ⊎ (cache ≡ some empty)
          → (now : ℕ) (req : Request) (g : Grants F)
          → (check_custom script lib token now req
              (run_custom script lib token rs (cache, w))
              g).0.0
            ≡ true
          → IsGranted token now req g
              (check_custom script lib token now req
                (run_custom script lib token rs (cache, w))
                g).0.1
      unfolding check_custom
      check_custom-IsGranted rs cache w s now req g a =
          token_accepts now req (extract_token token req) _ _ g
            (run_custom-IsHonest rs cache w (start s)) refl a
        where
          start : {cache : Option C} → (cache ≡ none) ⊎ (cache ≡ some empty) → IsHonest cache
          start {cache} (inl e) = subst IsHonest (sym e) tt
          start {cache} (inr e) = subst IsHonest (sym e) (λ t v q. let z = laws.get_empty t in cc)

      -- A script whose answer for a token does not depend on its world is as good with a cache as
      -- without: whatever requests have come before and whatever the cache has forgotten, a request is
      -- decided, and granted, as by a server without a cache.
      pub check_custom_uncached :
          ((t : Text) (w w' : W) → (script t w).0 ≡ (script t w').0)
          → (rs : List (ℕ × Request × Grants F)) (w w' : W) (now : ℕ) (req : Request) (g : Grants F)
          → (check_custom script lib token now req
              (run_custom script lib token rs (some empty, w))
              g).0
            ≡ (check_custom script lib token now req (none, w') g).0
      unfolding check_custom check_token result_for
      check_custom_uncached pure rs w w' now req g =
          same (extract_token token req) _ _ w'
            (run_custom-IsHonest rs (some empty) w (λ t v q. let z = laws.get_empty t in cc))
        where
          same :
              (o : Option Text) (cache : Option C) (w w' : W)
              → IsHonest cache
              → (check_token script lib token now o (cache, w) g).0
                ≡ (check_token script lib token now o (none, w') g).0
          same none cache w w' h = refl
          same (some t) cache w w' h =
              let a = (result_for-IsHonest t cache w h).0 in
              ap (λ v. conclude now v g) (sym a.1 ∙ pure t a.0 w')
