-- ===== src/Providers/Blend/Auth.antt =====
-- Blend.PreAuth against the calls of its providers, in whatever order their results arrive.
use tilegroxy.Base.{
  ℕ, zero, suc, ◌+◌, ◌≤◌, ◌≡◌, ◌≢◌, ◌↔◌, refl, sym, ap, subst, ◌∙◌, Bool, true, false, not, List,
  [], ◌∷◌, Option, none, some, some-injective, if◌then◌else◌, ltb, length, get_elem?, text_eq_refl,
  lookup, All, arith, Bool-cases, inl, inr,
}
use tilegroxy.Base.Strconv.{natural}
use tilegroxy.Base.Shuffle.{
  Shuffle, length-Shuffle, fold, AllCommute_lem, fold-Shuffle, All-Shuffle, All-Shuffle_back,
}
use tilegroxy.Errors.{Error}
use tilegroxy.Layer.Provide.{ProviderContext}
use tilegroxy.Providers.Blend.{
  Call, returned, Contexts, done, blocked, join_errors, context_for, results_from, auth_error,
  auth_errors, Gathered, take_result, hour, finish_auth, pre_auth,
}
use tilegroxy.Providers.Blend.Gather.{
  panics, length-auth_errors, length-results_from, length-results_from_lt, IsNone, join_errors-none,
  gather-done, gather-blocked, bypass_step, expiration_step, entry_step, fold-all_bypass,
  fold-next_exp, fold-other, bypass-Commute, expiration-Commute, results_from-AllCommute,
  results_from_le, fold-entry_other,
}

-- What each provider returned, in the order of the providers.
abbrev pub Answers : Type 0 → Type 0
Answers P = List (ProviderContext P × Option Error)

abbrev pub calls_of : {P : Type 0} → Answers P → List (Call (ProviderContext P))
calls_of [] = []
calls_of ((pc, e) ∷ xs) = returned pc e ∷ calls_of xs

bypass_case : (a b : Bool) → ((if not a then false else b) ≡ true) ↔ ((b ≡ true) × (a ≡ true))
bypass_case true b = ((λ h. (h, refl)), (λ h. h.0))
bypass_case false b = ((λ h. cc), (λ h. cc))

expiration_case : (m a t : ℕ) → (m ≤ (if ltb a t then a else t)) ↔ ((m ≤ t) × (m ≤ a))
expiration_case m a t = ((λ h. ground arith), (λ h. ground arith))

module _ {P : Type 0} where
  entry_own :
      (i : ℕ) (pc : ProviderContext P) (o : Option (ProviderContext P))
      → entry_step (natural i) (i, pc) o ≡ some pc
  unfolding entry_step
  entry_own i pc o = rw (text_eq_refl (natural i))

  fold-entry :
      (i m : ℕ) (xs : Answers P) (a : ProviderContext P × Option Error)
      (o : Option (ProviderContext P))
      → get_elem? xs m ≡ some a
      → fold (entry_step (natural (i + m))) (results_from i (calls_of xs)) o ≡ some a.0
  unfolding entry_step results_from
  fold-entry i m [] a o h = cc
  fold-entry i zero ((pc, e) ∷ xs) a o h =
      let z : i + 0 ≡ i = omega arith in
      subst
        (λ k. fold (entry_step (natural k)) (results_from i (calls_of ((pc, e) ∷ xs))) o ≡ some a.0)
        (sym z)
        (ap (fold (entry_step (natural i)) (results_from (suc i) (calls_of xs))) (entry_own i pc o)
          ∙ (fold-entry_other i (results_from (suc i) (calls_of xs)) (some pc)
                (results_from_le (suc i) (suc i) (calls_of xs) (omega arith))
              ∙ ap (λ (x : ProviderContext P × Option Error). some x.0) (some-injective _ _ h)))
  fold-entry i (suc m) ((pc, e) ∷ xs) a o h =
      let z : i + suc m ≡ suc i + m = omega arith in
      subst
        (λ k. fold (entry_step (natural k)) (results_from i (calls_of ((pc, e) ∷ xs))) o ≡ some a.0)
        (sym z) (fold-entry (suc i) m xs a _ h)

  fold-bypass :
      (i : ℕ) (xs : Answers P) (b : Bool)
      → (fold bypass_step (results_from i (calls_of xs)) b ≡ true)
        ↔ ((b ≡ true) × All (λ a. a.0.auth_bypass ≡ true) xs)
  unfolding bypass_step results_from
  fold-bypass i [] b = ((λ h. (h, tt)), (λ h. h.0))
  fold-bypass i ((pc, e) ∷ xs) b =
      let ih = fold-bypass (suc i) xs (if not pc.auth_bypass then false else b) in
      let c = bypass_case pc.auth_bypass b in
      (
        (λ h. let k = ih.0 h in let d = c.0 k.0 in (d.0, (d.1, k.1))),
        (λ h. ih.1 (c.1 (h.0, h.1.0), h.1.1)),
      )

  fold-expiration :
      (i : ℕ) (xs : Answers P) (t m : ℕ)
      → (m ≤ fold expiration_step (results_from i (calls_of xs)) t)
        ↔ ((m ≤ t) × All (λ a. m ≤ a.0.auth_expiration) xs)
  unfolding expiration_step results_from
  fold-expiration i [] t m = ((λ h. (h, tt)), (λ h. h.0))
  fold-expiration i ((pc, e) ∷ xs) t m =
      let ih =
        fold-expiration (suc i) xs (if ltb pc.auth_expiration t then pc.auth_expiration else t) m in
      let c = expiration_case m pc.auth_expiration t in
      (
        (λ h. let k = ih.0 h in let d = c.0 k.0 in (d.0, (d.1, k.1))),
        (λ h. ih.1 (c.1 (h.0, h.1.0), h.1.1)),
      )

  auth_errors-none :
      (xs : Answers P) → All IsNone (auth_errors (calls_of xs)) ↔ All (λ a. a.1 ≡ none) xs
  unfolding auth_errors auth_error
  auth_errors-none [] = ((λ h. tt), (λ h. tt))
  auth_errors-none ((pc, e) ∷ xs) =
      let ih = auth_errors-none xs in ((λ h. (h.0, ih.0 h.1)), (λ h. (h.0, ih.1 h.1)))

  calls_of_returned : (xs : Answers P) → panics (calls_of xs) ≡ false
  unfolding panics
  calls_of_returned [] = refl
  calls_of_returned (a ∷ xs) = calls_of_returned xs

  length-calls_of : (xs : Answers P) → length (calls_of xs) ≡ length xs
  length-calls_of [] = refl
  length-calls_of (a ∷ xs) = ap suc (length-calls_of xs)

  -- What PreAuth has to come to: the context of each provider under its own index, no authentication
  -- exactly when all need none, the earliest expiration within an hour, and an error exactly when
  -- there is one.
  pub record IsMerged (nil : P) (now : ℕ) (xs : Answers P)
      (r : ProviderContext (Contexts P) × Option Error) : Type 0 where
    pub own_context :
        (i : ℕ) (a : ProviderContext P × Option Error)
        → get_elem? xs i ≡ some a
        → context_for nil r.0.other i ≡ a.0
    pub bypass : (r.0.auth_bypass ≡ true) ↔ All (λ a. a.0.auth_bypass ≡ true) xs
    pub expiration :
        (m : ℕ)
        → (m ≤ r.0.auth_expiration) ↔ ((m ≤ now + hour) × All (λ a. m ≤ a.0.auth_expiration) xs)
    pub failure : (r.1 ≡ none) ↔ All (λ a. a.1 ≡ none) xs

  start : ℕ → Gathered P
  start now = record { other = []; errors = []; all_bypass = true; next_exp = now + hour }

  abbrev merged :
      ℕ
      → List (Option Error)
      → List (ℕ × ProviderContext P)
      → ProviderContext (Contexts P) × Option Error
  merged now es rs =
      let g = fold take_result rs (start now) in
      (
        record { auth_bypass = g.all_bypass; auth_expiration = g.next_exp; other = g.other },
        join_errors es,
      )

  merged-IsMerged :
      (nil : P) (now : ℕ) (xs : Answers P) (es : List (Option Error))
      (rs : List (ℕ × ProviderContext P))
      → Shuffle (auth_errors (calls_of xs)) es
      → Shuffle (results_from 0 (calls_of xs)) rs
      → IsMerged nil now xs (merged now es rs)
  unfolding start context_for lookup
  merged-IsMerged nil now xs es rs s t = record {
    own_context = λ i a h. found nil (
        fold-other (natural i) rs (start now)
        ∙ (fold-Shuffle (entry_step (natural i)) none t
              (results_from-AllCommute (natural i) 0 (calls_of xs))
            ∙ entry_at i a h));
    bypass =
        subst (λ b. (b ≡ true) ↔ All (λ a. a.0.auth_bypass ≡ true) xs) (sym same_bypass)
          (let c = fold-bypass 0 xs true in ((λ h. (c.0 h).1), (λ h. c.1 (refl, h))));
    expiration = λ m.
        subst (λ e. (m ≤ e) ↔ ((m ≤ now + hour) × All (λ a. m ≤ a.0.auth_expiration) xs))
          (sym same_expiration) (fold-expiration 0 xs (now + hour) m);
    failure =
        let j = join_errors-none es in
        let a = auth_errors-none xs in
        ((λ h. a.0 (All-Shuffle_back IsNone s (j.0 h))), (λ h. j.1 (All-Shuffle IsNone s (a.1 h))));
  }
    where
      found :
          {o : Option (ProviderContext P)} {a : ProviderContext P} (n : P)
          → o ≡ some a
          → (elim o [
            | some pc ↦ pc
            | none ↦ record { auth_bypass = false; auth_expiration = 0; other = n }
          ])
            ≡ a
      found n e = rw e

      entry_at :
          (i : ℕ) (a : ProviderContext P × Option Error)
          → get_elem? xs i ≡ some a
          → fold (entry_step (natural i)) (results_from 0 (calls_of xs)) none ≡ some a.0
      entry_at i a h =
          let z : 0 + i ≡ i = omega arith in
          subst (λ k. fold (entry_step (natural k)) (results_from 0 (calls_of xs)) none ≡ some a.0)
            z (fold-entry 0 i xs a none h)

      same_bypass :
          (fold take_result rs (start now)).all_bypass
          ≡ fold bypass_step (results_from 0 (calls_of xs)) true
      same_bypass =
          fold-all_bypass rs (start now)
          ∙ fold-Shuffle bypass_step true t (AllCommute_lem bypass_step bypass-Commute _)

      same_expiration :
          (fold take_result rs (start now)).next_exp
          ≡ fold expiration_step (results_from 0 (calls_of xs)) (now + hour)
      same_expiration =
          fold-next_exp rs (start now)
          ∙ fold-Shuffle expiration_step (now + hour) t
              (AllCommute_lem expiration_step expiration-Commute _)

  -- When no provider panics, PreAuth returns, and in whatever orders the results and the errors arrive
  -- it returns what IsMerged says: the context of each provider under its own index, a bypass exactly
  -- when all bypass, the earliest expiration within an hour, and an error exactly when there is one.
  pub pre_auth-IsMerged :
      (nil : P) (now : ℕ) (xs : Answers P) (es : List (Option Error))
      (rs : List (ℕ × ProviderContext P))
      → Shuffle (auth_errors (calls_of xs)) es
      → Shuffle (results_from 0 (calls_of xs)) rs
      → (r : ProviderContext (Contexts P) × Option Error) × (pre_auth now (length xs) es rs
          ≡ done r)
        × IsMerged nil now xs r
  unfolding pre_auth finish_auth start
  pre_auth-IsMerged nil now xs es rs s t = (
    merged now es rs,
    ap finish_auth (
        gather-done (length xs) es rs (start now)
          (omega (arith, length-Shuffle s, length-auth_errors (calls_of xs), length-calls_of xs))
          (omega (
            arith,
            length-Shuffle t,
            length-calls_of xs,
            length-results_from 0 (calls_of xs) (calls_of_returned xs),
          ))),
    merged-IsMerged nil now xs es rs s t,
  )

  -- PreAuth waits for ever exactly when a provider panics, in whatever order results and errors arrive.
  pub pre_auth_blocked_iff :
      (now : ℕ) (cs : List (Call (ProviderContext P))) (es : List (Option Error))
      (rs : List (ℕ × ProviderContext P))
      → Shuffle (auth_errors cs) es
      → Shuffle (results_from 0 cs) rs
      → (pre_auth now (length cs) es rs ≡ blocked) ↔ (panics cs ≡ true)
  unfolding pre_auth finish_auth start
  pre_auth_blocked_iff now cs es rs s t = elim (Bool-cases (panics cs)) [
    | inl p ↦ (
      (λ h. p),
      (λ h. ap finish_auth (
          gather-blocked (length cs) es rs (start now)
            (omega (arith, length-Shuffle t, length-results_from_lt 0 cs p)))),
    )
    | inr p ↦
        (let e =
            gather-done (length cs) es rs (start now)
              (omega (arith, length-Shuffle s, length-auth_errors cs))
              (omega (arith, length-Shuffle t, length-results_from 0 cs p)) in
          (
            (λ h. absurd (done_ne_blocked (sym (ap finish_auth e) ∙ h))),
            (λ h. absurd (let k : false ≡ true = sym p ∙ h in cc)),
          ))
  ]
    where
      done_ne_blocked : {A : Type 0} {a : A} → done a ≢ blocked
      done_ne_blocked h = cc
