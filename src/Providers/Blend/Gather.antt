-- ===== src/Providers/Blend/Gather.antt =====
-- The loop of Blend.PreAuth that receives, whatever the order of what it receives.
use tilegroxy.Base.{
  ℕ, zero, suc, ◌≤◌, ◌<◌, ◌≡◌, ◌≢◌, ◌↔◌, refl, sym, ap, ◌∙◌, Bool, true, false, not, List, [], ◌∷◌,
  ◌++◌, append_assoc, append-nil, Option, none, some, if◌then◌else◌, ltb, length, Text, text_eq,
  text_eq_iff, lookup, lookup-insert, All, All-map, arith, Bool-cases, inl, inr,
}
use tilegroxy.Base.Int.{pos}
use tilegroxy.Base.Strconv.{natural, itoa, itoa-injective}
use tilegroxy.Base.Shuffle.{fold, AllCommute, Commute}
use tilegroxy.Errors.{Error, join}
use tilegroxy.Layer.Provide.{ProviderContext}
use tilegroxy.Providers.Blend.{
  Call, returned, panicked, done, blocked, join_errors, results_from, auth_errors, Gathered,
  take_result, gather,
}

-- Whether some call panics.
unfoldable pub panics : {A : Type 0} → List (Call A) → Bool
panics [] = false
panics (returned a e ∷ cs) = panics cs
panics (panicked m ∷ cs) = true

pub length-auth_errors : {A : Type 0} (cs : List (Call A)) → length (auth_errors cs) ≡ length cs
unfolding auth_errors
length-auth_errors [] = refl
length-auth_errors (c ∷ cs) = omega (arith, length-auth_errors cs)

length-results_from_le :
    {A : Type 0} (i : ℕ) (cs : List (Call A)) → length (results_from i cs) ≤ length cs
unfolding results_from
length-results_from_le i [] = omega arith
length-results_from_le i (returned a e ∷ cs) = omega (arith, length-results_from_le (suc i) cs)
length-results_from_le i (panicked m ∷ cs) = omega (arith, length-results_from_le (suc i) cs)

pub length-results_from :
    {A : Type 0} (i : ℕ) (cs : List (Call A))
    → panics cs ≡ false
    → length (results_from i cs) ≡ length cs
unfolding results_from panics
length-results_from i [] h = refl
length-results_from i (returned a e ∷ cs) h = omega (arith, length-results_from (suc i) cs h)
length-results_from i (panicked m ∷ cs) h = cc

pub length-results_from_lt :
    {A : Type 0} (i : ℕ) (cs : List (Call A))
    → panics cs ≡ true
    → length (results_from i cs) < length cs
unfolding results_from panics
length-results_from_lt i [] h = cc
length-results_from_lt i (returned a e ∷ cs) h = omega (arith, length-results_from_lt (suc i) cs h)
length-results_from_lt i (panicked m ∷ cs) h = omega (arith, length-results_from_le (suc i) cs)

-- Errors joined in any order are none exactly when each of them is.
abbrev pub IsNone : Option Error → Type 0
IsNone e = e ≡ none

pub join_errors-none : (es : List (Option Error)) → (join_errors es ≡ none) ↔ All IsNone es
unfolding join_errors
join_errors-none [] = ((λ h. tt), (λ h. refl))
join_errors-none (none ∷ es) =
    let ih = join_errors-none es in ((λ h. (refl, ih.0 h)), (λ h. ih.1 h.1))
join_errors-none (some e ∷ es) = (
  (λ h. absurd (joined_ne (join_errors es) h)),
  (λ h. absurd (let k : some e ≡ none = h.0 in cc)),
)
  where
    joined_ne : (o : Option Error) → join (some e) o ≢ none
    joined_ne none h = cc
    joined_ne (some d) h = cc

pub natural_ne_eq : (i j : ℕ) → i ≢ j → text_eq (natural i) (natural j) ≡ false
unfolding itoa
natural_ne_eq i j h = elim (Bool-cases (text_eq (natural i) (natural j))) [
  | inr e ↦ e
  | inl e ↦ absurd (h (same ((text_eq_iff (natural i) (natural j)).0 e)))
]
  where
    same : natural i ≡ natural j → i ≡ j
    same e = let k = itoa-injective (pos i) (pos j) e in cc

module _ {P : Type 0} where
  pub fold-errors :
      (rs : List (ℕ × ProviderContext P)) (g : Gathered P) (es : List (Option Error))
      → fold take_result rs (record g { errors = es })
        ≡ record (fold take_result rs g) { errors = es }
  unfolding take_result
  fold-errors [] g es = refl
  fold-errors (r ∷ rs) g es = fold-errors rs (take_result r g) es

  pub gather-done :
      (n : ℕ) (es : List (Option Error)) (rs : List (ℕ × ProviderContext P)) (g : Gathered P)
      → length es ≡ n
      → length rs ≡ n
      → gather n es rs g ≡ done (record (fold take_result rs g) { errors = g.errors ++ es })
  unfolding gather take_result
  gather-done zero [] [] g h k =
      ap (λ x. done (record g { errors = x })) (sym (append-nil g.errors))
  gather-done zero (e ∷ es) rs g h k = absurd (omega arith)
  gather-done zero [] (r ∷ rs) g h k = absurd (omega arith)
  gather-done (suc n) [] rs g h k = absurd (omega arith)
  gather-done (suc n) (e ∷ es) [] g h k = absurd (omega arith)
  gather-done (suc n) (e ∷ es) (r ∷ rs) g h k =
      let x = g.errors ++ (e ∷ []) in
      gather-done n es rs (take_result r (record g { errors = x })) (omega arith) (omega arith)
      ∙ (ap (λ (s : Gathered P). done (record s { errors = x ++ es }))
            (fold-errors rs (take_result r g) x)
          ∙ ap (λ l. done (record (fold take_result rs (take_result r g)) { errors = l }))
              (append_assoc g.errors (e ∷ []) es))

  pub gather-blocked :
      (n : ℕ) (es : List (Option Error)) (rs : List (ℕ × ProviderContext P)) (g : Gathered P)
      → length rs < n
      → gather n es rs g ≡ blocked
  unfolding gather
  gather-blocked zero es rs g h = absurd (omega arith)
  gather-blocked (suc n) [] rs g h = refl
  gather-blocked (suc n) (e ∷ es) [] g h = refl
  gather-blocked (suc n) (e ∷ es) (r ∷ rs) g h = gather-blocked n es rs _ (omega arith)

  -- The loop's variables, one by one.
  unfoldable pub bypass_step : ℕ × ProviderContext P → Bool → Bool
  bypass_step (i, pc) b = if not pc.auth_bypass then false else b

  unfoldable pub expiration_step : ℕ × ProviderContext P → ℕ → ℕ
  expiration_step (i, pc) t = if ltb pc.auth_expiration t then pc.auth_expiration else t

  unfoldable pub entry_step :
      Text → ℕ × ProviderContext P → Option (ProviderContext P) → Option (ProviderContext P)
  entry_step k (i, pc) o = if text_eq (natural i) k then some pc else o

  pub fold-all_bypass :
      (rs : List (ℕ × ProviderContext P)) (g : Gathered P)
      → (fold take_result rs g).all_bypass ≡ fold bypass_step rs g.all_bypass
  unfolding take_result bypass_step
  fold-all_bypass [] g = refl
  fold-all_bypass (r ∷ rs) g = fold-all_bypass rs (take_result r g)

  pub fold-next_exp :
      (rs : List (ℕ × ProviderContext P)) (g : Gathered P)
      → (fold take_result rs g).next_exp ≡ fold expiration_step rs g.next_exp
  unfolding take_result expiration_step
  fold-next_exp [] g = refl
  fold-next_exp (r ∷ rs) g = fold-next_exp rs (take_result r g)

  pub fold-other :
      (k : Text) (rs : List (ℕ × ProviderContext P)) (g : Gathered P)
      → lookup k (fold take_result rs g).other ≡ fold (entry_step k) rs (lookup k g.other)
  unfolding take_result entry_step
  fold-other k [] g = refl
  fold-other k ((i, pc) ∷ rs) g =
      fold-other k rs (take_result (i, pc) g)
      ∙ ap (fold (entry_step k) rs) (lookup-insert (natural i) k pc g.other)

  pub bypass-Commute : (x y : ℕ × ProviderContext P) → Commute bypass_step x y
  unfolding bypass_step
  bypass-Commute (i, a) (j, b) s = ground arith

  pub expiration-Commute : (x y : ℕ × ProviderContext P) → Commute expiration_step x y
  unfolding expiration_step
  expiration-Commute (i, a) (j, b) s = ground arith

  entry-Commute :
      (k : Text) (i j : ℕ) (a b : ProviderContext P) → i ≢ j → Commute (entry_step k) (i, a) (j, b)
  unfolding entry_step
  entry-Commute k i j a b h s =
      let e = natural_ne_eq i j h in
      ground (
        arith,
        text_eq_iff (natural i) k,
        text_eq_iff (natural j) k,
        text_eq_iff (natural i) (natural j),
      )

  -- Every result has its own index.
  pub results_from_le :
      (m i : ℕ) (cs : List (Call (ProviderContext P)))
      → m ≤ i
      → All (λ r. m ≤ r.0) (results_from i cs)
  unfolding results_from
  results_from_le m i [] h = tt
  results_from_le m i (returned a e ∷ cs) h = (h, results_from_le m (suc i) cs (omega arith))
  results_from_le m i (panicked x ∷ cs) h = results_from_le m (suc i) cs (omega arith)

  pub results_from-AllCommute :
      (k : Text) (i : ℕ) (cs : List (Call (ProviderContext P)))
      → AllCommute (entry_step k) (results_from i cs)
  unfolding results_from
  results_from-AllCommute k i [] = tt
  results_from-AllCommute k i (returned a e ∷ cs) = (
    All-map (λ r. suc i ≤ r.0) (results_from (suc i) cs)
        (λ r h. entry-Commute k i r.0 a r.1 (λ q. omega arith))
        (results_from_le (suc i) (suc i) cs (omega arith)),
    results_from-AllCommute k (suc i) cs,
  )
  results_from-AllCommute k i (panicked x ∷ cs) = results_from-AllCommute k (suc i) cs

  -- A key that no result has keeps its entry.
  pub fold-entry_other :
      (j : ℕ) (rs : List (ℕ × ProviderContext P)) (o : Option (ProviderContext P))
      → All (λ r. j < r.0) rs
      → fold (entry_step (natural j)) rs o ≡ o
  unfolding entry_step
  fold-entry_other j [] o h = refl
  fold-entry_other j ((i, a) ∷ rs) o h =
      rw (natural_ne_eq i j (λ e. let q = h.0 in omega arith)) (fold-entry_other j rs o h.1)
