-- ===== src/Server/Health/Freshness.antt =====
-- The health endpoint against the history of the checks.
use tilegroxy.Base.{
  ℕ, suc, ◌+◌, ◌≤◌, ◌≡◌, ◌≢◌, ◌↔◌, inl, inr, refl, sym, ap, ◌∙◌, Bool, true, false, subst, ◌&&◌,
  List, [], ◌∷◌, ◌++◌, Option, none, some, some-injective, if◌then◌else◌, ltb, ◌==◌, Text, codes,
  text_eq, All, arith, Bool-cases, Option-cases,
}
use tilegroxy.Errors.{Error}
use tilegroxy.Server.Response.{Header}
use tilegroxy.Server.Health.{
  check_leeway, CheckResult, Results, Body, Environment, Detail, timed_detail, result_detail,
  check_detail, details_from, with_cache, body_of, write_body, serve_health, finished, panicked,
  store, tick_check, ttl_of, Event, ticked, start_draining, apply_event, run,
}

-- Shutdown has begun.
abbrev pub IsDraining : List Event → Type 0
IsDraining [] = ⊥
IsDraining (start_draining ∷ es) = Unit
IsDraining (ticked i t o ∷ es) = IsDraining es

-- Not the end of a call of the check that stores a result.
abbrev pub IsOther : ℕ → Event → Type 0
IsOther i (ticked j t (finished e)) = i ≢ j
IsOther i (ticked j t panicked) = Unit
IsOther i start_draining = Unit

-- The last call of the check that did not panic ended at the time, with the error or none.
pub record LastResult (i t : ℕ) (e : Option Error) (es : List Event) : Type 0 where
  pub later : List Event
  pub earlier : List Event
  pub split : es ≡ later ++ (ticked i t (finished e) ∷ earlier)
  pub none_later : All (IsOther i) later

status_cases :
    (d f : Bool) (n : ℕ)
    → n ≡ (if d then 503 else if f then 200 else 500)
    → ((n ≡ 503) ↔ (d ≡ true)) × ((n ≡ 200) ↔ ((d ≡ false) × (f ≡ true)))
status_cases d f n h =
    (((λ q. ground arith), (λ q. ground arith)), ((λ q. ground arith), (λ q. ground arith)))

not_both : (b : Bool) → b ≡ false → b ≡ true → ⊥
not_both b h k = cc

never_true : (b : Bool) → (b ≡ true → ⊥) → b ≡ false
never_true true h = absurd (h refl)
never_true false h = refl

module _ (delay : ℕ → ℕ) where
  draining_iff : (es : List Event) → ((run delay es).draining ≡ true) ↔ IsDraining es
  unfolding run apply_event
  draining_iff [] = ((λ h. absurd (let k : false ≡ true = h in cc)), (λ h. absurd h))
  draining_iff (start_draining ∷ es) = ((λ h. tt), (λ h. refl))
  draining_iff (ticked i t o ∷ es) = draining_iff es

  abbrev result_at : ℕ → ℕ → Option Error → CheckResult
  result_at i t e = record { failure = e; timestamp = t; ttl = ttl_of (delay i) }

  LastResult-cons :
      {i t : ℕ} {e : Option Error} {es : List Event} (x : Event)
      → IsOther i x
      → LastResult i t e es
      → LastResult i t e (x ∷ es)
  LastResult-cons x h l = record {
    later = x ∷ l.later;
    earlier = l.earlier;
    split = ap (◌∷◌ x) l.split;
    none_later = (h, l.none_later);
  }

  -- What is stored is the last result.
  stored_last :
      (i : ℕ) (es : List Event) (r : CheckResult)
      → (run delay es).results i ≡ some r
      → (t : ℕ) × (e : Option Error) × (LastResult i t e es) × (r ≡ result_at i t e)
  unfolding run apply_event tick_check store
  stored_last i [] r h = absurd (let k : none ≡ some r = h in cc)
  stored_last i (start_draining ∷ es) r h =
      let (t, e, l, k) = stored_last i es r h in (t, e, LastResult-cons start_draining tt l, k)
  stored_last i (ticked j t panicked ∷ es) r h =
      let (t', e, l, k) = stored_last i es r h in
      (t', e, LastResult-cons (ticked j t panicked) tt l, k)
  stored_last i (ticked j t (finished e) ∷ es) r h = elim (Bool-cases (j == i)) [
    | inl k ↦
        (let same : j ≡ i = ground arith in
          (
            t,
            e,
            record {
              later = [];
              earlier = es;
              split = ap (λ m. ticked m t (finished e) ∷ es) same;
              none_later = tt;
            },
            own j same (some-injective _ _ (rw k at h)),
          ))
    | inr k ↦
        (let (t', e', l, m) = stored_last i es r (rw k at h) in
          (t', e', LastResult-cons (ticked j t (finished e)) (λ (q : i ≡ j). ground arith) l, m))
  ]
    where
      own :
          (n : ℕ)
          → n ≡ i
          → record { failure = e; timestamp = t; ttl = ttl_of (delay n) } ≡ r
          → r ≡ result_at i t e
      own n same q = sym q ∙ ap (λ m. result_at m t e) same

  last_stored :
      (i t : ℕ) (e : Option Error) (later earlier : List Event)
      → All (IsOther i) later
      → (run delay (later ++ (ticked i t (finished e) ∷ earlier))).results i
        ≡ some (result_at i t e)
  unfolding run apply_event tick_check store
  last_stored i t e [] earlier h = let k : (i == i) ≡ true = ground arith in rw k refl
  last_stored i t e (start_draining ∷ xs) earlier h = last_stored i t e xs earlier h.1
  last_stored i t e (ticked j u panicked ∷ xs) earlier h = last_stored i t e xs earlier h.1
  last_stored i t e (ticked j u (finished d) ∷ xs) earlier h =
      let k : (j == i) ≡ false = ground (arith, h.0) in rw k (last_stored i t e xs earlier h.1)

  -- A check passes when its last result is a success that is not older than its TTL and the leeway.
  pub record IsPassing (now i : ℕ) (es : List Event) : Type 0 where
    pub time : ℕ
    pub last : LastResult i time none es
    pub fresh : now ≤ time + ttl_of (delay i) + check_leeway

  -- The checks from an index on.
  abbrev pub AllPassing : ℕ → ℕ → List Text → List Event → Type 0
  AllPassing now i [] es = Unit
  AllPassing now i (name ∷ names) es = IsPassing now i es × AllPassing now (suc i) names es

  module _ (env : Environment) where
    result_passing :
        (now : ℕ) (d : Detail) (r : CheckResult) (o : Option Error)
        → ((result_detail env now d r o).1 ≡ true)
          ↔ ((o ≡ none) × (now ≤ r.timestamp + r.ttl + check_leeway))
    unfolding result_detail
    result_passing now d r (some e) = (
      (λ h. absurd (let k : false ≡ true = h in cc)),
      (λ h. absurd (let k : some e ≡ none = h.0 in cc)),
    )
    result_passing now d r none = elim (Bool-cases (ltb (r.timestamp + r.ttl + check_leeway) now)) [
      | inl k ↦ rw k (
        (λ h. absurd (let z : false ≡ true = h in cc)),
        (λ h. absurd (let z = h.1 in ground arith)),
      )
      | inr k ↦ rw k ((λ h. (refl, ground arith)), (λ h. refl))
    ]

    detail-IsPassing :
        (now i : ℕ) (name : Text) (es : List Event)
        → ((check_detail env now i name (run delay es).results).1 ≡ true) ↔ IsPassing now i es
    unfolding check_detail
    detail-IsPassing now i name es = (passing, passes)
      where
        at_last :
            (t : ℕ) → LastResult i t none es → (run delay es).results i ≡ some (result_at i t none)
        at_last t l =
            ap (λ xs. (run delay xs).results i) l.split
            ∙ last_stored i t none l.later l.earlier l.none_later

        fresh_last :
            (t : ℕ) (e : Option Error)
            → LastResult i t e es
            → (r : CheckResult) → r ≡ result_at i t e
            → r.failure ≡ none
            → now ≤ r.timestamp + r.ttl + check_leeway
            → IsPassing now i es
        fresh_last t e l r m p q = record {
          time = t;
          last =
              subst (λ o. LastResult i t o es) (sym (ap (λ (x : CheckResult). x.failure) m) ∙ p) l;
          fresh = subst (λ (x : CheckResult). now ≤ x.timestamp + x.ttl + check_leeway) m q;
        }

        passing : (check_detail env now i name (run delay es).results).1 ≡ true → IsPassing now i es
        passing h = elim (Option-cases ((run delay es).results i)) [
          | inl k ↦ absurd (let z : false ≡ true = rw (k, check_detail) at h in cc)
          | inr (r, k) ↦
              (let (t, e, l, m) = stored_last i es r k in
                let p =
                  (result_passing now (timed_detail i name r) r r.failure).0
                    (rw (k, check_detail) at h) in
                fresh_last t e l r m p.0 p.1)
        ]

        passes : IsPassing now i es → (check_detail env now i name (run delay es).results).1 ≡ true
        passes p =
            rw (at_last p.time p.last, check_detail)
              ((result_passing now (timed_detail i name (result_at i p.time none))
                  (result_at i p.time none) none).1
                (refl, p.fresh))

    details_passing :
        (now i : ℕ) (names : List Text) (es : List Event)
        → ((details_from env now i names (run delay es).results).1 ≡ true)
          ↔ AllPassing now i names es
    unfolding details_from
    details_passing now i [] es = ((λ h. tt), (λ h. refl))
    details_passing now i (name ∷ names) es =
        let d = detail-IsPassing now i name es in
        let ih = details_passing now (suc i) names es in
        (
          (λ h. let k = both _ _ h in (d.0 k.0, ih.0 k.1)),
          (λ h. let a = d.1 h.0 in let b = ih.1 h.1 in rw (a, b) refl),
        )
      where
        both : (a b : Bool) → (a && b) ≡ true → (a ≡ true) × (b ≡ true)
        both true b h = (refl, h)
        both false b h = let k : false ≡ true = h in cc

    served :
        (now : ℕ) (draining : Bool) (names : List Text) (cache : Results) (h : Header)
        → ((b : Body) → env.marshal b ≢ none)
        → (serve_health env now (codes "GET") draining names (some cache) h).status
          ≡ (if draining then 503 else if (details_from env now 0 names cache).1 then 200 else 500)
    unfolding serve_health with_cache write_body text_eq
    served now true names cache h m = refl
    served now false names cache h m =
        elim (Option-cases (env.marshal (body_of env (with_cache env now names (some cache))))) [
          | inl k ↦ absurd (m _ k)
          | inr (text, k) ↦ rw (k, write_body) refl
        ]

    -- What a GET request is answered after any history, when the body can be encoded: 503 exactly when
    -- shutdown has begun; and 200 exactly when it has not and, for every check, the last call that ended
    -- without a panic was a success no longer ago than the check's TTL and five seconds.
    pub serve_health-status :
        (now : ℕ) (names : List Text) (es : List Event) (h : Header)
        → ((b : Body) → env.marshal b ≢ none)
        → (((serve_health env now
                (codes "GET")
                (run delay es).draining
                names
                (some (run delay es).results)
                h).status
              ≡ 503)
            ↔ IsDraining es)
          × (((serve_health env now
                  (codes "GET")
                  (run delay es).draining
                  names
                  (some (run delay es).results)
                  h).status
                ≡ 200)
              ↔ ((¬ IsDraining es) × AllPassing now 0 names es))
    serve_health-status now names es h m =
        let c = draining_iff es in
        let d = details_passing now 0 names es in
        let s = served now (run delay es).draining names (run delay es).results h m in
        let r =
          status_cases (run delay es).draining
            (details_from env now 0 names (run delay es).results).1 _ s in
        (
          ((λ q. c.0 (r.0.0 q)), (λ q. r.0.1 (c.1 q))),
          (
            (λ q. let k = r.1.0 q in ((λ z. not_both _ k.0 (c.1 z)), d.0 k.1)),
            (λ q. r.1.1 (never_true _ (λ z. q.0 (c.0 z)), d.1 q.1)),
          ),
        )
