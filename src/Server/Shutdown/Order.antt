-- ===== src/Server/Shutdown/Order.antt =====
-- internal/server/shutdown.go: which phases of a shutdown run.
use tilegroxy.Base.{
  ℕ, suc, Bool, true, false, sym, ◌∙◌, append_assoc, append-nil, List, [], ◌∷◌, ◌++◌, Option, none,
  some, ◌≡◌, ◌≢◌, refl, ap, inl, inr, if-ind, ltb, Bool-cases, Option-cases, take,
}
use tilegroxy.Errors.{Error, join}
use tilegroxy.Server.Shutdown.{
  Phase, drain, server, health, generations, otel, logs, Teardown, steps, errors_of, join_all,
  run_steps, after_drain, before_logs, run_shutdown,
}

join_ne_none : (e : Error) (o : Option Error) → join (some e) o ≢ none
join_ne_none e none h = cc
join_ne_none e (some d) h = cc

pub join_all-none : (es : List Error) → join_all es ≡ none → es ≡ []
unfolding join_all
join_all-none [] h = refl
join_all-none (e ∷ es) h = absurd (join_ne_none e (join_all es) h)

-- The four phases between the drain and the logs.
abbrev pub sequence : List Phase
sequence = server ∷ (health ∷ (generations ∷ (otel ∷ [])))

-- A record of the phases that have run, which the world of a shutdown keeps: each call adds its phase,
-- and the wait adds none.
pub record Recorded {W : Type 0} (t : Teardown W) (done : W → List Phase) : Type 0 where
  pub runs : (p : Phase) (w : W) → done (t.run p w).1 ≡ done w ++ (p ∷ [])
  pub waits : (n : ℕ) (w : W) → done (t.wait n w).1 ≡ done w

no_errors : List Error → Bool
no_errors [] = true
no_errors (e ∷ es) = false

is_none : Option Error → Bool
is_none none = true
is_none (some e) = false

no_errors-append :
    (o : Option Error) (es : List Error)
    → no_errors (errors_of o ++ es) ≡ true
    → no_errors es ≡ true
unfolding no_errors errors_of
no_errors-append none es h = h
no_errors-append (some e) es h = cc

snoc_append : (xs ys : List Phase) (p : Phase) → (xs ++ (p ∷ [])) ++ ys ≡ xs ++ (p ∷ ys)
snoc_append xs ys p = append_assoc xs (p ∷ []) ys

is_none-join_all : (es : List Error) → is_none (join_all es) ≡ true → no_errors es ≡ true
unfolding no_errors is_none join_all
is_none-join_all [] h = refl
is_none-join_all (e ∷ es) h = elim (Option-cases (join_all es)) [
  | inl k ↦ (let z : false ≡ true = rw k at h in cc)
  | inr (d, k) ↦ (let z : false ≡ true = rw k at h in cc)
]

module _ {W : Type 0} (t : Teardown W) (done : W → List Phase) (r : Recorded t done) where
  -- From a world to a world, a beginning of the phases has run, and all of them if there is no error.
  IsOrdered : List Phase → W → Bool → W → Type 0
  IsOrdered ps w clean w2 =
      ((n : ℕ) × (done w2 ≡ done w ++ take n ps)) × (clean ≡ true → done w2 ≡ done w ++ ps)

  run_steps-IsOrdered :
      (ps : List Phase) (w : W)
      → IsOrdered ps w (no_errors (run_steps t ps w).0) (run_steps t ps w).1
  unfolding run_steps IsOrdered no_errors
  run_steps-IsOrdered [] w = ((0, sym (append-nil (done w))), (λ h. sym (append-nil (done w))))
  run_steps-IsOrdered (p ∷ ps) w = elim (Option-cases (t.context_error (t.run p w).1)) [
    | inl e ↦
        (let ((n, h), all) = run_steps-IsOrdered ps (t.run p w).1 in
          rw (e, run_steps)
            (
              (
                suc n,
                h ∙ (ap (λ x. x ++ take n ps) (r.runs p w) ∙ snoc_append (done w) (take n ps) p),
              ),
              (λ k.
                  all (no_errors-append (t.run p w).0 (run_steps t ps (t.run p w).1).0 k)
                  ∙ (ap (λ x. x ++ ps) (r.runs p w) ∙ snoc_append (done w) ps p)),
            ))
    | inr (x, e) ↦
        rw (e, run_steps)
          ((1, r.runs p w), (λ k. absurd (let z = no_errors-append (t.run p w).0 (x ∷ []) k in cc)))
  ]

  after_drain-IsOrdered :
      (w : W) → IsOrdered sequence w (is_none (after_drain t w).0) (after_drain t w).1
  unfolding after_drain IsOrdered
  after_drain-IsOrdered w =
      let (some_ran, all) = run_steps-IsOrdered steps w in
      (some_ran, (λ h. all (is_none-join_all (run_steps t steps w).0 h)))

  before_logs-IsOrdered :
      ((n : ℕ) (w : W) → (t.wait n w).0 ≡ true → t.context_error (t.wait n w).1 ≢ none)
      → (w : W) → IsOrdered sequence w (is_none (before_logs t w).0) (before_logs t w).1
  unfolding before_logs IsOrdered is_none
  before_logs-IsOrdered law w =
      let r' = t.wait t.delay w in
      let waited = r.waits t.delay w in
      if-ind (λ (o : Option Error × W). IsOrdered sequence w (is_none o.0) o.1) (ltb 0 t.delay)
        (λ d. elim (Bool-cases r'.0) [
          | inl e ↦ rw e (
            (0, waited ∙ sym (append-nil (done w))),
            (λ h. expired (t.context_error r'.1) (law t.delay w e) h),
          )
          | inr e ↦ rw e (
              let ((n, h), all) = after_drain-IsOrdered r'.1 in
              (
                (n, h ∙ ap (λ x. x ++ take n sequence) waited),
                (λ k. all k ∙ ap (λ x. x ++ sequence) waited),
              ))
        ])
        (λ d. after_drain-IsOrdered w)
    where
      expired : {A : Type 0} (o : Option Error) → o ≢ none → is_none o ≡ true → A
      expired none n h = absurd (n refl)
      expired (some e) n h = absurd (let z : false ≡ true = h in cc)

  -- In a world that records the phases that run, each adding itself at the end: a shutdown adds the
  -- drain, then a beginning of server, health, generations and telemetry in this order, and the logs
  -- last; if it returns no error, it adds all six. The wait adds nothing, and when it ends by the
  -- deadline, the context has an error.
  pub run_shutdown-steps :
      ((n : ℕ) (w : W) → (t.wait n w).0 ≡ true → t.context_error (t.wait n w).1 ≢ none)
      → (w : W)
      → ((n : ℕ) × (done (run_shutdown t w).1
            ≡ done w ++ (drain ∷ (take n sequence ++ (logs ∷ [])))))
        × ((run_shutdown t w).0 ≡ none
            → done (run_shutdown t w).1 ≡ done w ++ (drain ∷ (sequence ++ (logs ∷ []))))
  unfolding run_shutdown IsOrdered is_none
  run_shutdown-steps law w =
      let ((n, h), all) = before_logs-IsOrdered law (t.run drain w).1 in
      let closed = λ (ps : List Phase).
        λ (e : done (before_logs t (t.run drain w).1).1 ≡ done (t.run drain w).1 ++ ps).
          r.runs logs (before_logs t (t.run drain w).1).1
          ∙ (ap (λ x. x ++ (logs ∷ [])) (e ∙ ap (λ x. x ++ ps) (r.runs drain w))
              ∙ around (done w) ps) in
      ((n, closed (take n sequence) h), (λ k. closed sequence (all (ap is_none k))))
    where
      around :
          (xs ps : List Phase)
          → ((xs ++ (drain ∷ [])) ++ ps) ++ (logs ∷ []) ≡ xs ++ (drain ∷ (ps ++ (logs ∷ [])))
      around xs ps =
          append_assoc (xs ++ (drain ∷ [])) ps (logs ∷ [])
          ∙ snoc_append xs (ps ++ (logs ∷ [])) drain
