-- ===== src/Layer/Refs/Visit.antt =====
-- What each call of visit in validateRefs leaves behind, by induction on its fuel.
use mathlib.Core.Bool.{false≢true}
use mathlib.Core.WellFounded.{Acc}
use tilegroxy.Base.{
  ℕ, zero, suc, ◌<◌, true, List, [], ◌∷◌, ◌≡◌, refl, sym, subst, ◌∙◌, ◌⊎◌, inl, inr, Text, text_eq,
  text_eq_iff, contains, arith, Bool-cases,
}
use tilegroxy.Layer.Refs.{
  Graph, Color, white, gray, black, Search, unknown_target, ref_cycle, out_of_fuel, Result, ok, err,
  ◌>>=◌, targets, has_refs, color_of, enter, leave, visit_targets, visit,
}
use tilegroxy.Layer.Refs.Cycles.{
  Edge, Reaches, one, more, color-enter, color-leave, BlackEnds, Grows, Grows-refl, Grows-trans,
  whites, NoneWhiter, whites-le, whites-enter,
}

abbrev pub HasCycle : Graph → Type 0
HasCycle g = (k : Text) × Reaches g k k

-- What a part of the search leaves behind, if it started with `st` and had `Done` to reach: it
-- never runs out of fuel, and an error means a cycle.
abbrev pub Ends : Graph → Search → (Search → Type 0) → Result Search → Type 0
Ends g st Done (ok st') = BlackEnds g st' × Grows st st' × NoneWhiter st st' × Done st'
Ends g st Done (err unknown_target) = ⊥
Ends g st Done (err (ref_cycle p)) = HasCycle g
Ends g st Done (err out_of_fuel) = ⊥

-- A gray layer leads to the layer at hand.
abbrev pub GrayReach : Graph → Search → Text → Type 0
GrayReach g st id = (k : Text) → color_of st k ≡ gray → Reaches g k id

abbrev pub VisitEnds : Graph → ℕ → (Text → Search → Result Search) → Type 0
VisitEnds g bound visit =
    (id : Text) (st : Search)
    → BlackEnds g st
    → GrayReach g st id
    → has_refs g id ≡ true
    → whites g st < bound
    → Ends g st (λ st'. color_of st' id ≡ black) (visit id st)

-- Each target with references is black in the end.
abbrev pub AllBlack : Graph → List Text → Search → Type 0
AllBlack g ts st = (t : Text) → contains ts t ≡ true → has_refs g t ≡ true → color_of st t ≡ black

Ends-from :
    (g : Graph) (st st' : Search) (Q : Search → Type 0) (r : Result Search)
    → Grows st st'
    → NoneWhiter st st'
    → Ends g st' Q r
    → Ends g st Q r
Ends-from g st st' Q (ok s) gr w (b, gr', w', q) =
    (b, Grows-trans st st' s gr gr', (λ k h. w k (w' k h)), q)
Ends-from g st st' Q (err unknown_target) gr w e = e
Ends-from g st st' Q (err (ref_cycle p)) gr w e = e
Ends-from g st st' Q (err out_of_fuel) gr w e = e

pub Ends-map :
    (g : Graph) (st : Search) (P Q : Search → Type 0) (r : Result Search)
    → ((s : Search) → Grows st s → P s → Q s)
    → Ends g st P r
    → Ends g st Q r
Ends-map g st P Q (ok s) f (b, gr, w, p) = (b, gr, w, f s gr p)
Ends-map g st P Q (err unknown_target) f e = e
Ends-map g st P Q (err (ref_cycle p)) f e = e
Ends-map g st P Q (err out_of_fuel) f e = e

cons-AllBlack :
    (g : Graph) (t : Text) (ts : List Text) (st : Search)
    → (has_refs g t ≡ true → color_of st t ≡ black)
    → AllBlack g ts st
    → AllBlack g (t ∷ ts) st
unfolding contains
cons-AllBlack g t ts st h hs k m hr = elim (Bool-cases (text_eq t k)) [
  | inl e ↦ subst (λ x. has_refs g x ≡ true → color_of st x ≡ black) ((text_eq_iff t k).0 e) h hr
  | inr e ↦ hs k (rw e at m) hr
]

pub Ends-bind :
    (g : Graph) (st : Search) (P Q : Search → Type 0) (r : Result Search)
    (next : Search → Result Search)
    → Ends g st P r
    → ((st' : Search)
        → BlackEnds g st'
        → Grows st st'
        → NoneWhiter st st'
        → P st'
        → Ends g st' Q (next st'))
    → Ends g st Q (r >>= next)
Ends-bind g st P Q (ok st') next (b, gr, w, p) h =
    Ends-from g st st' Q (next st') gr w (h st' b gr w p)
Ends-bind g st P Q (err unknown_target) next e h = e
Ends-bind g st P Q (err (ref_cycle p)) next e h = e
Ends-bind g st P Q (err out_of_fuel) next e h = e

-- A gray layer is the layer at hand or leads to it.
abbrev GrayAt : Graph → Search → Text → Type 0
GrayAt g st id = (k : Text) → color_of st k ≡ gray → (k ≡ id) ⊎ Reaches g k id

GrayAt-Edge :
    (g : Graph) (st : Search) (id t : Text) → GrayAt g st id → Edge g t id → GrayReach g st t
GrayAt-Edge g st id t r e k h = elim (r k h) [
  | inl same ↦ one (subst (λ x. Edge g t x) (sym same) e)
  | inr far ↦ more far e
]

targets-Ends :
    (g : Graph) (bound : ℕ) (visit : Text → Search → Result Search) (id : Text)
    → VisitEnds g bound visit
    → (ts : List Text) (st : Search)
    → ((t : Text) → contains ts t ≡ true → contains (targets g id) t ≡ true)
    → BlackEnds g st
    → GrayAt g st id
    → whites g st < bound
    → Ends g st (AllBlack g ts) (visit_targets g visit ts st)
unfolding visit_targets contains
targets-Ends g bound visit id v [] st sub b r w = (b, Grows-refl st, (λ k h. h), (λ t h. cc))
targets-Ends g bound visit id v (t ∷ ts) st sub b r w =
    let here : contains (t ∷ ts) t ≡ true = ground (arith, text_eq_iff t t) in
    let later = λ (k : Text) (m : contains ts k ≡ true). sub k (ground arith) in
    elim (Bool-cases (has_refs g t)) [
      | inl e ↦ rw e (
          Ends-bind g st (λ s. color_of s t ≡ black) (AllBlack g (t ∷ ts)) (visit t st) _
            (v t st b (GrayAt-Edge g st id t r (sub t here, e)) e w)
            (λ s b' gr nw p.
              Ends-map g s (AllBlack g ts) (AllBlack g (t ∷ ts)) _
                (λ s' gr' q. cons-AllBlack g t ts s' (λ _. gr'.keeps t p) q)
                (targets-Ends g bound visit id v ts s later b' (λ k h. r k (gr.gray_back k h))
                  (omega (arith, whites-le g st s nw)))))
      | inr e ↦ rw e (
          Ends-map g st (AllBlack g ts) (AllBlack g (t ∷ ts)) _
            (λ s gr q. cons-AllBlack g t ts s (λ h. absurd (false≢true (sym e ∙ h))) q)
            (targets-Ends g bound visit id v ts st later b r w))
    ]

enter-BlackEnds : (g : Graph) (id : Text) (st : Search) → BlackEnds g st → BlackEnds g (enter id st)
enter-BlackEnds g id st b k h = b k (ground (arith, color-enter id k st))

enter-GrayAt : (g : Graph) (id : Text) (st : Search) → GrayReach g st id → GrayAt g (enter id st) id
enter-GrayAt g id st r k h = elim (Bool-cases (text_eq id k)) [
  | inl e ↦ inl (sym ((text_eq_iff id k).0 e))
  | inr e ↦ inr (r k (ground (arith, color-enter id k st)))
]

leave-BlackEnds :
    (g : Graph) (id : Text) (st : Search)
    → BlackEnds g st
    → AllBlack g (targets g id) st
    → BlackEnds g (leave id st)
leave-BlackEnds g id st b all k h = elim (Bool-cases (text_eq id k)) [
  | inl e ↦
      subst (Acc (Edge g)) ((text_eq_iff id k).0 e) (Acc.intro id (λ t e'. b t (all t e'.0 e'.1)))
  | inr e ↦ b k (ground (arith, color-leave id k st))
]

around-Grows :
    (id : Text) (st s : Search)
    → color_of st id ≡ white
    → Grows (enter id st) s
    → Grows st (leave id s)
around-Grows id st s w gr = record {
  keeps =
      λ k h. ground (arith, color-leave id k s, color-enter id k st, gr.keeps k, text_eq_iff id k);
  gray_back = λ k h. ground (arith, color-leave id k s, color-enter id k st, gr.gray_back k);
}

leave-Ends :
    (g : Graph) (id : Text) (st : Search) (r : Result Search)
    → color_of st id ≡ white
    → Ends g (enter id st) (AllBlack g (targets g id)) r
    → Ends g st (λ s. color_of s id ≡ black) (r >>= λ s. ok (leave id s))
leave-Ends g id st (ok s) w (b, gr, nw, all) = (
  leave-BlackEnds g id s b all,
  around-Grows id st s w gr,
  (λ k h. ground (arith, color-leave id k s, color-enter id k st, nw k)),
  ground (arith, color-leave id id s, text_eq_iff id id),
)
leave-Ends g id st (err unknown_target) w e = e
leave-Ends g id st (err (ref_cycle p)) w e = e
leave-Ends g id st (err out_of_fuel) w e = e

pub Color-cases : (c : Color) → (c ≡ white) ⊎ (c ≡ gray) ⊎ (c ≡ black)
Color-cases white = inl refl
Color-cases gray = inr (inl refl)
Color-cases black = inr (inr refl)

pub visit-Ends : (g : Graph) (fuel : ℕ) → VisitEnds g fuel (visit g fuel)
unfolding visit
visit-Ends g zero id st b r h w = absurd (omega arith)
visit-Ends g (suc fuel) id st b r h w = elim (Color-cases (color_of st id)) [
  | inr (inl e) ↦ rw (e, visit) (id, r id e)
  | inr (inr e) ↦ rw (e, visit) (b, Grows-refl st, (λ k h. h), e)
  | inl e ↦
      rw (e, visit)
        (leave-Ends g id st _ e (
          targets-Ends g fuel (visit g fuel) id (visit-Ends g fuel) (targets g id) (enter id st)
            (λ t m. m) (enter-BlackEnds g id st b) (enter-GrayAt g id st r)
            (omega (arith, whites-enter g id st h e))))
]
