-- ===== src/Layer/Refs/Acyclic.antt =====
-- validateRefs accepts exactly the configurations whose references form no cycle.
use mathlib.Core.Bool.{false≢true}
use tilegroxy.Base.{
  ℕ, suc, ◌<◌, true, false, List, [], ◌∷◌, ◌≡◌, ◌≢◌, refl, sym, subst, ◌∙◌, ◌⊎◌, ◌↔◌, inl, inr,
  ◌||◌, length, Text, text_eq, text_eq_iff, lookup, arith, Bool-cases, contains,
}
use tilegroxy.Layer.Refs.{
  Graph, white, gray, black, Search, unknown_target, ref_cycle, out_of_fuel, Result, ok, err,
  has_refs, color_of, visit, visit_all, check_cycles, LayerConfig, refs_by_layer, targets,
  has_pattern_layer, known_ids, targets_known, all_known, validate_refs,
}
use tilegroxy.Layer.Refs.Cycles.{
  Reaches, one, more, Acc-not-Reaches, BlackEnds, Grows-refl, whites, whites-le, whites-le-length,
}
use tilegroxy.Layer.Refs.Visit.{Ends, Ends-bind, Ends-map, Color-cases, visit-Ends}

-- A search from a layer that is not gray, as the loop over all layers starts it.
start-Ends :
    (g : Graph) (fuel : ℕ) (id : Text) (st : Search)
    → has_refs g id ≡ true
    → BlackEnds g st
    → ((k : Text) → color_of st k ≢ gray)
    → whites g st < fuel
    → Ends g st
        (λ s. color_of s id ≡ black)
        (elim (color_of st id) [ white ↦ visit g fuel id st | _ ↦ ok st ])
start-Ends g fuel id st h b ng w = elim (Color-cases (color_of st id)) [
  | inl e ↦ rw e (visit-Ends g fuel id st b (λ k gr. absurd (ng k gr)) h w)
  | inr (inl e) ↦ absurd (ng id e)
  | inr (inr e) ↦ rw e (b, Grows-refl st, (λ k hk. hk), e)
]

abbrev KeysBlack : Graph → Search → Type 0
KeysBlack keys s = (k : Text) → has_refs keys k ≡ true → color_of s k ≡ black

cons-KeysBlack :
    (id : Text) (ts : List Text) (rest : Graph) (s : Search)
    → color_of s id ≡ black
    → KeysBlack rest s
    → KeysBlack ((id, ts) ∷ rest) s
unfolding has_refs lookup
cons-KeysBlack id ts rest s h hs k m = elim (Bool-cases (text_eq id k)) [
  | inl e ↦ subst (λ x. color_of s x ≡ black) ((text_eq_iff id k).0 e) h
  | inr e ↦ hs k (ground arith)
]

has_refs-cons :
    (id k : Text) (ts : List Text) (rest : Graph)
    → has_refs ((id, ts) ∷ rest) k ≡ (text_eq id k || has_refs rest k)
unfolding has_refs lookup
has_refs-cons id k ts rest = ground arith

all-Ends :
    (g : Graph) (fuel : ℕ) (rest : Graph) (st : Search)
    → ((k : Text) → has_refs rest k ≡ true → has_refs g k ≡ true)
    → BlackEnds g st
    → ((k : Text) → color_of st k ≢ gray)
    → whites g st < fuel
    → Ends g st (KeysBlack rest) (visit_all g fuel rest st)
unfolding visit_all
all-Ends g fuel [] st sub b ng w =
    (b, Grows-refl st, (λ k h. h), (λ k h. unfold has_refs lookup in absurd (false≢true h)))
all-Ends g fuel ((id, ts) ∷ rest) st sub b ng w =
    let here : has_refs ((id, ts) ∷ rest) id ≡ true =
      ground (arith, has_refs-cons id id ts rest, text_eq_iff id id) in
    let later = λ (k : Text) (h : has_refs rest k ≡ true).
      sub k (ground (arith, has_refs-cons id k ts rest)) in
    Ends-bind g st (λ s. color_of s id ≡ black) (KeysBlack ((id, ts) ∷ rest)) _ _
      (start-Ends g fuel id st (sub id here) b ng w)
      (λ s b' gr nw p.
        Ends-map g s (KeysBlack rest) (KeysBlack ((id, ts) ∷ rest)) _
          (λ s' gr' q. cons-KeysBlack id ts rest s' (gr'.keeps id p) q)
          (all-Ends g fuel rest s later b' (λ k h. ng k (gr.gray_back k h))
            (omega (arith, whites-le g st s nw))))

abbrev start : Search
start = record { color = []; path = [] }

start_white : (k : Text) → color_of start k ≡ white
unfolding color_of lookup
start_white k = refl

check_cycles-Ends : (g : Graph) → Ends g start (KeysBlack g) (check_cycles g)
unfolding check_cycles
check_cycles-Ends g =
    all-Ends g (suc (length g)) g start (λ k h. h)
      (λ k h. absurd (white≢black (sym (start_white k) ∙ h)))
      (λ k h. white≢gray (sym (start_white k) ∙ h)) (omega (arith, whites-le-length g start))
  where
    white≢black : white ≢ black
    white≢black e = cc

    white≢gray : white ≢ gray
    white≢gray e = cc

Reaches-has_refs : {g : Graph} {s t : Text} → Reaches g s t → has_refs g t ≡ true
Reaches-has_refs (one e) = e.1
Reaches-has_refs (more r e) = e.1

searched_iff :
    (g : Graph) (r : Result Search)
    → Ends g start (KeysBlack g) r
    → ((st : Search) × (r ≡ ok st)) ↔ ((k : Text) → ¬ Reaches g k k)
searched_iff g (ok st) (b, gr, nw, all) =
    ((λ _ k c. Acc-not-Reaches g k (b k (all k (Reaches-has_refs c))) c), (λ _. (st, refl)))
searched_iff g (err unknown_target) e = absurd e
searched_iff g (err (ref_cycle p)) (k, c) = ((λ h. absurd (cc h.1)), (λ h. absurd (h k c)))
searched_iff g (err out_of_fuel) e = absurd e

-- The search for cycles, with one unit of fuel more than there are layers, accepts a graph of
-- references exactly when no layer reaches itself.
pub check_cycles_iff :
    (g : Graph) → ((st : Search) × (check_cycles g ≡ ok st)) ↔ ((k : Text) → ¬ Reaches g k k)
check_cycles_iff g = searched_iff g (check_cycles g) (check_cycles-Ends g)

all_known-contains :
    (known ts : List Text) (t : Text)
    → all_known known ts ≡ true
    → contains ts t ≡ true
    → contains known t ≡ true
unfolding all_known contains
all_known-contains known [] t h m = cc
all_known-contains known (x ∷ ts) t h m =
    ground (arith, all_known-contains known ts t, text_eq_iff x t)

targets_known-contains :
    (known : List Text) (g : Graph) (id t : Text)
    → targets_known known g ≡ true
    → contains (targets g id) t ≡ true
    → contains known t ≡ true
unfolding targets_known targets lookup
targets_known-contains known [] id t h m = unfold contains in cc
targets_known-contains known ((k, ts) ∷ g) id t h m =
    ground (arith, targets_known-contains known g id t, all_known-contains known ts t)

validate_refs-parts :
    (ls : List LayerConfig) (st : Search)
    → validate_refs ls ≡ ok st
    → (check_cycles (refs_by_layer ls) ≡ ok st)
      × ((has_pattern_layer ls ≡ true) ⊎ (targets_known (known_ids ls) (refs_by_layer ls) ≡ true))
unfolding validate_refs
validate_refs-parts ls st h = ground arith

-- If validateRefs passes, then no layer reaches itself by references.
pub validate_refs_acyclic :
    (ls : List LayerConfig) (st : Search)
    → validate_refs ls ≡ ok st
    → (k : Text) → ¬ Reaches (refs_by_layer ls) k k
validate_refs_acyclic ls st h =
    (check_cycles_iff (refs_by_layer ls)).0 (st, (validate_refs-parts ls st h).0)

-- If validateRefs passes and no layer has a pattern, every layer that a reference names is the ID of
-- a configured layer.
validate_refs_known :
    (ls : List LayerConfig) (st : Search) (id t : Text)
    → validate_refs ls ≡ ok st
    → has_pattern_layer ls ≡ false
    → contains (targets (refs_by_layer ls) id) t ≡ true
    → contains (known_ids ls) t ≡ true
validate_refs_known ls st id t h e m =
    let k : targets_known (known_ids ls) (refs_by_layer ls) ≡ true =
      ground (arith, validate_refs-parts ls st h) in
    targets_known-contains (known_ids ls) (refs_by_layer ls) id t k m
