-- ===== src/Layer/Refs/Cycles.antt =====
-- The search of validateRefs against the graph of references: what a call of visit does to the
-- colours, and what it means for the layers that end up black.
use mathlib.Core.WellFounded.{Acc}
use tilegroxy.Base.{
  ℕ, suc, ◌≤◌, ◌<◌, true, [], ◌∷◌, ◌≡◌, refl, sym, subst, ◌⊎◌, inl, inr, if◌then◌else◌, length,
  Text, text_eq, text_eq_iff, contains, lookup, lookup-insert, arith,
}
use tilegroxy.Layer.Refs.{
  Graph, white, gray, black, Search, targets, has_refs, color_of, enter, leave,
}

-- `t` is a layer with references that `id` refers to: an edge that the search follows.
abbrev pub Edge : Graph → Text → Text → Type 0
Edge g t id = (contains (targets g id) t ≡ true) × (has_refs g t ≡ true)

-- One or more references lead from the one layer to the other.
pub data Reaches (g : Graph) : Text → Text → Type 0 where
  one : {s t : Text} → Edge g t s → Reaches g s t
  more : {s t u : Text} → Reaches g s t → Edge g u t → Reaches g s u

first_step :
    {g : Graph} {s u : Text} → Reaches g s u → (t : Text) × Edge g t s × ((t ≡ u) ⊎ Reaches g t u)
first_step (one {t = t} e) = (t, e, inl refl)
first_step {g} (more {t = t} {u = u} r e) =
    let (k, e', rest) = first_step r in
    (
      k,
      e',
      inr (elim rest [ inl h ↦ one (subst (λ x. Edge g u x) (sym h) e) | inr r' ↦ more r' e ]),
    )

-- A layer from which every chain of references ends does not reach itself.
pub Acc-not-Reaches : (g : Graph) (s : Text) → Acc (Edge g) s → ¬ Reaches g s s
Acc-not-Reaches g s (Acc.intro _ f) r =
    let (t, e, rest) = first_step r in
    Acc-not-Reaches g t (f t e)
      (elim rest [ inl h ↦ one (subst (λ x. Edge g t x) (sym h) e) | inr r' ↦ more r' e ])

pub color-enter :
    (id k : Text) (st : Search)
    → color_of (enter id st) k ≡ (if text_eq id k then gray else color_of st k)
unfolding color_of enter
color-enter id k st = ground (arith, lookup-insert id k gray st.color)

pub color-leave :
    (id k : Text) (st : Search)
    → color_of (leave id st) k ≡ (if text_eq id k then black else color_of st k)
unfolding color_of leave
color-leave id k st = ground (arith, lookup-insert id k black st.color)

-- Every chain of references from a black layer ends.
abbrev pub BlackEnds : Graph → Search → Type 0
BlackEnds g st = (k : Text) → color_of st k ≡ black → Acc (Edge g) k

-- Black layers stay black, and no layer becomes gray.
pub record Grows (st st' : Search) : Type 0 where
  pub keeps : (k : Text) → color_of st k ≡ black → color_of st' k ≡ black
  pub gray_back : (k : Text) → color_of st' k ≡ gray → color_of st k ≡ gray

pub Grows-refl : (st : Search) → Grows st st
Grows-refl st = record { keeps = λ k h. h; gray_back = λ k h. h }

pub Grows-trans : (a b c : Search) → Grows a b → Grows b c → Grows a c
Grows-trans a b c p q = record {
  keeps = λ k h. q.keeps k (p.keeps k h);
  gray_back = λ k h. p.gray_back k (q.gray_back k h);
}

-- How many layers of the list are white.
pub whites : Graph → Search → ℕ
whites [] st = 0
whites ((k, ts) ∷ g) st = elim (color_of st k) [ white ↦ suc (whites g st) | _ ↦ whites g st ]

-- No layer becomes white.
abbrev pub NoneWhiter : Search → Search → Type 0
NoneWhiter st st' = (k : Text) → color_of st' k ≡ white → color_of st k ≡ white

pub whites-le : (g : Graph) (st st' : Search) → NoneWhiter st st' → whites g st' ≤ whites g st
unfolding whites
whites-le [] st st' h = omega arith
whites-le ((k, ts) ∷ g) st st' h = ground (arith, whites-le g st st' h, h k)

enter-NoneWhiter : (id : Text) (st : Search) → NoneWhiter st (enter id st)
enter-NoneWhiter id st k h = ground (arith, color-enter id k st)

pub whites-enter :
    (g : Graph) (id : Text) (st : Search)
    → has_refs g id ≡ true
    → color_of st id ≡ white
    → whites g (enter id st) < whites g st
unfolding whites has_refs lookup
whites-enter [] id st h w = ground arith
whites-enter ((k, ts) ∷ g) id st h w = ground (
  arith,
  text_eq_iff k id,
  text_eq_iff id k,
  color-enter id k st,
  whites-le g st (enter id st) (enter-NoneWhiter id st),
  whites-enter g id st,
)

pub whites-le-length : (g : Graph) (st : Search) → whites g st ≤ length g
unfolding whites
whites-le-length [] st = omega arith
whites-le-length ((k, ts) ∷ g) st = ground (arith, whites-le-length g st)
