-- ===== src/Base/Shuffle.antt =====
-- The orders in which the values that goroutines send over a channel may arrive.
use mathlib.Core.Path.{◌≡◌, refl, ap, ◌∙◌}
use mathlib.Core.List.{List, [], ◌∷◌}
use native.Mathlib.Omega.{arith}
use tilegroxy.Base.Lists.{length, All}

module _ {ℓ} {A : Type ℓ} where
  -- The last list is the one in the middle with the value put in somewhere.
  pub data Inserted (x : A) : List A → List A → Type ℓ where
    here : (ys : List A) → Inserted x ys (x ∷ ys)
    there : {ys zs : List A} (y : A) → Inserted x ys zs → Inserted x (y ∷ ys) (y ∷ zs)

  -- The second list is the first one in some order.
  pub data Shuffle : List A → List A → Type ℓ where
    nothing : Shuffle [] []
    arrive : {xs ys zs : List A} (x : A) → Shuffle xs ys → Inserted x ys zs → Shuffle (x ∷ xs) zs

  pub Shuffle-refl : (xs : List A) → Shuffle xs xs
  Shuffle-refl [] = nothing
  Shuffle-refl (x ∷ xs) = arrive x (Shuffle-refl xs) (here xs)

  length-Inserted : {x : A} {ys zs : List A} → Inserted x ys zs → length zs ≡ length (x ∷ ys)
  length-Inserted (here ys) = refl
  length-Inserted (there y i) = omega (arith, length-Inserted i)

  pub length-Shuffle : {xs ys : List A} → Shuffle xs ys → length ys ≡ length xs
  length-Shuffle nothing = refl
  length-Shuffle (arrive x s i) = omega (arith, length-Shuffle s, length-Inserted i)

module _ {ℓ κ} {A : Type ℓ} (P : A → Type κ) where
  All-Inserted : {x : A} {ys zs : List A} → Inserted x ys zs → P x → All P ys → All P zs
  All-Inserted (here ys) p h = (p, h)
  All-Inserted (there y i) p h = (h.0, All-Inserted i p h.1)

  All-Inserted_back : {x : A} {ys zs : List A} → Inserted x ys zs → All P zs → P x × All P ys
  All-Inserted_back (here ys) h = h
  All-Inserted_back (there y i) h = let k = All-Inserted_back i h.1 in (k.0, (h.0, k.1))

  pub All-Shuffle_back : {xs ys : List A} → Shuffle xs ys → All P ys → All P xs
  All-Shuffle_back nothing h = h
  All-Shuffle_back (arrive x s i) h = let k = All-Inserted_back i h in (k.0, All-Shuffle_back s k.1)

  pub All-Shuffle : {xs ys : List A} → Shuffle xs ys → All P xs → All P ys
  All-Shuffle nothing h = h
  All-Shuffle (arrive x s i) h = All-Inserted i h.0 (All-Shuffle s h.1)

module _ {ℓ κ} {A : Type ℓ} {S : Type κ} (f : A → S → S) where
  -- A loop over the values in the order of their arrival.
  abbrev pub fold : List A → S → S
  fold [] s = s
  fold (x ∷ xs) s = fold xs (f x s)

  -- The steps of the two values may be taken in either order.
  abbrev pub Commute : A → A → Type κ
  Commute x y = (s : S) → f x (f y s) ≡ f y (f x s)

  abbrev pub AllCommute : List A → Type (ℓ ⊔ κ)
  AllCommute [] = Unit
  AllCommute (x ∷ xs) = All (Commute x) xs × AllCommute xs

  pub AllCommute_lem : ((x y : A) → Commute x y) → (xs : List A) → AllCommute xs
  AllCommute_lem h [] = tt
  AllCommute_lem h (x ∷ xs) = (each xs, AllCommute_lem h xs)
    where
      each : (ys : List A) → All (Commute x) ys
      each [] = tt
      each (y ∷ ys) = (h x y, each ys)

  fold-Inserted :
      {x : A} {ys zs : List A} (s : S)
      → Inserted x ys zs
      → All (Commute x) ys
      → fold zs s ≡ fold ys (f x s)
  fold-Inserted s (here ys) h = refl
  fold-Inserted {x} s (there {ys} y i) h = fold-Inserted (f y s) i h.1 ∙ ap (fold ys) (h.0 s)

  -- Steps that commute take any order of arrival to the same state.
  pub fold-Shuffle :
      {xs ys : List A} (s : S) → Shuffle xs ys → AllCommute xs → fold ys s ≡ fold xs s
  fold-Shuffle s nothing h = refl
  fold-Shuffle s (arrive x r i) h =
      fold-Inserted s i (All-Shuffle (Commute x) r h.0) ∙ fold-Shuffle (f x s) r h.1
