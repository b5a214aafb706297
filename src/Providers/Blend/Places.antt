-- ===== src/Providers/Blend/Places.antt =====
-- What the goroutines of Blend.GenerateTile send, and the places of the images.
use tilegroxy.Base.{
  ℕ, zero, suc, ◌≤◌, ◌≡◌, ◌≢◌, refl, ap, subst, ◌∙◌, List, [], ◌∷◌, ◌++◌, append_assoc, Option,
  none, some, length, length-append, set, All, All-map, arith, inl, inr,
}
use tilegroxy.Base.Shuffle.{fold, AllCommute}
use tilegroxy.Errors.{Error, plain, join}
use tilegroxy.Tile.Bounds.{ok, Result-cases}
use tilegroxy.Layer.Provide.{Image}
use tilegroxy.Providers.Blend.{Call, returned, panicked, done}
use tilegroxy.Providers.Blend.Images.{
  Imaging, image_of, decode_error, images_from, no_image, blend_error, blend_errors, receive_values,
  place, no_images,
}
use tilegroxy.Providers.Blend.Gather.{IsNone}

pub receive_all : {A : Type 0} (n : ℕ) (xs : List A) → length xs ≡ n → receive_values n xs ≡ done xs
unfolding receive_values
receive_all zero [] h = refl
receive_all zero (x ∷ xs) h = absurd (omega arith)
receive_all (suc n) [] h = absurd (omega arith)
receive_all (suc n) (x ∷ xs) h = let e = receive_all n xs (omega arith) in rw e

set_commute :
    {A : Type 0} (s : List A) (i j : ℕ) (a b : A)
    → i ≢ j
    → set (set s j b) i a ≡ set (set s i a) j b
set_commute [] i j a b h = refl
set_commute (x ∷ s) zero zero a b h = absurd (h refl)
set_commute (x ∷ s) zero (suc j) a b h = refl
set_commute (x ∷ s) (suc i) zero a b h = refl
set_commute (x ∷ s) (suc i) (suc j) a b h = ap (◌∷◌ x) (set_commute s i j a b (λ e. h (ap suc e)))

set_middle :
    {A : Type 0} (s t : List A) (x y : A) → set (s ++ (x ∷ t)) (length s) y ≡ (s ++ (y ∷ [])) ++ t
set_middle [] t x y = refl
set_middle (z ∷ s) t x y = ap (◌∷◌ z) (set_middle s t x y)

module _ {I : Type 0} where
  unfoldable pub put : ℕ × Option I → List (Option I) → List (Option I)
  put (i, img) slots = set slots i img

  pub place-fold :
      (n : ℕ) (rs : List (ℕ × Option I)) (slots : List (Option I))
      → length rs ≡ n
      → place n rs slots ≡ done (fold put rs slots)
  unfolding place put
  place-fold zero [] slots h = refl
  place-fold zero (r ∷ rs) slots h = absurd (omega arith)
  place-fold (suc n) [] slots h = absurd (omega arith)
  place-fold (suc n) ((i, img) ∷ rs) slots h = place-fold n rs (set slots i img) (omega arith)

module _ {I F : Type 0} (g : Imaging I F) where
  -- What each provider returned, with the image that it decodes to, in the order of the providers.
  decoded : (img : Image) (i : I) → g.decode img.content ≡ ok i → image_of g img ≡ some i
  unfolding image_of
  decoded img i h = rw (h, image_of)

  decoded_error : (img : Image) (i : I) → g.decode img.content ≡ ok i → decode_error g img ≡ none
  unfolding decode_error
  decoded_error img i h = rw (h, decode_error)

  -- An image without an error of the decoder is decoded.
  decoded_of : (img : Image) → decode_error g img ≡ none → (i : I) × (g.decode img.content ≡ ok i)
  unfolding decode_error
  decoded_of img h = elim (Result-cases (g.decode img.content)) [
    | inl (e, k) ↦ absurd (let z : some e ≡ none = rw (k, decode_error) at h in cc)
    | inr r ↦ r
  ]

  unfoldable pub calls_of : List (Image × I) → List (Call (Option Image))
  calls_of [] = []
  calls_of ((img, i) ∷ xs) = returned (some img) none ∷ calls_of xs

  abbrev pub IsDecoded : List (Image × I) → Type 0
  IsDecoded = All (λ a. g.decode a.0.content ≡ ok a.1)

  pub length-calls_of : (xs : List (Image × I)) → length (calls_of xs) ≡ length xs
  unfolding calls_of
  length-calls_of [] = refl
  length-calls_of (a ∷ xs) = ap suc (length-calls_of xs)

  unfoldable pub images_of : List (Image × I) → List (Option I)
  images_of [] = []
  images_of ((img, i) ∷ xs) = some i ∷ images_of xs

  pub length-images_from :
      (i : ℕ) (xs : List (Image × I)) → length (images_from g i (calls_of xs)) ≡ length xs
  unfolding images_from calls_of
  length-images_from i [] = refl
  length-images_from i (a ∷ xs) = ap suc (length-images_from (suc i) xs)

  images_from_le :
      (m i : ℕ) (xs : List (Image × I)) → m ≤ i → All (λ r. m ≤ r.0) (images_from g i (calls_of xs))
  unfolding images_from calls_of
  images_from_le m i [] h = tt
  images_from_le m i (a ∷ xs) h = (h, images_from_le m (suc i) xs (omega arith))

  pub images_from-AllCommute :
      (i : ℕ) (xs : List (Image × I)) → AllCommute put (images_from g i (calls_of xs))
  unfolding images_from calls_of put
  images_from-AllCommute i [] = tt
  images_from-AllCommute i ((img, a) ∷ xs) = (
    All-map (λ r. suc i ≤ r.0) (images_from g (suc i) (calls_of xs))
        (λ r h s. set_commute s i r.0 (image_of g img) r.1 (λ q. omega arith))
        (images_from_le (suc i) (suc i) xs (omega arith)),
    images_from-AllCommute (suc i) xs,
  )

  pub fold-put :
      (front : List (Option I)) (xs : List (Image × I))
      → IsDecoded xs
      → fold put (images_from g (length front) (calls_of xs)) (front ++ no_images (length xs))
        ≡ front ++ images_of xs
  unfolding images_from calls_of put no_images image_of images_of
  fold-put front [] h = refl
  fold-put front ((img, i) ∷ xs) h =
      let e = set_middle front (no_images (length xs)) none (image_of g img) in
      let d = decoded img i h.0 in
      let k : length (front ++ (some i ∷ [])) ≡ suc (length front) =
        omega (arith, length-append front (some i ∷ [])) in
      ap (fold put (images_from g (suc (length front)) (calls_of xs)))
        (e ∙ ap (λ o. (front ++ (o ∷ [])) ++ no_images (length xs)) d)
      ∙ (subst
            (λ n.
              fold put (images_from g n (calls_of xs))
                ((front ++ (some i ∷ [])) ++ no_images (length xs))
              ≡ (front ++ (some i ∷ [])) ++ images_of xs)
            k (fold-put (front ++ (some i ∷ [])) xs h.1)
          ∙ append_assoc front (some i ∷ []) (images_of xs))

  pub blend_errors-IsNone :
      (xs : List (Image × I)) → IsDecoded xs → All IsNone (blend_errors g (calls_of xs))
  unfolding blend_errors blend_error decode_error calls_of
  blend_errors-IsNone [] h = tt
  blend_errors-IsNone ((img, i) ∷ xs) h = (decoded_error img i h.0, blend_errors-IsNone xs h.1)

  pub length-blend_errors :
      (cs : List (Call (Option Image))) → length (blend_errors g cs) ≡ length cs
  unfolding blend_errors
  length-blend_errors [] = refl
  length-blend_errors (c ∷ cs) = ap suc (length-blend_errors cs)

  -- Calls without an error have images that can be decoded.
  pub answers_of :
      (cs : List (Call (Option Image)))
      → All IsNone (blend_errors g cs)
      → (xs : List (Image × I)) × (cs ≡ calls_of xs) × IsDecoded xs
  unfolding blend_errors blend_error decode_error no_image calls_of
  answers_of [] h = ([], refl, tt)
  answers_of (returned (some img) (some e) ∷ cs) h = absurd (joined_ne (decode_error g img) h.0)
    where
      joined_ne : (o : Option Error) → join (some e) o ≢ none
      joined_ne none k = cc
      joined_ne (some d) k = cc
  answers_of (returned (some img) none ∷ cs) h =
      let (i, d) = decoded_of img h.0 in
      let (xs, e, k) = answers_of cs h.1 in
      ((img, i) ∷ xs, ap (◌∷◌ (returned (some img) none)) e, (d, k))
  answers_of (returned none none ∷ cs) h = absurd (none_ne h.0)
    where
      none_ne : {e : Error} → some e ≢ none
      none_ne k = cc
  answers_of (returned none (some e) ∷ cs) h = absurd (none_ne h.0)
    where
      none_ne : some e ≢ none
      none_ne k = cc
  answers_of (panicked m ∷ cs) h = absurd (none_ne h.0)
    where
      none_ne : some (plain m) ≢ none
      none_ne k = cc
