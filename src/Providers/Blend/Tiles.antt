-- ===== src/Providers/Blend/Tiles.antt =====
-- Blend.GenerateTile against the images of its providers, in whatever order they arrive.
use tilegroxy.Base.{
  ℕ, suc, ◌<◌, ◌≡◌, ◌≢◌, ◌⊎◌, refl, sym, ap, subst, ◌∙◌, Bool, false, ◌||◌, List, [], ◌∷◌, Option,
  none, some, length, codes, All, arith, Option-cases, inl, inr,
}
use tilegroxy.Base.Shuffle.{Shuffle, length-Shuffle, fold-Shuffle, All-Shuffle, All-Shuffle_back}
use tilegroxy.Errors.{Error}
use tilegroxy.Tile.Bounds.{ok, err, Result-cases}
use tilegroxy.Layer.Provide.{Image}
use tilegroxy.Providers.Blend.{Call, done, join_errors}
use tilegroxy.Providers.Blend.Images.{
  Imaging, BlendConfig, images_from, blend_errors, skips, place, no_images, larger, max_size,
  combine, sized, blend_image, blend_all, png, after_images, after_errors, generate_tile,
}
use tilegroxy.Providers.Blend.Gather.{IsNone, join_errors-none}
use tilegroxy.Providers.Blend.Places.{
  receive_all, put, place-fold, calls_of, IsDecoded, length-calls_of, images_of, length-images_from,
  images_from-AllCommute, fold-put, blend_errors-IsNone, length-blend_errors, answers_of,
}

module _ {I F : Type 0} (g : Imaging I F) where
  -- The largest width and the largest height.
  unfoldable pub size_of : List (Image × I) → ℕ × ℕ → ℕ × ℕ
  size_of [] size = size
  size_of ((img, i) ∷ xs) size = size_of xs (larger (g.max_point i) size)

  max_size-images_of :
      (xs : List (Image × I)) (size : ℕ × ℕ)
      → max_size g (images_of g xs) size ≡ some (size_of xs size)
  unfolding max_size images_of size_of
  max_size-images_of [] size = refl
  max_size-images_of ((img, i) ∷ xs) size = max_size-images_of xs (larger (g.max_point i) size)

  -- Whether some image is not to be cached.
  unfoldable pub skip_any : List (Image × I) → Bool
  skip_any [] = false
  skip_any ((img, i) ∷ xs) = img.force_skip_cache || skip_any xs

  skips-calls_of : (xs : List (Image × I)) → skips (calls_of g xs) ≡ skip_any xs
  unfolding skips calls_of skip_any
  skips-calls_of [] = refl
  skips-calls_of ((img, i) ∷ xs) = ap (◌||◌ img.force_skip_cache) (skips-calls_of xs)

  module _ (c : BlendConfig F) where
    -- Each image over what lies below it, from the first provider up.
    unfoldable pub stack : ℕ × ℕ → I → List (Image × I) → I
    stack size below [] = below
    stack size below ((img, i) ∷ xs) = stack size (combine g c (sized g c size i) below) xs

    blend_all-stack :
        (size : ℕ × ℕ) (xs : List (Image × I)) (below : I)
        → blend_all g c size (images_of g xs) (some below) ≡ some (stack size below xs)
    unfolding blend_all blend_image images_of stack
    blend_all-stack size [] below = refl
    blend_all-stack size ((img, i) ∷ xs) below =
        blend_all-stack size xs (combine g c (sized g c size i) below)

    -- The image of the whole.
    unfoldable pub blended : Image × I → List (Image × I) → I
    blended a xs = let size = size_of (a ∷ xs) (0, 0) in stack size (sized g c size a.1) xs

    unfoldable pub encoded : Bool → I → Option Image × Option Error
    encoded skip i = elim (g.encode i) [
      | err e ↦ (none, some e)
      | ok output ↦ (
        some (record {
          content = output;
          content_type = codes "image/png";
          force_skip_cache = skip;
        }),
        none,
      )
    ]

    png-encoded : (skip : Bool) (i : I) → png g c skip (some i) ≡ done (encoded skip i)
    unfolding png encoded
    png-encoded skip i = elim (Result-cases (g.encode i)) [
      | inl (e, k) ↦ rw (k, png, encoded)
      | inr (o, k) ↦ rw (k, png, encoded)
    ]

    after_images-blended :
        (skip : Bool) (a : Image × I) (xs : List (Image × I))
        → after_images g c skip (done (images_of g (a ∷ xs))) ≡ done (encoded skip (blended a xs))
    unfolding after_images blended blend_all blend_image images_of
    after_images-blended skip (img, i) xs =
        let size = size_of ((img, i) ∷ xs) (0, 0) in
        rw (max_size-images_of ((img, i) ∷ xs) (0, 0), after_images)
          (ap (png g c skip) (blend_all-stack size xs (sized g c size i))
            ∙ png-encoded skip (stack size (sized g c size i) xs))

    -- What is left when no error has arrived.
    after_no_errors :
        (n : ℕ) (skip : Bool) (rs : List (ℕ × Option I)) (es : List (Option Error))
        → join_errors es ≡ none
        → after_errors g c n skip rs (done es) ≡ after_images g c skip (place n rs (no_images n))
    unfolding after_errors
    after_no_errors n skip rs es h = rw (h, after_errors)

    after_some_error :
        (n : ℕ) (skip : Bool) (rs : List (ℕ × Option I)) (es : List (Option Error)) (e : Error)
        → join_errors es ≡ some e
        → after_errors g c n skip rs (done es) ≡ done (none, some e)
    unfolding after_errors
    after_some_error n skip rs es e h = rw (h, after_errors)

    place-images_of :
        (xs : List (Image × I))
        → IsDecoded g xs
        → (rs : List (ℕ × Option I)) → Shuffle (images_from g 0 (calls_of g xs)) rs
        → place (length xs) rs (no_images (length xs)) ≡ done (images_of g xs)
    place-images_of xs h rs t =
        place-fold (length xs) rs (no_images (length xs))
          (omega (arith, length-Shuffle t, length-images_from g 0 xs))
        ∙ ap done (
            fold-Shuffle put (no_images (length xs)) t (images_from-AllCommute g 0 xs)
            ∙ fold-put g [] xs h)

    pub generate_tile-blended :
        (a : Image × I) (xs : List (Image × I))
        → IsDecoded g (a ∷ xs)
        → (es : List (Option Error)) (rs : List (ℕ × Option I))
        → Shuffle (blend_errors g (calls_of g (a ∷ xs))) es
        → Shuffle (images_from g 0 (calls_of g (a ∷ xs))) rs
        → generate_tile g c (length (a ∷ xs)) (skips (calls_of g (a ∷ xs))) es rs
          ≡ done (encoded (skip_any (a ∷ xs)) (blended a xs))
    unfolding generate_tile
    generate_tile-blended a xs h es rs s t =
        let ys = a ∷ xs in
        let n = length ys in
        let skip = skips (calls_of g ys) in
        let received = receive_all n es (
          omega (
            arith,
            length-Shuffle s,
            length-blend_errors g (calls_of g ys),
            length-calls_of g ys,
          )) in
        let quiet = (join_errors-none es).1 (All-Shuffle IsNone s (blend_errors-IsNone g ys h)) in
        ap (after_errors g c n skip rs) received
        ∙ (after_no_errors n skip rs es quiet
            ∙ (ap (after_images g c skip) (place-images_of ys h rs t)
                ∙ (after_images-blended skip a xs
                    ∙ ap (λ b. done (encoded b (blended a xs))) (skips-calls_of ys))))

    -- What GenerateTile comes to, for what has arrived.
    abbrev Returns : List (Option Error) → List (ℕ × Option I) → List (Call (Option Image)) → Type 0
    Returns es rs cs =
        (r : Option Image × Option Error) × (generate_tile g c (length cs) (skips cs) es rs
          ≡ done r)
        × (All IsNone (blend_errors g cs) ⊎ ((r.0 ≡ none) × (r.1 ≢ none)))

    abbrev Arrived : List (Option Error) → List (ℕ × Option I) → List (Call (Option Image)) → Type 0
    Arrived es rs cs =
        Shuffle (blend_errors g cs) es
        → Shuffle (images_from g 0 cs) rs
        → 0 < length cs
        → Returns es rs cs

    returns_blended :
        (xs : List (Image × I))
        → IsDecoded g xs
        → (es : List (Option Error)) (rs : List (ℕ × Option I)) → Arrived es rs (calls_of g xs)
    unfolding calls_of
    returns_blended [] h es rs s t l = absurd (omega arith)
    returns_blended (a ∷ xs) h es rs s t l = (
      encoded (skip_any (a ∷ xs)) (blended a xs),
      subst
          (λ n.
            generate_tile g c (suc n) (skips (calls_of g (a ∷ xs))) es rs
            ≡ done (encoded (skip_any (a ∷ xs)) (blended a xs)))
          (sym (length-calls_of g xs)) (generate_tile-blended a xs h es rs s t),
      inl (blend_errors-IsNone g (a ∷ xs) h),
    )

    -- With at least one provider, GenerateTile returns, whatever the providers return, panics included;
    -- and it returns an error and no image if one of them has an error, panics, or has no image that can
    -- be decoded.
    pub generate_tile_returns :
        (cs : List (Call (Option Image))) (es : List (Option Error)) (rs : List (ℕ × Option I))
        → Shuffle (blend_errors g cs) es
        → Shuffle (images_from g 0 cs) rs
        → 0 < length cs
        → (r : Option Image × Option Error) × (generate_tile g c (length cs) (skips cs) es rs
            ≡ done r)
          × (All IsNone (blend_errors g cs) ⊎ ((r.0 ≡ none) × (r.1 ≢ none)))
    unfolding generate_tile
    generate_tile_returns cs es rs s t l = elim (Option-cases (join_errors es)) [
      | inr (e, k) ↦ (
        (none, some e),
        ap (after_errors g c (length cs) (skips cs) rs) (
              receive_all (length cs) es
                (omega (arith, length-Shuffle s, length-blend_errors g cs)))
            ∙ after_some_error (length cs) (skips cs) rs es e k,
        inr (refl, (λ h. cc)),
      )
      | inl k ↦
          (let (xs, e, d) =
              answers_of g cs (All-Shuffle_back IsNone s ((join_errors-none es).0 k)) in
            subst (Arrived es rs) (sym e) (returns_blended xs d es rs) s t l)
    ]
