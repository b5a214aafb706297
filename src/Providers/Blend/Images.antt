-- ===== src/Providers/Blend/Images.antt =====
-- internal/providers/blend.go: GenerateTile with callBlendingProvider and blendImage. Images, with their
-- decoding, resizing and blending, are a parameter.
use tilegroxy.Base.{
  ℕ, zero, suc, Bool, false, ◌&&◌, ◌||◌, List, [], ◌∷◌, Option, none, some, if◌then◌else◌, ltb,
  ◌==◌, set, Text, codes, text_eq, lookup,
}
use tilegroxy.Errors.{Error, plain, join}
use tilegroxy.Tile.Bounds.{Result, ok, err}
use tilegroxy.Layer.Provide.{Image}
use tilegroxy.Providers.Blend.{
  Call, returned, panicked, Outcome, done, blocked, crashed, join_errors,
}

-- The packages image, image/png and bild. A point is a pair.
pub record Imaging (I F : Type 0) : Type 0 where
  pub decode : Text → Result I
  pub encode : I → Result Text
  pub max_point : I → ℕ × ℕ
  pub resize : I → ℕ → ℕ → I
  pub operations : List (Text × (I → I → I))
  pub opacity : I → I → F → I

pub record BlendConfig (F : Type 0) : Type 0 where
  pub opacity : F
  pub mode : Text

unfoldable pub no_image : Option Error → Option Error
no_image none = some (plain (codes "no image returned to blender"))
no_image (some e) = some e

-- skipWrite.Load() after wg.Wait
unfoldable pub skips : List (Call (Option Image)) → Bool
skips [] = false
skips (returned (some img) e ∷ cs) = img.force_skip_cache || skips cs
skips (c ∷ cs) = skips cs

-- The loops that receive n errors, and n images into their places.
unfoldable pub receive_values : {A : Type 0} → ℕ → List A → Outcome (List A)
receive_values zero xs = done []
receive_values (suc n) [] = blocked
receive_values (suc n) (x ∷ xs) = elim (receive_values n xs) [
  | done ys ↦ done (x ∷ ys)
  | blocked ↦ blocked
  | crashed ↦ crashed
]

module _ {I : Type 0} where
  unfoldable pub place : ℕ → List (ℕ × Option I) → List (Option I) → Outcome (List (Option I))
  place zero rs slots = done slots
  place (suc n) [] slots = blocked
  place (suc n) ((i, img) ∷ rs) slots = place n rs (set slots i img)

  unfoldable pub no_images : ℕ → List (Option I)
  no_images zero = []
  no_images (suc n) = none ∷ no_images n

-- The larger width and the larger height
unfoldable pub larger : ℕ × ℕ → ℕ × ℕ → ℕ × ℕ
larger (x, y) (a, b) = (if ltb a x then x else a, if ltb b y then y else b)

module _ {I F : Type 0} (g : Imaging I F) where
  -- What callBlendingProvider sends to imgs, and to errs, and whether it sets skipWrite.
  unfoldable pub image_of : Image → Option I
  image_of img = elim (g.decode img.content) [ ok i ↦ some i | err e ↦ none ]

  unfoldable pub decode_error : Image → Option Error
  decode_error img = elim (g.decode img.content) [ ok i ↦ none | err e ↦ some e ]

  unfoldable pub images_from : ℕ → List (Call (Option Image)) → List (ℕ × Option I)
  unfolding image_of
  images_from i [] = []
  images_from i (returned (some img) e ∷ cs) = (i, image_of img) ∷ images_from (suc i) cs
  images_from i (returned none e ∷ cs) = images_from (suc i) cs
  images_from i (panicked m ∷ cs) = images_from (suc i) cs

  unfoldable pub blend_error : Call (Option Image) → Option Error
  unfolding decode_error no_image
  blend_error (returned (some img) e) = join e (decode_error img)
  blend_error (returned none e) = no_image e
  blend_error (panicked m) = some (plain m)

  unfoldable pub blend_errors : List (Call (Option Image)) → List (Option Error)
  unfolding blend_error
  blend_errors [] = []
  blend_errors (c ∷ cs) = blend_error c ∷ blend_errors cs

  -- The loop over the sizes; a nil image panics.
  unfoldable pub max_size : List (Option I) → ℕ × ℕ → Option (ℕ × ℕ)
  unfolding larger
  max_size [] size = some size
  max_size (none ∷ imgs) size = none
  max_size (some i ∷ imgs) size = max_size imgs (larger (g.max_point i) size)

  module _ (c : BlendConfig F) where
    unfoldable pub combine : I → I → I
    combine i combined =
        if text_eq c.mode (codes "opacity")
        then g.opacity i combined c.opacity
        else elim (lookup c.mode g.operations) [ some op ↦ op i combined | none ↦ combined ]

    unfoldable pub sized : ℕ × ℕ → I → I
    sized size i =
        let m = g.max_point i in
        if m.0 == size.0 && m.1 == size.1 then i else g.resize i size.0 size.1

    unfoldable pub blend_image : ℕ × ℕ → I → Option I → I
    unfolding combine sized
    blend_image size i none = sized size i
    blend_image size i (some combined) = combine (sized size i) combined

    unfoldable pub blend_all : ℕ × ℕ → List (Option I) → Option I → Option I
    unfolding blend_image
    blend_all size [] combined = combined
    blend_all size (none ∷ imgs) combined = none
    blend_all size (some i ∷ imgs) combined =
        blend_all size imgs (some (blend_image size i combined))

    unfoldable pub png : Bool → Option I → Outcome (Option Image × Option Error)
    png skip none = crashed
    png skip (some i) = elim (g.encode i) [
      | err e ↦ done (none, some e)
      | ok output ↦ done (
        some (record {
          content = output;
          content_type = codes "image/png";
          force_skip_cache = skip;
        }),
        none,
      )
    ]

    unfoldable pub after_images :
        Bool → Outcome (List (Option I)) → Outcome (Option Image × Option Error)
    unfolding max_size blend_all png
    after_images skip blocked = blocked
    after_images skip crashed = crashed
    after_images skip (done imgs) = elim (max_size imgs (0, 0)) [
      | none ↦ crashed
      | some size ↦ png skip (blend_all size imgs none)
    ]

    unfoldable pub after_errors :
        ℕ
        → Bool
        → List (ℕ × Option I)
        → Outcome (List (Option Error))
        → Outcome (Option Image × Option Error)
    unfolding join_errors place no_images after_images
    after_errors n skip rs blocked = blocked
    after_errors n skip rs crashed = crashed
    after_errors n skip rs (done es) = elim (join_errors es) [
      | some e ↦ done (none, some e)
      | none ↦ after_images skip (place n rs (no_images n))
    ]

    -- GenerateTile after wg.Wait, for the number of providers and what has been sent, in its order.
    unfoldable pub generate_tile :
        ℕ → Bool → List (Option Error) → List (ℕ × Option I) → Outcome (Option Image × Option Error)
    unfolding receive_values after_errors
    generate_tile n skip es rs = after_errors n skip rs (receive_values n es)
