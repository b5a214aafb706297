-- ===== src/Providers/Blend/Tests.antt =====
-- Two providers whose results arrive in the opposite order.
use tilegroxy.Base.{
  ℕ, ◌*◌, ◌≡◌, ◌≢◌, ◌↔◌, ◌⊎◌, refl, Bool, true, false, List, [], ◌∷◌, Option, none, some, length,
  Text, text_eq, lookup, has_prefix, codes, All, arith,
}
use tilegroxy.Base.Shuffle.{Shuffle, Shuffle-refl, nothing, arrive, here, there}
use tilegroxy.Errors.{Error, plain}
use tilegroxy.Tile.Bounds.{ok}
use tilegroxy.Layer.Provide.{Image, ProviderContext}
use tilegroxy.Providers.Placeholders.{replace_all}
use tilegroxy.Providers.Blend.{
  Call, returned, panicked, Contexts, done, blocked, results_from, auth_error, auth_errors,
  pre_auth,
}
use tilegroxy.Providers.Blend.Images.{
  Imaging, BlendConfig, images_from, image_of, decode_error, blend_error, blend_errors, skips,
  generate_tile, larger, sized, combine,
}
use tilegroxy.Providers.Blend.Setup.{layer_name_for}
use tilegroxy.Providers.Blend.Gather.{panics, IsNone}
use tilegroxy.Providers.Blend.Auth.{Answers, IsMerged, pre_auth-IsMerged, pre_auth_blocked_iff}
use tilegroxy.Providers.Blend.Tiles.{size_of, stack, blended, generate_tile_returns}

swapped : {A : Type 0} (a b : A) → Shuffle (a ∷ (b ∷ [])) (b ∷ (a ∷ []))
swapped a b = arrive a (arrive b nothing (here [])) (there b (here []))

abbrev context : ℕ → ProviderContext ℕ
context n = record { auth_bypass = false; auth_expiration = n; other = n }

abbrev answers : Answers ℕ
answers = (context 5, none) ∷ ((context 3, some (plain (codes "late"))) ∷ [])

abbrev auth_results : List (ℕ × ProviderContext ℕ)
auth_results = (1, context 3) ∷ ((0, context 5) ∷ [])

pre_auth-IsMerged_example :
    (r : ProviderContext (Contexts ℕ) × Option Error) × (pre_auth 100 2
        (some (plain (codes "late")) ∷ (none ∷ []))
        auth_results
      ≡ done r)
    × IsMerged 0 100 answers r
unfolding auth_errors auth_error results_from
pre_auth-IsMerged_example =
    pre_auth-IsMerged 0 100 answers (some (plain (codes "late")) ∷ (none ∷ [])) auth_results
      (swapped none (some (plain (codes "late")))) (swapped (0, context 5) (1, context 3))

abbrev with_panic : List (Call (ProviderContext ℕ))
with_panic = returned (context 5) none ∷ (panicked (codes "index out of range") ∷ [])

abbrev panic_errors : List (Option Error)
panic_errors = some (plain (codes "index out of range")) ∷ (none ∷ [])

pre_auth_blocked_iff_example :
    (pre_auth 100 2 panic_errors ((0, context 5) ∷ []) ≡ blocked) ↔ (panics with_panic ≡ true)
unfolding auth_errors auth_error results_from
pre_auth_blocked_iff_example =
    pre_auth_blocked_iff 100 with_panic panic_errors ((0, context 5) ∷ [])
      (swapped none (some (plain (codes "index out of range"))))
      (Shuffle-refl ((0, context 5) ∷ []))

-- An image is its size; to add two is to multiply.
abbrev sizes : Imaging ℕ ℕ
sizes = record {
  decode = λ t. ok (length t);
  encode = λ i. ok (i ∷ []);
  max_point = λ i. (i, i);
  resize = λ i x y. x;
  operations = (codes "add", ◌*◌) ∷ [];
  opacity = λ a b f. a;
}

abbrev adding : BlendConfig ℕ
adding = record { opacity = 0; mode = codes "add" }

abbrev image : Text → Bool → Image
image t skip = record { content = t; content_type = codes "image/png"; force_skip_cache = skip }

abbrev small : Image × ℕ
small = (image (codes "ab") false, 2)

abbrev large : Image × ℕ
large = (image (codes "abc") true, 3)

abbrev none_twice : List (Option Error)
none_twice = none ∷ (none ∷ [])

abbrev image_results : List (ℕ × Option ℕ)
image_results = (1, some 3) ∷ ((0, some 2) ∷ [])

blended-sizes : blended sizes adding small (large ∷ []) ≡ 9
unfolding blended size_of larger stack sized combine text_eq lookup
blended-sizes = refl

abbrev half : List (Call (Option Image))
half = returned (some (image (codes "ab") false)) none ∷ (returned none none ∷ [])

abbrev half_errors : List (Option Error)
half_errors = none ∷ (some (plain (codes "no image returned to blender")) ∷ [])

generate_tile_returns_example :
    (r : Option Image × Option Error) × (generate_tile sizes adding 2 false half_errors
        ((0, some 2) ∷ [])
      ≡ done r)
    × (All IsNone (blend_errors sizes half) ⊎ ((r.0 ≡ none) × (r.1 ≢ none)))
unfolding blend_errors blend_error decode_error images_from image_of skips
generate_tile_returns_example =
    generate_tile_returns sizes adding half half_errors ((0, some 2) ∷ [])
      (Shuffle-refl half_errors) (Shuffle-refl ((0, some 2) ∷ [])) (omega arith)

layer_name_test :
    layer_name_for (codes "map_{year}") ((codes "year", codes "2020") ∷ []) ≡ codes "map_2020"
unfolding layer_name_for replace_all has_prefix
layer_name_test = refl
