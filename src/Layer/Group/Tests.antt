-- ===== src/Layer/Group/Tests.antt =====
-- A group of one layer, over a cache that holds the last tile.
use tilegroxy.Base.{
  ℕ, ◌≤◌, true, false, List, [], ◌∷◌, Option, none, some, ◌≡◌, ◌↔◌, refl, codes, text_eq, index,
  has_prefix, length,
}
use tilegroxy.Base.Int.{ℤ}
use tilegroxy.Request.{Context}
use tilegroxy.Tile.Tests.{integers, tile_1_0}
use tilegroxy.Layer.Pattern.{literal, match, match_loop, misplaced, capture}
use tilegroxy.Layer.Provide.{
  Image, Provider, Layer, matches_name, validate_param_matches, generate, after_generate,
  render_tile_no_cache, get_provider_context,
}
use tilegroxy.Layer.Group.{
  Cache, LayerGroup, max_concurrent_cache_writes, check_permission, find_layer, render_tile,
  finish_write, render_group_no_cache, after_lookup, after_miss, start_write, put_layer, check_area,
  is_set, texts,
}
use tilegroxy.Layer.Group.Permission.{LayerAllowed, AreaAllowed, check_permission_iff}
use tilegroxy.Layer.Group.Rendering.{render_tile-saves}
use tilegroxy.Layer.Group.Runs.{
  Action, rendered, rendered_no_cache, written, run_actions, run_actions-pending,
}

-- What the cache holds.
abbrev pub Held : Type 0
Held = Option Image

abbrev pub tile_image : Image
tile_image = record { content = codes "png"; content_type = []; force_skip_cache = false }

abbrev static : Provider Held ℕ
static = record {
  pre_auth = λ pc w. (pc, none, w);
  generate_tile = λ pc t w. (some tile_image, none, w);
}

abbrev pub last_tile : Cache Held
last_tile = record { lookup_tile = λ t w. (w, none, w); save = λ t i w. (none, some i) }

abbrev layer_a : Layer Held ℕ
layer_a = record {
  id = codes "a";
  pattern = literal (codes "a") ∷ [];
  param_validator = none;
  skip_cache = false;
  skip_analytics = false;
  provider = static;
  provider_context = record { auth_bypass = true; auth_expiration = 0; other = 0 };
  tile_all = 0;
  tile_auth = 0;
  tile_error = 0;
  tile_success = 0;
}

abbrev pub group_a : LayerGroup Held ℕ
group_a = record { layers = layer_a ∷ []; cache_hit = 0; cache_miss = 0; pending = [] }

abbrev unlimited : Context ℤ
unlimited = record {
  limit_layers = none;
  allowed_layers = none;
  allowed_area = none;
  limit_area_partial = none;
  user_id = none;
  ref_depth = none;
}

abbrev limited : Context ℤ
limited = record unlimited { limit_layers = some true; allowed_layers = some (codes "b" ∷ []) }

find_a : find_layer group_a.layers tile_1_0.layer_name ≡ some (0, layer_a)
unfolding find_layer matches_name match match_loop misplaced capture validate_param_matches index
    has_prefix text_eq
find_a = refl

check_permission_iff_example :
    (check_permission integers limited (codes "b") tile_1_0 ≡ none)
    ↔ (LayerAllowed integers limited (codes "b") × AreaAllowed integers limited tile_1_0)
check_permission_iff_example = check_permission_iff integers limited (codes "b") tile_1_0

-- The latest first: two renders, the end of a write, a render.
abbrev acts : List (Action ℤ)
acts =
    rendered unlimited 3 4 tile_1_0
    ∷ (rendered_no_cache limited 3 4 tile_1_0
        ∷ (written 0 ∷ (rendered unlimited 1 2 tile_1_0 ∷ [])))

run_actions-pending_example :
    length (run_actions integers last_tile acts (group_a, none)).0.pending
    ≤ max_concurrent_cache_writes
run_actions-pending_example = run_actions-pending integers last_tile group_a refl acts none

render_tile-saves_example :
    let r = render_tile integers unlimited 1 2 last_tile group_a tile_1_0 none in
    let (lg', w') = finish_write last_tile r.2 r.3 in
    lg'.pending ≡ [] × (last_tile.lookup_tile tile_1_0 w').0 ≡ some tile_image
unfolding render_tile after_lookup after_miss start_write render_group_no_cache put_layer
    check_permission check_area is_set texts render_tile_no_cache generate after_generate
    get_provider_context find_layer matches_name match match_loop misplaced capture
    validate_param_matches index has_prefix text_eq
render_tile-saves_example =
    render_tile-saves integers unlimited 1 2 last_tile (λ t i w. refl) group_a tile_1_0 none
      (0, layer_a) tile_image find_a refl refl refl refl refl
