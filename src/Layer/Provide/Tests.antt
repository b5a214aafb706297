-- ===== src/Layer/Provide/Tests.antt =====
-- A provider that wants a new authentication at every tile.
use tilegroxy.Base.{ℕ, suc, ◌+◌, ◌≤◌, false, [], ◌∷◌, none, some, ◌≡◌, refl, codes}
use tilegroxy.Base.Int.{pos}
use tilegroxy.Errors.{provider_auth}
use tilegroxy.Tile.Bounds.{TileRequest}
use tilegroxy.Layer.Pattern.{literal}
use tilegroxy.Layer.Provide.{Provider, Layer, Rendered, render_tile_no_cache}
use tilegroxy.Layer.Provide.Calls.{CountsCalls, render_tile_no_cache-calls}

-- Its world numbers the calls of GenerateTile and of PreAuth.
abbrev Calls : Type 0
Calls = ℕ × ℕ

abbrev unauthenticated : Provider Calls ℕ
unauthenticated = record {
  pre_auth = λ pc w. (record pc { auth_expiration = 100 }, none, (w.0, suc w.1));
  generate_tile = λ pc t w. (none, some (provider_auth []), (suc w.0, w.1));
}

abbrev layer_a : Layer Calls ℕ
layer_a = record {
  id = codes "a";
  pattern = literal (codes "a") ∷ [];
  param_validator = none;
  skip_cache = false;
  skip_analytics = false;
  provider = unauthenticated;
  provider_context = record { auth_bypass = false; auth_expiration = 0; other = 0 };
  tile_all = 0;
  tile_auth = 0;
  tile_error = 0;
  tile_success = 0;
}

abbrev tile_a : TileRequest
tile_a = record { layer_name = codes "a"; z = pos 0; x = pos 0; y = pos 0 }

abbrev rendered_a : Rendered Calls ℕ
rendered_a = render_tile_no_cache 1 2 layer_a tile_a (0, 0)

unauthenticated-CountsCalls : CountsCalls {W = Calls} (λ w. w.0) (λ w. w.1) unauthenticated
unauthenticated-CountsCalls = record {
  pre_gens = λ pc w. refl;
  pre_pres = λ pc w. refl;
  gen_gens = λ pc t w. refl;
  gen_pres = λ pc t w. refl;
}

render_tile_no_cache-calls_example :
    rendered_a.3.0 ≤ 2 + 0 × rendered_a.3.1 + layer_a.tile_auth ≡ 0 + rendered_a.2.tile_auth
render_tile_no_cache-calls_example =
    render_tile_no_cache-calls (λ w. w.0) (λ w. w.1) 1 2 layer_a tile_a (0, 0)
      unauthenticated-CountsCalls
