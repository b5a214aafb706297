-- ===== src/Server/Handler/Tests.antt =====
-- Requests for a tile of one layer, first without authentication, then with a token.
use tilegroxy.Base.{
  ℕ, true, false, [], ◌∷◌, ◌++◌, List, Option, none, some, ◌≡◌, ◌⊎◌, refl, arith, Text, codes,
  lookup, text_eq,
}
use tilegroxy.Base.Int.{ℤ}
use tilegroxy.Request.{Grants, new_request_context}
use tilegroxy.Tile.Bounds.{TileRequest}
use tilegroxy.Tile.Tests.{integers}
use tilegroxy.Layer.Group.{LayerGroup}
use tilegroxy.Layer.Group.Tests.{Held, last_tile, group_a, tile_image}
use tilegroxy.Auth.Jwt.Tests.{
  config, library, one_token, parse_law, geohash_law, eq_law, empty-IsSound,
}
use tilegroxy.Server.Response.{get_header}
use tilegroxy.Server.Response.Tests.{error_config}
use tilegroxy.Server.Handler.{
  Request, Settings, Auth, State, etag_for, write_tile, serve_http, serve_recovered, hex_encode,
  hex_digit,
}
use tilegroxy.Server.Handler.Counts.{IsBalanced, IsAccounted, serve_recovered-IsAccounted}
use tilegroxy.Server.Handler.Access.{IsUntouched, IsPermitted, serve_http-access}
use tilegroxy.Server.Handler.Tokens.{jwt_auth, IsScopedRequest, serve_http-scope}
use tilegroxy.Server.Handler.Etags.{write_tile-etag_for}

abbrev sum : Text → List ℕ
sum content = 171 ∷ (205 ∷ [])

abbrev settings : Settings
settings = record {
  headers = [];
  production = true;
  version = codes "1";
  error = error_config;
  nil_message = codes "no tile";
  no_analytics = false;
}

abbrev open_auth : Auth ℤ ℕ
open_auth = record { check_authentication = λ req g a. (true, g, a) }

abbrev get_a : Request
get_a = record {
  method = codes "GET";
  header = (codes "Authorization", codes "Bearer t" ∷ []) ∷ [];
  layer = codes "a";
  z = codes "1";
  x = codes "1";
  y = codes "0";
}

abbrev started : {A : Type 0} → A → State Held ℕ A
started a = record {
  counters = record { all = 0; valid = 0; error = 0; success = 0 };
  auth = a;
  group = group_a;
  world = none;
  events = [];
}

abbrev start_state : State Held ℕ ℕ
start_state = started 0

started-IsBalanced : IsBalanced 0 start_state
unfolding IsBalanced
started-IsBalanced = (omega arith, (omega arith, omega arith))

-- Every render panics, and leaves the group and the world as they were.
abbrev always_dies : Grants ℤ → TileRequest → State Held ℕ ℕ → Option (LayerGroup Held ℕ × Held)
always_dies g t s = some (s.group, s.world)

serve_recovered-IsAccounted_example :
    IsAccounted integers sum settings 0 open_auth last_tile always_dies 1 2 get_a
      (serve_recovered integers sum settings open_auth last_tile always_dies 1 2 get_a start_state)
serve_recovered-IsAccounted_example =
    serve_recovered-IsAccounted integers sum settings 0 open_auth last_tile always_dies 1 2 get_a
      start_state started-IsBalanced

serve_http-access_example :
    IsUntouched start_state
      (serve_http integers sum settings open_auth last_tile 1 2 get_a start_state).1
    ⊎ ((true ≡ true) × IsPermitted integers get_a (new_request_context integers) group_a)
serve_http-access_example =
    serve_http-access integers sum settings open_auth last_tile 1 2 get_a start_state

serve_http-scope_example :
    IsUntouched
      (started none)
      (serve_http integers sum settings
        (jwt_auth integers library one_token config 50)
        last_tile
        1
        2
        get_a
        (started none)).1
    ⊎ IsScopedRequest library config 50 get_a group_a
serve_http-scope_example =
    serve_http-scope integers library one_token config refl parse_law geohash_law eq_law sum
      settings last_tile 50 1 2 get_a (started none) empty-IsSound

abbrev get_again : Request
get_again = record get_a {
  header =
      (codes "If-None-Match", (codes "\"00\"" ++ (codes ", " ++ (codes "\"abcd\""))) ∷ []) ∷ [];
}

sent_tag :
    get_header (codes "If-None-Match") get_again.header
    ≡ codes "\"00\"" ++ (codes ", " ++ etag_for sum tile_image.content)
unfolding get_header lookup text_eq etag_for hex_encode hex_digit
sent_tag = refl

write_tile-etag_for_example :
    ((write_tile sum get_again tile_image []).status ≡ 304)
    × ((write_tile sum get_again tile_image []).body ≡ [])
write_tile-etag_for_example =
    write_tile-etag_for sum get_again tile_image [] b'"' (codes "00\"")
      ((λ e. omega arith), ((λ e. omega arith), ((λ e. omega arith), ((λ e. omega arith), tt))))
      sent_tag
