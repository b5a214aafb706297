-- ===== src/Providers/Client/Tests.antt =====
-- A server that answers with two bytes.
use tilegroxy.Base.{ℕ, ◌^◌, ◌-◌, false, [], ◌∷◌, some, ◌≡◌, ◌↔◌, Text, codes, if◌then◌else◌, ltb}
use tilegroxy.Base.Int.{pos}
use tilegroxy.Tile.Bounds.{Result, ok}
use tilegroxy.Layer.Provide.{Image}
use tilegroxy.Server.Response.{Header}
use tilegroxy.Providers.Client.{ClientConfig, RemoteResponse, request_header, get_tile}
use tilegroxy.Providers.Client.Limits.{IsAccepted, get_tile_iff}

abbrev client : ClientConfig
client = record {
  user_agent = codes "tilegroxy";
  max_length = pos 10;
  unknown_length = false;
  content_types = codes "application/octet-stream" ∷ [];
  status_codes = 200 ∷ [];
  headers = [];
  timeout = 60;
  rewrite_content_types = (codes "application/octet-stream", codes "image/png") ∷ [];
}

abbrev two_bytes : RemoteResponse
two_bytes = record {
  status_code = 200;
  content_type = codes "application/octet-stream";
  content_length = pos 2;
  body = some (codes "ab");
}

abbrev answer : Header → ℕ → Text → Result RemoteResponse
answer h timeout url = ok two_bytes

abbrev image_ab : Image
image_ab = record {
  content = codes "ab";
  content_type = codes "image/png";
  force_skip_cache = false;
}

get_tile_iff_example : (get_tile answer client (codes "http://h/1") [] ≡ ok image_ab) ↔ (
    (r : RemoteResponse) × ((answer
          (request_header client [])
          (if ltb (2 ^ 31 - 1) 60 then 2 ^ 31 - 1 else 60)
          (codes "http://h/1")
        ≡ ok r)
      × IsAccepted client r image_ab))
get_tile_iff_example = get_tile_iff answer client (codes "http://h/1") [] image_ab
