-- ===== src/Server/Handler/Requests.antt =====
-- internal/server/tile_handler.go: the tile that a request's path names.
use tilegroxy.Base.{◌≡◌, refl}
use tilegroxy.Base.Strconv.{itoa, IsInt64, atoi-itoa}
use tilegroxy.Tile.Bounds.{TileRequest, ok}
use tilegroxy.Server.Handler.{Request, extract_and_validate_request}

-- A request whose path has the decimal forms of a tile's coordinates, each of 64 bits, is read as
-- that tile.
extract_and_validate_request-itoa :
    (req : Request) (t : TileRequest)
    → IsInt64 t.z
    → IsInt64 t.x
    → IsInt64 t.y
    → extract_and_validate_request
        (record req { layer = t.layer_name; z = itoa t.z; x = itoa t.x; y = itoa t.y })
      ≡ ok t
unfolding extract_and_validate_request
extract_and_validate_request-itoa req t hz hx hy =
    rw (atoi-itoa t.z hz, atoi-itoa t.x hx, atoi-itoa t.y hy) refl
