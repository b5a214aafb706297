-- ===== src/Server/Handler.antt =====
-- internal/server/tile_handler.go, and the recovery of context_handler.go around it: ServeHTTP of one
-- entity generation, request after request. The
-- authentication, SHA-256 and the group's cache are parameters; spans, logs, the generation's
-- reference count (Server.Generation) and failures of writing to the client are left out.
pub mod Counts
pub mod Access
pub mod Tokens
pub mod Requests
pub mod Etags
pub mod Tests
use tilegroxy.Base.{
  ℕ, suc, ◌+◌, ◌-◌, ◌/◌, ◌%◌, Bool, true, false, not, ◌&&◌, ◌||◌, List, [], ◌∷◌, ◌++◌, Option, none,
  some, if◌then◌else◌, ltb, ◌==◌, length, drop, Text, codes, text_eq, has_prefix,
}
use tilegroxy.Base.Int.{ℤ}
use tilegroxy.Base.Strconv.{split, atoi, natural}
use tilegroxy.Errors.{unauthorized, invalid_argument, provider, other}
use tilegroxy.Request.{Grants, new_request_context, context_of}
use tilegroxy.Tile.Floats.{Floats}
use tilegroxy.Tile.Bounds.{TileRequest, Result, ok, err, get_bounds}
use tilegroxy.Layer.Provide.{Image}
use tilegroxy.Layer.Group.{Cache, LayerGroup, Answer, find_layer, render_tile}
use tilegroxy.Server.Response.{
  Header, set_header, add_header, get_header, Response, ErrorConfig, write_error_message,
  write_error,
}

-- http.Request, with the values of its path.
pub record Request : Type 0 where
  pub method : Text
  pub header : Header
  pub layer : Text
  pub z : Text
  pub x : Text
  pub y : Text

-- The configured headers, Server.Production, the version, the errors, and whether no analytics are
-- configured.
pub record Settings : Type 0 where
  pub headers : List (Text × Text)
  pub production : Bool
  pub version : Text
  pub error : ErrorConfig
  pub nil_message : Text
  pub no_analytics : Bool

pub record Auth (F A : Type 0) : Type 0 where
  pub check_authentication : Request → Grants F → A → Bool × Grants F × A

-- analytics.Event without the time, with the image's size and type of its FieldSource.
pub record Event : Type 0 where
  pub layer_id : Text
  pub layer_name : Text
  pub z : ℤ
  pub x : ℤ
  pub y : ℤ
  pub user_id : Text
  pub bytes : ℕ
  pub content_type : Text

pub record Counters : Type 0 where
  pub all : ℕ
  pub valid : ℕ
  pub error : ℕ
  pub success : ℕ

pub record State (W P A : Type 0) : Type 0 where
  pub counters : Counters
  pub auth : A
  pub group : LayerGroup W P
  pub world : W
  pub events : List Event

hex_digit : ℕ → ℕ
hex_digit d = if ltb d 10 then b'0' + d else b'a' + (d - 10)

-- hex.EncodeToString
pub hex_encode : List ℕ → Text
unfolding hex_digit
hex_encode [] = []
hex_encode (b ∷ bs) = hex_digit (b / 16) ∷ (hex_digit (b % 16) ∷ hex_encode bs)

unfoldable pub etag_for : (Text → List ℕ) → Text → Text
unfolding hex_encode
etag_for sha256 content = b'"' ∷ (hex_encode (sha256 content) ++ (b'"' ∷ []))

-- A space of ASCII.
is_space : ℕ → Bool
is_space c = c == b' ' || (ltb 8 c && ltb c 14)

trim_left : Text → Text
unfolding is_space
trim_left [] = []
trim_left (c ∷ s) = let rest = trim_left s in if is_space c then rest else c ∷ s

trim_right : Text → Text
unfolding is_space
trim_right [] = []
trim_right (c ∷ s) = elim (trim_right s) [
  | [] ↦ if is_space c then [] else c ∷ []
  | d ∷ r ↦ c ∷ (d ∷ r)
]

-- strings.TrimSpace, on ASCII
pub trim_space : Text → Text
unfolding trim_left trim_right
trim_space s = trim_right (trim_left s)

trim_prefix : Text → Text → Text
trim_prefix pre s = if has_prefix s pre then drop (length pre) s else s

-- The loop over the candidates.
pub any_matches : Text → List Text → Bool
unfolding trim_space trim_prefix
any_matches etag [] = false
any_matches etag (c ∷ cs) =
    let rest = any_matches etag cs in
    if text_eq (trim_prefix (codes "W/") (trim_space c)) etag then true else rest

unfoldable pub request_etag_matches : Text → Text → Bool
unfolding any_matches
request_etag_matches [] etag = false
request_etag_matches (c ∷ s) etag =
    if text_eq (c ∷ s) (codes "*") then true else any_matches etag (split b',' (c ∷ s))

type_header : Text → Header → Header
type_header [] h = h
type_header (c ∷ s) h = add_header (codes "Content-Type") (c ∷ s) h

-- The headers and the body, or 304.
unfoldable pub write_tile : (Text → List ℕ) → Request → Image → Header → Response
unfolding etag_for request_etag_matches type_header
write_tile sha256 req img header =
    let h1 = type_header img.content_type header in
    let etag = etag_for sha256 img.content in
    let h2 = set_header (codes "ETag") etag h1 in
    if request_etag_matches (get_header (codes "If-None-Match") req.header) etag
    then record { status = 304; header = h2; body = [] }
    else record {
      status = 200;
      header = set_header (codes "Content-Length") (natural (length img.content)) h2;
      body = img.content;
    }

add_headers : List (Text × Text) → Header → Header
add_headers [] h = h
add_headers ((k, v) ∷ kvs) h = add_headers kvs (add_header k v h)

pub write_headers : Settings → Header
unfolding add_headers
write_headers s =
    let h = add_headers s.headers [] in
    if s.production
    then h
    else add_header (codes "X-Powered-By") (codes "tilegroxy " ++ s.version) h

unfoldable pub extract_and_validate_request : Request → Result TileRequest
extract_and_validate_request req =
    let (z, z_ok) = atoi req.z in
    let (x, x_ok) = atoi req.x in
    let (y, y_ok) = atoi req.y in
    if not z_ok
    then err (invalid_argument (codes "z"))
    else if not x_ok
    then err (invalid_argument (codes "x"))
    else if not y_ok
    then err (invalid_argument (codes "y"))
    else ok (record { layer_name = req.layer; z = z; x = x; y = y })

-- recordAnalytics: the event that is handed on, if any
unfoldable pub record_analytics :
    {F W P : Type 0} → Settings → LayerGroup W P → Grants F → TileRequest → Image → List Event
record_analytics s lg g t img =
    if s.no_analytics then [] else elim (find_layer lg.layers t.layer_name) [
      | none ↦ []
      | some p ↦
          if p.1.skip_analytics
          then []
          else record {
            layer_id = p.1.id;
            layer_name = t.layer_name;
            z = t.z;
            x = t.x;
            y = t.y;
            user_id = g.user_id;
            bytes = length img.content;
            content_type = img.content_type;
          }
            ∷ []
    ]

module _ {W P A : Type 0} where
  unfoldable pub count_all : State W P A → State W P A
  count_all s = record s { counters = record s.counters { all = suc s.counters.all } }

  unfoldable pub count_valid : State W P A → State W P A
  count_valid s = record s { counters = record s.counters { valid = suc s.counters.valid } }

  unfoldable pub count_error : State W P A → State W P A
  count_error s = record s { counters = record s.counters { error = suc s.counters.error } }

  unfoldable pub count_success : State W P A → State W P A
  count_success s = record s { counters = record s.counters { success = suc s.counters.success } }

  module _ (f : Floats) (sha256 : Text → List ℕ) (settings : Settings) where
    -- What follows the rendering.
    unfoldable pub finish_request :
        Request → Grants f.F → TileRequest → Answer W P → State W P A → Response × State W P A
    unfolding write_headers
    finish_request req g t (img, some e, lg, w) s = (
      write_error settings.error e (write_headers settings),
      count_error (record s { group = lg; world = w }),
    )
    finish_request req g t (none, none, lg, w) s = (
      write_error_message settings.error provider settings.nil_message (write_headers settings),
      count_error (record s { group = lg; world = w }),
    )
    finish_request req g t (some img, none, lg, w) s = (
      write_tile sha256 req img (write_headers settings),
      count_success (record s {
        group = lg;
        world = w;
        events = s.events ++ record_analytics settings lg g t img;
      }),
    )

    -- What follows a panic while a tile is rendered, with what it leaves of the group and the world:
    -- httpContextHandler recovers, after the request has been counted as valid.
    unfoldable pub recovered : LayerGroup W P × W → State W P A → Response × State W P A
    recovered (lg, w) s = (
      write_error_message settings.error other (codes "Unexpected Internal Server Error")
          (write_headers settings),
      record (count_valid s) { group = lg; world = w },
    )

    -- What follows authentication, up to the rendering of a tile request with bounds.
    unfoldable pub serve_tile_with :
        (Grants f.F → TileRequest → State W P A → Response × State W P A)
        → Request
        → Grants f.F
        → State W P A
        → Response × State W P A
    serve_tile_with render req g s = elim (extract_and_validate_request req) [
      | err e ↦ (write_error settings.error e (write_headers settings), s)
      | ok t ↦ elim (get_bounds f t) [
        | err e ↦ (write_error settings.error e (write_headers settings), s)
        | ok b ↦ render g t s
      ]
    ]

    -- ServeHTTP, with what follows authentication as an argument.
    unfoldable pub serve_http_with :
        Auth f.F A
        → (Grants f.F → State W P A → Response × State W P A)
        → Request
        → State W P A
        → Response × State W P A
    serve_http_with auth tile req before =
        let s = count_all before in
        let (accepted, g, a) = auth.check_authentication req (new_request_context f) s.auth in
        if text_eq req.method (codes "OPTIONS")
        then (record { status = 204; header = write_headers settings; body = [] }, s)
        else if not accepted
        then (
          write_error settings.error (unauthorized (codes "CheckAuthentication returned false"))
              (write_headers settings),
          record s { auth = a },
        )
        else tile g (record s { auth = a })

    module _ (auth : Auth f.F A) (cache : Cache W) where
      -- What follows a tile request with bounds, from the times of the rendering.
      unfoldable pub render_request :
          ℕ → ℕ → Request → Grants f.F → TileRequest → State W P A → Response × State W P A
      unfolding finish_request
      render_request start later req g t s =
          finish_request req g t (render_tile f (context_of g) start later cache s.group t s.world)
            (count_valid s)

      unfoldable pub serve_tile :
          ℕ → ℕ → Request → Grants f.F → State W P A → Response × State W P A
      unfolding render_request serve_tile_with
      serve_tile start later req g s = serve_tile_with (render_request start later req) req g s

      unfoldable pub serve_http : ℕ → ℕ → Request → State W P A → Response × State W P A
      unfolding serve_tile serve_http_with
      serve_http start later req before =
          serve_http_with auth (serve_tile start later req) req before

      -- `dies` says of which renders a call of a provider or a cache panics, and what is left then.
      module _ (dies : Grants f.F → TileRequest → State W P A → Option (LayerGroup W P × W)) where
        unfoldable pub render_or_recover :
            ℕ → ℕ → Request → Grants f.F → TileRequest → State W P A → Response × State W P A
        unfolding render_request recovered
        render_or_recover start later req g t s = elim (dies g t s) [
          | none ↦ render_request start later req g t s
          | some left ↦ recovered left s
        ]

        -- httpContextHandler.ServeHTTP, around the handler
        unfoldable pub serve_recovered : ℕ → ℕ → Request → State W P A → Response × State W P A
        unfolding render_or_recover serve_http_with serve_tile_with
        serve_recovered start later req before =
            serve_http_with auth (serve_tile_with (render_or_recover start later req) req) req
              before
