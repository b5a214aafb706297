-- ===== src/Providers/Client.antt =====
-- pkg/utility.go: GetTile. The exchange with the remote server is a parameter: what the client does with
-- the headers of the request, the timeout in seconds, and the URL.
pub mod Limits
pub mod Tests
use tilegroxy.Base.{
  ℕ, ◌^◌, ◌-◌, Bool, true, false, not, List, [], ◌∷◌, Option, none, some, if◌then◌else◌, ltb, ◌==◌,
  length, Text, codes, contains, lookup,
}
use tilegroxy.Base.Int.{ℤ, pos, negsuc, ltb_ℤ, eqb_ℤ}
use tilegroxy.Errors.{Error, remote_server, invalid_content_type, invalid_content_length}
use tilegroxy.Tile.Bounds.{Result, ok, err}
use tilegroxy.Layer.Provide.{Image}
use tilegroxy.Server.Response.{Header, set_header}

pub record ClientConfig : Type 0 where
  pub user_agent : Text
  pub max_length : ℤ
  pub unknown_length : Bool
  pub content_types : List Text
  pub status_codes : List ℕ
  pub headers : List (Text × Text)
  pub timeout : ℕ
  pub rewrite_content_types : List (Text × Text)

-- http.Response; a body is `none` if reading it fails.
pub record RemoteResponse : Type 0 where
  pub status_code : ℕ
  pub content_type : Text
  pub content_length : ℤ
  pub body : Option Text

set_headers : List (Text × Text) → Header → Header
unfolding set_header
set_headers [] h = h
set_headers ((k, v) ∷ kvs) h = set_headers kvs (set_header k v h)

pub request_header : ClientConfig → List (Text × Text) → Header
unfolding set_headers set_header
request_header c auth_headers =
    set_headers auth_headers
      (set_headers c.headers (set_header (codes "User-Agent") c.user_agent []))

-- slices.Contains on numbers
pub contains_status : List ℕ → ℕ → Bool
contains_status [] n = false
contains_status (m ∷ ms) n = let rest = contains_status ms n in if m == n then true else rest

-- Whether the announced length is refused.
pub bad_length : ClientConfig → ℤ → Bool
bad_length c n = if eqb_ℤ n (negsuc 0) then not c.unknown_length else ltb_ℤ c.max_length n

pub rewritten : ClientConfig → Text → Text
rewritten c t = elim (lookup t c.rewrite_content_types) [ none ↦ t | some new ↦ new ]

-- The checks of the body.
pub read_body : ClientConfig → RemoteResponse → Option Text → Result Image
unfolding rewritten
read_body c r none = err (remote_server r.status_code)
read_body c r (some img) =
    if ltb_ℤ c.max_length (pos (length img))
    then err (invalid_content_length (pos (length img)))
    else ok (record {
      content = img;
      content_type = rewritten c r.content_type;
      force_skip_cache = false;
    })

-- The checks of the response.
pub check_response : ClientConfig → RemoteResponse → Result Image
unfolding contains_status bad_length read_body
check_response c r =
    if not (contains_status c.status_codes r.status_code)
    then err (remote_server r.status_code)
    else if not (contains c.content_types r.content_type)
    then err (invalid_content_type r.content_type)
    else if bad_length c r.content_length
    then err (invalid_content_length r.content_length)
    else read_body c r r.body

unfoldable pub get_tile :
    (Header → ℕ → Text → Result RemoteResponse)
    → ClientConfig
    → Text
    → List (Text × Text)
    → Result Image
unfolding request_header check_response
get_tile exchange c url auth_headers =
    let timeout = if ltb (2 ^ 31 - 1) c.timeout then 2 ^ 31 - 1 else c.timeout in
    elim (exchange (request_header c auth_headers) timeout url) [
      | err e ↦ err e
      | ok r ↦ check_response c r
    ]
