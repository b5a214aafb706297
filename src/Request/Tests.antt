-- ===== src/Request/Tests.antt =====
-- A request with headers that look like keys of the context.
use tilegroxy.Base.{◌≡◌, inl, refl, [], ◌∷◌, codes, All, arith}
use tilegroxy.Base.Strconv.{split}
use tilegroxy.Tile.Tests.{integers}
use tilegroxy.Request.{new_request_context, context_of}
use tilegroxy.Request.Values.{
  RawRequest, IsCanonical, context_from, new_context, new_context-grants, before_colon,
}

abbrev pub request_with_headers : RawRequest
request_with_headers = record {
  request_uri = codes "/tiles/osm/1/0/0";
  path = codes "/tiles/osm/1/0/0";
  query = [];
  raw_query = [];
  proto = codes "HTTP/1.1";
  remote_addr = codes "[::1]:40000";
  method = codes "GET";
  host = codes "localhost";
  header = (codes "User", codes "root" ∷ []) ∷ ((codes "Refdepth", codes "0" ∷ []) ∷ []);
}

pub IsCanonical-headers : All (λ e. IsCanonical e.0) request_with_headers.header
IsCanonical-headers = (inl (omega arith), (inl (omega arith), tt))

new_context-grants_example :
    context_from (new_context integers 0 request_with_headers)
    ≡ context_of (new_request_context integers)
new_context-grants_example = new_context-grants integers 0 request_with_headers IsCanonical-headers

-- The address of an IPv6 client is cut at its first colon.
ipv6_address : before_colon (codes "[::1]:40000") ≡ codes "["
unfolding before_colon split
ipv6_address = refl
