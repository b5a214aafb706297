-- ===== src/Analytics/Fields/Tests.antt =====
-- The attributes of a request whose headers look like fields.
use tilegroxy.Base.{◌≡◌, refl, [], ◌∷◌, some, Text, codes, text_eq, text_ne, lower, contains}
use tilegroxy.Tile.Bounds.{ok}
use tilegroxy.Tile.Tests.{integers}
use tilegroxy.Request.Values.{Value, with_headers, without_headers}
use tilegroxy.Request.Tests.{request_with_headers, IsCanonical-headers}
use tilegroxy.Analytics.Fields.{
  FieldSource, FieldResolver, new_field_resolver, resolve, resolve_named_field,
}
use tilegroxy.Analytics.Fields.Sources.{attribute, resolve-headers}

abbrev resolver : FieldResolver
resolver = record {
  fields = codes "host" ∷ (codes "bytes" ∷ []);
  extra_fields = (codes "site", codes "a") ∷ [];
}

abbrev source : FieldSource
source = record { layer_name = codes "osm"; bytes = 3; content_type = codes "image/png" }

abbrev blank : Value integers.F → Text
blank v = []

abbrev same_name : Text → Text
same_name t = t

resolve-headers_example :
    attribute (codes "host") (
      resolve blank same_name 0
        (with_headers integers request_with_headers.header
          (without_headers integers 0 request_with_headers))
        (some resolver)
        source)
    ≡ resolve_named_field blank same_name 0
        (without_headers integers 0 request_with_headers)
        (codes "host")
        source
unfolding contains text_eq
resolve-headers_example =
    resolve-headers integers blank same_name 0 request_with_headers.header
      (without_headers integers 0 request_with_headers) resolver source (codes "host")
      IsCanonical-headers (text_ne _ _ refl) (text_ne _ _ refl)
      (text_ne (codes "site") (codes "host") refl, tt)

resolver_lower :
    new_field_resolver (codes "Host" ∷ (codes "BYTES" ∷ [])) ((codes "site", codes "a") ∷ [])
    ≡ ok resolver
unfolding new_field_resolver contains text_eq lower
resolver_lower = refl
