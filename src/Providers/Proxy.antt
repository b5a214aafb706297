-- ===== src/Providers/Proxy.antt =====
-- internal/providers/proxy.go and url_template.go. The replacement of the placeholders of a URL and the
-- exchange with the remote server are those of Placeholders and Client, here arguments.
pub mod Tests
use tilegroxy.Base.{
  ℕ, Bool, true, false, not, ◌&&◌, List, [], ◌∷◌, Option, none, some, if◌then◌else◌, ◌==◌, Text,
  codes, text_eq,
}
use tilegroxy.Base.Strconv.{natural}
use tilegroxy.Errors.{Error, plain}
use tilegroxy.Tile.Bounds.{TileRequest, Result, ok, err, srid_wgs84, srid_psuedo_mercator}
use tilegroxy.Layer.Provide.{Image, ProviderContext}
use tilegroxy.Providers.Placeholders.{replace_all}

pub record ProxyConfig : Type 0 where
  pub url : Text
  pub invert_y : Bool
  pub srid : ℕ

pub record UrlTemplateConfig : Type 0 where
  pub template : Text
  pub width : ℕ
  pub height : ℕ
  pub srid : ℕ

default_srid : ℕ → ℕ
default_srid n = if n == 0 then srid_wgs84 else n

is_known_srid : ℕ → Bool
is_known_srid n = if n == srid_wgs84 then true else n == srid_psuedo_mercator

unfoldable pub initialize_proxy : ProxyConfig → Result ProxyConfig
unfolding default_srid is_known_srid
initialize_proxy c =
    if text_eq c.url []
    then err (plain (codes "provider.proxy.url"))
    else if not (is_known_srid (default_srid c.srid))
    then err (plain (codes "provider.proxy.srid"))
    else ok (record c { srid = default_srid c.srid })

default_size : ℕ → ℕ
default_size n = if n == 0 then 256 else n

-- The placeholders of WMS servers become those of the proxy, or the configured values.
unfoldable pub template_url : UrlTemplateConfig → Text
unfolding default_srid default_size
template_url c = replace_all (codes "$srs") (natural (default_srid c.srid)) (
    replace_all (codes "$height") (natural (default_size c.height)) (
      replace_all (codes "$width") (natural (default_size c.width)) (
        replace_all (codes "$zoom") (codes "{z}") (
          replace_all (codes "$ymax") (codes "{ymax}") (
            replace_all (codes "$ymin") (codes "{ymin}") (
              replace_all (codes "$xmax") (codes "{xmax}")
                (replace_all (codes "$xmin") (codes "{xmin}") c.template)))))))

unfoldable pub initialize_template : UrlTemplateConfig → Result ProxyConfig
unfolding template_url is_known_srid default_srid
initialize_template c =
    if text_eq c.template []
    then err (plain (codes "provider.url template.url"))
    else if not (is_known_srid (default_srid c.srid))
    then err (plain (codes "provider.url template.srid"))
    else ok (record { url = template_url c; invert_y = false; srid = default_srid c.srid })

-- PreAuth of both providers, whatever its arguments
unfoldable pub pre_auth_bypass : {P : Type 0} → P → ProviderContext P × Option Error
pre_auth_bypass nil = (record { auth_bypass = true; auth_expiration = 0; other = nil }, none)

-- GenerateTile of both providers, with replaceURLPlaceholders and getTile
unfoldable pub proxy_tile :
    {W : Type 0}
    → (TileRequest → Text → Bool → ℕ → Result Text)
    → (Text → W → Result Image × W)
    → ProxyConfig
    → TileRequest
    → W
    → Result Image × W
proxy_tile replace fetch c t w = elim (replace t c.url c.invert_y c.srid) [
  | err e ↦ (err e, w)
  | ok url ↦ fetch url w
]
