-- ===== src/Providers/Proxy/Tests.antt =====
-- A template of a WMS server.
use tilegroxy.Base.{◌≡◌, refl, false, codes, text_eq, has_prefix}
use tilegroxy.Base.Strconv.{natural, decimal}
use tilegroxy.Tile.Bounds.{ok}
use tilegroxy.Providers.Placeholders.{replace_all}
use tilegroxy.Providers.Proxy.{UrlTemplateConfig, initialize_template}

abbrev wms : UrlTemplateConfig
wms = record { template = codes "h?b=$xmin,$ymax&w=$width"; width = 0; height = 0; srid = 0 }

wms_url :
    initialize_template wms
    ≡ ok (record { url = codes "h?b={xmin},{ymax}&w=256"; invert_y = false; srid = 4326 })
unfolding initialize_template replace_all has_prefix text_eq natural decimal
wms_url = refl
