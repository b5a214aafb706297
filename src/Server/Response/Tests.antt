-- ===== src/Server/Response/Tests.antt =====
-- The response to an error of a provider, with the error in a header and no image.
use tilegroxy.Base.{false, [], ◌∷◌, none, some, ◌≡◌, ◌⊎◌, codes, lookup}
use tilegroxy.Errors.{remote_server}
use tilegroxy.Server.Response.{ErrorConfig, image_header, write_error}
use tilegroxy.Server.Response.Errors.{HasStatus, IsCancellation, write_error-status}

abbrev pub error_config : ErrorConfig
error_config = record {
  mode = image_header;
  always_ok = false;
  external = λ e. codes "provider error";
  static_image = λ t. none;
}

write_error-status_example :
    HasStatus false (remote_server 404) (write_error error_config (remote_server 404) []).status
    × ((lookup (codes "Cache-Control") (write_error error_config (remote_server 404) []).header
          ≡ some (codes "no-store" ∷ []))
        ⊎ (IsCancellation (remote_server 404)
            × (((write_error error_config (remote_server 404) []).header ≡ [])
                × ((write_error error_config (remote_server 404) []).body ≡ []))))
write_error-status_example = write_error-status error_config (remote_server 404) []
