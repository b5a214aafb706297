-- ===== src/Config/Settings/Tests.antt =====
-- The default configuration, and clients with their defaults.
use tilegroxy.Base.{◌≡◌, ◌↔◌, refl, true, none, codes, text_eq, contains, arith}
use tilegroxy.Base.Strconv.{atoi}
use tilegroxy.Config.Settings.{
  default_config, validate, is_level, is_slog_level, before_sign, effective_shutdown_timeout,
}
use tilegroxy.Config.Settings.Validity.{IsSound, validate_iff}

validate_iff_example :
    (validate (default_config (codes "1.0")) ≡ none) ↔ IsSound (default_config (codes "1.0"))
unfolding default_config
validate_iff_example = validate_iff (default_config (codes "1.0")) (omega arith)

default_config_valid : validate (default_config (codes "1.0")) ≡ none
unfolding default_config validate is_level is_slog_level contains text_eq effective_shutdown_timeout
default_config_valid = refl

level_with_offset : is_level (codes "Debug-4") ≡ true
unfolding is_level is_slog_level before_sign contains text_eq atoi
level_with_offset = refl
