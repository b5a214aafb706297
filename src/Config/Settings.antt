-- ===== src/Config/Settings.antt =====
-- pkg/config/config.go: the configuration with its defaults, EffectiveShutdownTimeout,
-- MergeDefaultsFrom and Validate. A raw configuration of an entity is a map of Layer.Refs. The version
-- of the program is a parameter. The case of letters is that of ASCII.
pub mod Validity
pub mod Tests
use tilegroxy.Base.{
  ℕ, ◌+◌, ◌-◌, ◌*◌, ◌%◌, ◌^◌, Bool, true, false, not, ◌&&◌, ◌||◌, List, [], ◌∷◌, ◌++◌, map, Option,
  none, some, if◌then◌else◌, leb, ◌==◌, Text, codes, text_eq, contains, lower, upper,
}
use tilegroxy.Base.Int.{ℤ, pos, eqb_ℤ}
use tilegroxy.Base.Strconv.{atoi}
use tilegroxy.Errors.{Error, plain}
use tilegroxy.Layer.Refs.{Fields, text, end, field}
use tilegroxy.Providers.Client.{ClientConfig}
use tilegroxy.Server.Shutdown.{join_all}

pub record EncryptionConfig : Type 0 where
  pub domain : Text
  pub cache : Text
  pub certificate : Text
  pub key_file : Text
  pub http_port : ℤ

pub record HealthConfig : Type 0 where
  pub enabled : Bool
  pub port : ℤ
  pub host : Text
  pub checks : List Fields

pub record ServerConfig : Type 0 where
  pub encrypt : Option EncryptionConfig
  pub health : HealthConfig
  pub bind_host : Text
  pub port : ℤ
  pub root_path : Text
  pub tile_path : Text
  pub docs_path : Text
  pub headers : List (Text × Text)
  pub production : Bool
  pub timeout : ℕ
  pub gzip : Bool
  pub shutdown_timeout : ℕ
  pub drain_delay : ℕ

-- On an unsigned number of 64 bits.
unfoldable pub effective_shutdown_timeout : ServerConfig → ℕ
effective_shutdown_timeout c =
    if c.shutdown_timeout == 0 then (c.timeout + c.drain_delay) % 2 ^ 64 else c.shutdown_timeout

module _ {A : Type 0} where
  -- The second list if the first is empty.
  or_default : List A → List A → List A
  or_default [] ys = ys
  or_default (x ∷ xs) ys = x ∷ xs

unfoldable pub merge_defaults_from : ClientConfig → ClientConfig → ClientConfig
unfolding or_default
merge_defaults_from c o = record {
  user_agent = or_default c.user_agent o.user_agent;
  max_length = if eqb_ℤ c.max_length (pos 0) then o.max_length else c.max_length;
  unknown_length = c.unknown_length;
  content_types = or_default c.content_types o.content_types;
  status_codes = or_default c.status_codes o.status_codes;
  headers = or_default c.headers o.headers;
  timeout = if c.timeout == 0 then o.timeout else c.timeout;
  rewrite_content_types = or_default c.rewrite_content_types o.rewrite_content_types;
}

pub record ErrorMessages : Type 0 where
  pub not_authorized : Text
  pub param_required : Text
  pub invalid_param : Text
  pub range_error : Text
  pub server_error : Text
  pub provider_error : Text
  pub params_both_or_neither : Text
  pub params_mutually_exclusive : Text
  pub one_of_required : Text
  pub enum_error : Text
  pub script_error : Text
  pub timeout : Text
  pub param_regex : Text

pub record ErrorImages : Type 0 where
  pub out_of_bounds : Text
  pub authentication : Text
  pub provider : Text
  pub other : Text

pub record ErrorConfig : Type 0 where
  pub mode : Text
  pub messages : ErrorMessages
  pub images : ErrorImages
  pub always_ok : Bool

pub record AccessConfig : Type 0 where
  pub console : Bool
  pub path : Text
  pub format : Text

pub record MainConfig : Type 0 where
  pub console : Bool
  pub path : Text
  pub format : Text
  pub level : Text
  pub request : Text
  pub headers : List Text

pub record LayerConfig : Type 0 where
  pub id : Text
  pub pattern : Text
  pub param_validator : List (Text × Text)
  pub provider : Fields
  pub skip_cache : Bool
  pub skip_analytics : Bool
  pub client : Option ClientConfig

-- The logging configurations stand side by side.
pub record Config : Type 0 where
  pub server : ServerConfig
  pub client : ClientConfig
  pub main : MainConfig
  pub access : AccessConfig
  pub error : ErrorConfig
  pub telemetry : Bool
  pub secret : Fields
  pub datastores : List Fields
  pub authentication : Fields
  pub cache : Fields
  pub analytics : Fields
  pub layers : List LayerConfig

-- The text before the first sign, and the rest with it.
pub before_sign : Text → Text × Option Text
before_sign [] = ([], none)
before_sign (c ∷ s) =
    let (name, rest) = before_sign s in
    if c == b'+' || c == b'-' then ([], some (c ∷ s)) else (c ∷ name, rest)

pub is_offset : Option Text → Bool
is_offset none = true
is_offset (some s) = (atoi s).1

abbrev pub slog_levels : List Text
slog_levels = codes "DEBUG" ∷ (codes "INFO" ∷ (codes "WARN" ∷ (codes "ERROR" ∷ [])))

-- Whether UnmarshalText of slog.Level takes the text.
pub is_slog_level : Text → Bool
unfolding before_sign is_offset upper
is_slog_level s =
    let (name, rest) = before_sign s in is_offset rest && contains slog_levels (map upper name)

abbrev pub custom_log_levels : List Text
custom_log_levels = codes "trace" ∷ (codes "absurd" ∷ [])

pub is_level : Text → Bool
unfolding is_slog_level lower
is_level s = if contains custom_log_levels (map lower s) then true else is_slog_level s

abbrev pub error_modes : List Text
error_modes = codes "text" ∷ (codes "none" ∷ (codes "image" ∷ (codes "image+header" ∷ [])))

abbrev pub main_formats : List Text
main_formats = codes "plain" ∷ (codes "json" ∷ [])

abbrev pub access_formats : List Text
access_formats = codes "common" ∷ (codes "combined" ∷ [])

-- The error of a field that fails its test.
unfoldable pub unless_error : Bool → Text → List Error → List Error
unless_error true name es = es
unless_error false name es = plain name ∷ es

unfoldable pub validate : Config → Option Error
unfolding unless_error join_all
validate c = join_all (
    unless_error (contains error_modes c.error.mode) (codes "error.mode") (
      unless_error (is_level c.main.level) (codes "logging.main.level") (
        unless_error (contains main_formats c.main.format) (codes "logging.main.format") (
          unless_error (contains access_formats c.access.format) (codes "logging.access.format") (
            unless_error (not (leb (effective_shutdown_timeout c.server) c.server.drain_delay))
              (codes "server.draindelay") [])))))

default_messages : ErrorMessages
default_messages = record {
  not_authorized = codes "Not authorized";
  param_required = codes "Parameter %v is required";
  invalid_param = codes "Invalid value supplied for parameter %v: %v";
  range_error = codes "%v must be between %v and %v";
  server_error = codes "Unexpected server error: %v";
  provider_error = codes "Provider failed to return image";
  params_both_or_neither = codes "Parameters %v and %v must be either both or neither supplied";
  params_mutually_exclusive = codes "Parameters %v and %v cannot both be set";
  one_of_required = codes "You must specify one of: %v";
  enum_error = codes "Invalid value supplied for %v: '%v'. It must be one of: %v";
  script_error = codes "The script specified for %v is invalid: %v";
  timeout = codes "Timeout error";
  param_regex =
      codes "Invalid value supplied for parameter %v: %v. Value must conform to regex: %v ";
}

named_none : Fields
named_none = field (codes "name") (text (codes "none")) end

-- DefaultConfig, with the version of the program
unfoldable pub default_config : Text → Config
unfolding default_messages named_none
default_config version = record {
  server = record {
    encrypt = none;
    health = record { enabled = false; port = pos 3000; host = codes "0.0.0.0"; checks = [] };
    bind_host = codes "127.0.0.1";
    port = pos 8080;
    root_path = codes "/";
    tile_path = codes "tiles";
    docs_path = codes "docs";
    headers = [];
    production = false;
    timeout = 60;
    gzip = false;
    shutdown_timeout = 0;
    drain_delay = 5;
  };
  client = record {
    user_agent = codes "tilegroxy/" ++ version;
    max_length = pos (1024 * 1024 * 10);
    unknown_length = false;
    content_types =
        codes "image/png"
        ∷ (codes "image/jpg"
            ∷ (codes "image/jpeg"
                ∷ (codes "application/vnd.mapbox-vector-tile"
                    ∷ (codes "application/x-protobuf" ∷ []))));
    status_codes = 200 ∷ [];
    headers = [];
    timeout = 10;
    rewrite_content_types = (codes "application/octet-stream", []) ∷ [];
  };
  main = record {
    console = true;
    path = [];
    format = codes "plain";
    level = codes "info";
    request = codes "auto";
    headers = [];
  };
  access = record { console = true; path = []; format = codes "combined" };
  error = record {
    mode = codes "image";
    messages = default_messages;
    images = record {
      out_of_bounds = codes "embedded:transparent.png";
      authentication = codes "embedded:unauthorized.png";
      provider = codes "embedded:error.png";
      other = codes "embedded:error.png";
    };
    always_ok = false;
  };
  telemetry = false;
  secret = named_none;
  datastores = [];
  authentication = named_none;
  cache = named_none;
  analytics = named_none;
  layers = [];
}
