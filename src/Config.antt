-- ===== src/Config.antt =====
-- internal/config: the startup configuration (config.go) and the choice of its file (path.go). The
-- decoding of YAML and JSON and the reading of the DSN file are not modelled.
pub mod Checked
pub mod Applied
pub mod Selected
mod Examples
use urbino.Base.{
  ℕ, ◌≡◌, Bool, true, false, ◌&&◌, ◌||◌, not, List, [], ◌∷◌, Option, none, some, if◌then◌else◌,
}
use urbino.Base.Text.{Text, codes, text_eq, is_empty}
use urbino.Base.Space.{trim_space}
use urbino.Base.Dict.{Dict, lookup}
use urbino.Base.Result.{Result, ok, err, ◌>>=◌, ◌>>◌}

pub record DatabaseConfig : Type 0 where
  pub dsn_file : Text

pub record Config : Type 0 where
  pub health_addr : Text
  pub public_addr : Text
  pub admin_addr : Text
  pub auth_pepper_file : Text
  pub environment : Text
  pub log_level : Text
  pub development : Bool
  pub database : DatabaseConfig

pub data ConfigError : Type 0 where
  unsupported_variable bad_variable untrimmed invalid_environment invalid_log_level : ConfigError
  development_in_production missing_file unreadable_file not_regular : ConfigError

abbrev pub env_config_path : Text
env_config_path = codes "URBINO_CONFIG"

abbrev pub env_health_addr : Text
env_health_addr = codes "URBINO_HEALTH_ADDR"

abbrev pub env_public_addr : Text
env_public_addr = codes "URBINO_PUBLIC_ADDR"

abbrev pub env_admin_addr : Text
env_admin_addr = codes "URBINO_ADMIN_ADDR"

abbrev pub env_auth_pepper_file : Text
env_auth_pepper_file = codes "URBINO_AUTH_PEPPER_FILE"

abbrev pub env_log_level : Text
env_log_level = codes "URBINO_LOG_LEVEL"

abbrev pub env_environment : Text
env_environment = codes "URBINO_ENV"

abbrev pub env_database_dsn_file : Text
env_database_dsn_file = codes "URBINO_DATABASE_DSN_FILE"

-- Membership of `AllowedEnvironmentNames`.
unfoldable pub is_allowed : Text → Bool
is_allowed name =
    text_eq name env_config_path
    || text_eq name env_health_addr
    || text_eq name env_public_addr
    || text_eq name env_admin_addr
    || text_eq name env_auth_pepper_file
    || text_eq name env_log_level
    || text_eq name env_environment
    || text_eq name env_database_dsn_file

abbrev pub is_trimmed : Text → Bool
is_trimmed s = text_eq (trim_space s) s

abbrev pub is_environment : Text → Bool
is_environment s =
    text_eq s (codes "development") || text_eq s (codes "test") || text_eq s (codes "production")

abbrev pub is_log_level : Text → Bool
is_log_level s =
    text_eq s (codes "debug")
    || text_eq s (codes "info")
    || text_eq s (codes "warn")
    || text_eq s (codes "error")

-- An optional text that is set must hold no space at its ends.
unfoldable pub optional_trimmed : Text → Result ConfigError (Unit {0})
optional_trimmed s = if not (is_empty s) && not (is_trimmed s) then err untrimmed else ok tt

unfoldable pub validate_environment : Text → Result ConfigError (Unit {0})
validate_environment s =
    if is_empty s
    then ok tt
    else if not (is_trimmed s)
    then err untrimmed
    else if not (is_environment s)
    then err invalid_environment
    else ok tt

unfoldable pub validate_log_level : Text → Result ConfigError (Unit {0})
validate_log_level s =
    if is_empty s
    then ok tt
    else if not (is_trimmed s)
    then err untrimmed
    else if not (is_log_level s)
    then err invalid_log_level
    else ok tt

unfoldable pub validate_health : Text → Result ConfigError (Unit {0})
validate_health s =
    if not (is_empty s) && (not (is_trimmed s) || is_empty (trim_space s))
    then err untrimmed
    else ok tt

unfoldable pub validate : Config → Result ConfigError (Unit {0})
validate cfg = do
  validate_health cfg.health_addr
  optional_trimmed cfg.public_addr
  optional_trimmed cfg.admin_addr
  optional_trimmed cfg.auth_pepper_file
  validate_environment cfg.environment
  validate_log_level cfg.log_level
  optional_trimmed cfg.database.dsn_file
  if text_eq cfg.environment (codes "production") && cfg.development
      then err development_in_production
      else ok tt

unfoldable pub all_allowed : Dict Text → Bool
all_allowed [] = true
all_allowed ((name, value) ∷ values) = is_allowed name && all_allowed values

-- One variable, if it is there.
abbrev pub applied : Option Text → (Text → Config) → Config → Result ConfigError Config
applied none put cfg = ok cfg
applied (some raw) put cfg =
    if is_empty raw || not (is_trimmed raw) then err bad_variable else ok (put raw)

-- The ifs of `ApplyEnvironment`, from the one of a variable on.
unfoldable pub from_dsn : Dict Text → Config → Result ConfigError Config
from_dsn values x =
    applied (lookup env_database_dsn_file values)
      (λ raw. record x { database = record { dsn_file = raw } }) x

unfoldable pub from_environment : Dict Text → Config → Result ConfigError Config
from_environment values x =
    applied (lookup env_environment values) (λ raw. record x { environment = raw }) x
    >>= from_dsn values

unfoldable pub from_level : Dict Text → Config → Result ConfigError Config
from_level values x =
    applied (lookup env_log_level values) (λ raw. record x { log_level = raw }) x
    >>= from_environment values

unfoldable pub from_pepper : Dict Text → Config → Result ConfigError Config
from_pepper values x =
    applied (lookup env_auth_pepper_file values) (λ raw. record x { auth_pepper_file = raw }) x
    >>= from_level values

unfoldable pub from_admin : Dict Text → Config → Result ConfigError Config
from_admin values x =
    applied (lookup env_admin_addr values) (λ raw. record x { admin_addr = raw }) x
    >>= from_pepper values

unfoldable pub from_public : Dict Text → Config → Result ConfigError Config
from_public values x =
    applied (lookup env_public_addr values) (λ raw. record x { public_addr = raw }) x
    >>= from_admin values

unfoldable pub apply_variables : Dict Text → Config → Result ConfigError Config
apply_variables values x =
    applied (lookup env_health_addr values) (λ raw. record x { health_addr = raw }) x
    >>= from_public values

unfoldable pub apply_environment : Config → Dict Text → Result ConfigError Config
apply_environment cfg values =
    if not (all_allowed values)
    then err unsupported_variable
    else apply_variables values cfg >>= λ (c : Config). validate c >> ok c

-- The addresses, by precedence: the variable, the file, the default.
abbrev pub default_health_addr : Text
default_health_addr = codes "127.0.0.1:9091"

unfoldable pub resolve_health_addr : Config → Text → Text
resolve_health_addr cfg env_value =
    if not (is_empty (trim_space env_value))
    then trim_space env_value
    else if not (is_empty (trim_space cfg.health_addr))
    then trim_space cfg.health_addr
    else default_health_addr

-- `ResolvePublicAddr`, `ResolveAdminAddr` and `ResolveAuthPepperFile`, at the field of the file.
unfoldable pub resolve_field : (field : Text) → Text → Text
resolve_field field env_value = if not (is_empty (trim_space env_value)) then env_value else field

pub data Source : Type 0 where
  from_flag from_env from_default : Source

pub record ConfigPath : Type 0 where
  pub file : Text
  pub source : Source

pub record PathInput : Type 0 where
  pub explicit : Text
  pub env : Text
  pub dir : Text

-- `os.Stat`.
pub data FileInfo : Type 0 where
  not_exist stat_error regular irregular : FileInfo

abbrev pub selected : ConfigPath → FileInfo → Result ConfigError ConfigPath
selected p not_exist = err missing_file
selected p stat_error = err unreadable_file
selected p irregular = err not_regular
selected p regular = ok p

-- `join` is `filepath.Join`, `stat` is `os.Stat`.
module _ (join : Text → Text → Text) (stat : Text → FileInfo) where
  unfoldable pub select_file : ConfigPath → Result ConfigError ConfigPath
  select_file p = selected p (stat p.file)

  unfoldable pub resolve_path : PathInput → Result ConfigError ConfigPath
  resolve_path i =
      if not (is_empty (trim_space i.explicit))
      then select_file (record { file = trim_space i.explicit; source = from_flag })
      else if not (is_empty (trim_space i.env))
      then select_file (record { file = trim_space i.env; source = from_env })
      else select_file (record {
        file =
            join (if is_empty (trim_space i.dir) then codes "." else trim_space i.dir)
              (codes "urbino.yaml");
        source = from_default;
      })
