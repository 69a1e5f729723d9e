-- ===== src/Config/Examples.antt =====
-- The theorems on internal/config at concrete values.
use urbino.Base.{◌≡◌, refl, true, false, [], ◌∷◌, ◌++◌}
use urbino.Base.Text.{Text, codes, text_eq}
use urbino.Base.Space.{trim_space}
use urbino.Base.Dict.{Dict, lookup}
use urbino.Base.Result.{ok}
use urbino.Config.{
  Config, FileInfo, not_exist, regular, PathInput, ConfigPath, from_env, validate, all_allowed,
  is_allowed, apply_environment, apply_variables, from_public, from_admin, from_pepper, from_level,
  from_environment, from_dsn, env_log_level, validate_health, optional_trimmed,
  validate_environment, validate_log_level, select_file, resolve_path,
}
use urbino.Config.Checked.{IsValid}
use urbino.Config.Applied.{overridden, apply_environment_ok}

abbrev cfg : Config
cfg = record {
  health_addr = [];
  public_addr = codes ":1";
  admin_addr = codes ":2";
  auth_pepper_file = [];
  environment = codes "test";
  log_level = codes "info";
  development = true;
  database = record { dsn_file = [] };
}

abbrev values : Dict Text
values = (env_log_level, codes "warn") ∷ []

abbrev cfg' : Config
cfg' = record cfg { log_level = codes "warn" }

environment_applied : apply_environment cfg values ≡ ok cfg'
unfolding apply_environment apply_variables from_public from_admin from_pepper from_level
    from_environment from_dsn all_allowed is_allowed lookup text_eq trim_space validate
    validate_health optional_trimmed validate_environment validate_log_level
environment_applied = refl

apply_environment_ok_example :
    (cfg' ≡ overridden cfg values) × (all_allowed values ≡ true) × IsValid cfg'
apply_environment_ok_example = apply_environment_ok cfg values cfg' environment_applied

abbrev join : Text → Text → Text
join dir file = dir ++ b'/' ∷ file

abbrev stat : Text → FileInfo
stat file = elim (text_eq file (codes "a.yaml")) [ true ↦ regular | false ↦ not_exist ]

abbrev input : PathInput
input = record { explicit = codes " "; env = codes " a.yaml "; dir = [] }

abbrev chosen : ConfigPath
chosen = record { file = codes "a.yaml"; source = from_env }

path_resolved : resolve_path join stat input ≡ ok chosen
unfolding resolve_path select_file trim_space text_eq
path_resolved = refl
