-- ===== src/Config/Applied.antt =====
-- What `ApplyEnvironment` of internal/config/config.go returns.
use mathlib.Core.Path.{subst}
use urbino.Base.{◌||◌, ◌≡◌, refl, sym, ap, ◌∙◌, true, not, Option, none, some, arith}
use urbino.Base.Text.{Text, is_empty}
use urbino.Base.Dict.{Dict, lookup}
use urbino.Base.Result.{ok, >>=-ok, guard-ok, ok-injective}
use urbino.Config.{
  from_environment, from_dsn, from_pepper, from_public, from_admin, from_level, bad_variable,
  Config, unsupported_variable, is_trimmed, validate, all_allowed, applied, apply_variables,
  apply_environment, env_health_addr, env_public_addr, env_admin_addr, env_auth_pepper_file,
  env_log_level, env_environment, env_database_dsn_file,
}
use urbino.Config.Checked.{IsValid, config_validate_iff}

-- A variable, or the value of the file without it.
abbrev pub or_else : Option Text → Text → Text
or_else none s = s
or_else (some raw) s = raw

abbrev pub overridden : Config → Dict Text → Config
overridden cfg values = record {
  health_addr = or_else (lookup env_health_addr values) cfg.health_addr;
  public_addr = or_else (lookup env_public_addr values) cfg.public_addr;
  admin_addr = or_else (lookup env_admin_addr values) cfg.admin_addr;
  auth_pepper_file = or_else (lookup env_auth_pepper_file values) cfg.auth_pepper_file;
  environment = or_else (lookup env_environment values) cfg.environment;
  log_level = or_else (lookup env_log_level values) cfg.log_level;
  development = cfg.development;
  database = record {
    dsn_file = or_else (lookup env_database_dsn_file values) cfg.database.dsn_file;
  };
}

applied_ok :
    (o : Option Text) (put : Text → Config) (cfg c : Config) (old : Text)
    → put old ≡ cfg
    → applied o put cfg ≡ ok c
    → put (or_else o old) ≡ c
applied_ok none put cfg c old e h = e ∙ ok-injective h
applied_ok (some raw) put cfg c old e h =
    ok-injective (guard-ok (is_empty raw || not (is_trimmed raw)) bad_variable _ h).1

-- The configuration with one variable in place of its field.
unfoldable with_health : Dict Text → Config → Config
with_health values x = record x {
  health_addr = or_else (lookup env_health_addr values) x.health_addr;
}

with_health_ok :
    (values : Dict Text) (x c : Config)
    → applied (lookup env_health_addr values) (λ raw. record x { health_addr = raw }) x ≡ ok c
    → with_health values x ≡ c
unfolding with_health
with_health_ok values x c h =
    applied_ok (lookup env_health_addr values) (λ raw. record x { health_addr = raw }) x c
      x.health_addr refl h

unfoldable with_public : Dict Text → Config → Config
with_public values x = record x {
  public_addr = or_else (lookup env_public_addr values) x.public_addr;
}

with_public_ok :
    (values : Dict Text) (x c : Config)
    → applied (lookup env_public_addr values) (λ raw. record x { public_addr = raw }) x ≡ ok c
    → with_public values x ≡ c
unfolding with_public
with_public_ok values x c h =
    applied_ok (lookup env_public_addr values) (λ raw. record x { public_addr = raw }) x c
      x.public_addr refl h

unfoldable with_admin : Dict Text → Config → Config
with_admin values x = record x { admin_addr = or_else (lookup env_admin_addr values) x.admin_addr }

with_admin_ok :
    (values : Dict Text) (x c : Config)
    → applied (lookup env_admin_addr values) (λ raw. record x { admin_addr = raw }) x ≡ ok c
    → with_admin values x ≡ c
unfolding with_admin
with_admin_ok values x c h =
    applied_ok (lookup env_admin_addr values) (λ raw. record x { admin_addr = raw }) x c
      x.admin_addr refl h

unfoldable with_pepper : Dict Text → Config → Config
with_pepper values x = record x {
  auth_pepper_file = or_else (lookup env_auth_pepper_file values) x.auth_pepper_file;
}

with_pepper_ok :
    (values : Dict Text) (x c : Config)
    → applied (lookup env_auth_pepper_file values) (λ raw. record x { auth_pepper_file = raw }) x
      ≡ ok c
    → with_pepper values x ≡ c
unfolding with_pepper
with_pepper_ok values x c h =
    applied_ok (lookup env_auth_pepper_file values) (λ raw. record x { auth_pepper_file = raw }) x c
      x.auth_pepper_file refl h

unfoldable with_level : Dict Text → Config → Config
with_level values x = record x { log_level = or_else (lookup env_log_level values) x.log_level }

with_level_ok :
    (values : Dict Text) (x c : Config)
    → applied (lookup env_log_level values) (λ raw. record x { log_level = raw }) x ≡ ok c
    → with_level values x ≡ c
unfolding with_level
with_level_ok values x c h =
    applied_ok (lookup env_log_level values) (λ raw. record x { log_level = raw }) x c x.log_level
      refl h

unfoldable with_environment : Dict Text → Config → Config
with_environment values x = record x {
  environment = or_else (lookup env_environment values) x.environment;
}

with_environment_ok :
    (values : Dict Text) (x c : Config)
    → applied (lookup env_environment values) (λ raw. record x { environment = raw }) x ≡ ok c
    → with_environment values x ≡ c
unfolding with_environment
with_environment_ok values x c h =
    applied_ok (lookup env_environment values) (λ raw. record x { environment = raw }) x c
      x.environment refl h

unfoldable with_dsn : Dict Text → Config → Config
with_dsn values x = record x {
  database = record {
    dsn_file = or_else (lookup env_database_dsn_file values) x.database.dsn_file;
  };
}

with_dsn_ok :
    (values : Dict Text) (x c : Config)
    → applied
        (lookup env_database_dsn_file values)
        (λ raw. record x { database = record { dsn_file = raw } })
        x
      ≡ ok c
    → with_dsn values x ≡ c
unfolding with_dsn
with_dsn_ok values x c h =
    applied_ok (lookup env_database_dsn_file values)
      (λ raw. record x { database = record { dsn_file = raw } }) x c x.database.dsn_file refl h

from_dsn_ok : (values : Dict Text) (x c : Config) → from_dsn values x ≡ ok c → with_dsn values x ≡ c
unfolding from_dsn
from_dsn_ok values x c h = with_dsn_ok values x c h

unfoldable after_environment : Dict Text → Config → Config
after_environment values x = with_dsn values (with_environment values x)

from_environment_ok :
    (values : Dict Text) (x c : Config)
    → from_environment values x ≡ ok c
    → after_environment values x ≡ c
unfolding from_environment after_environment
from_environment_ok values x c h =
    let (y, e, g) =
      >>=-ok (applied (lookup env_environment values) (λ raw. record x { environment = raw }) x)
        (from_dsn values) h in
    ap (with_dsn values) (with_environment_ok values x y e) ∙ from_dsn_ok values y c g

unfoldable after_level : Dict Text → Config → Config
after_level values x = after_environment values (with_level values x)

from_level_ok :
    (values : Dict Text) (x c : Config) → from_level values x ≡ ok c → after_level values x ≡ c
unfolding from_level after_level
from_level_ok values x c h =
    let (y, e, g) =
      >>=-ok (applied (lookup env_log_level values) (λ raw. record x { log_level = raw }) x)
        (from_environment values) h in
    ap (after_environment values) (with_level_ok values x y e) ∙ from_environment_ok values y c g

unfoldable after_pepper : Dict Text → Config → Config
after_pepper values x = after_level values (with_pepper values x)

from_pepper_ok :
    (values : Dict Text) (x c : Config) → from_pepper values x ≡ ok c → after_pepper values x ≡ c
unfolding from_pepper after_pepper
from_pepper_ok values x c h =
    let (y, e, g) =
      >>=-ok
        (applied (lookup env_auth_pepper_file values) (λ raw. record x { auth_pepper_file = raw })
          x)
        (from_level values) h in
    ap (after_level values) (with_pepper_ok values x y e) ∙ from_level_ok values y c g

unfoldable after_admin : Dict Text → Config → Config
after_admin values x = after_pepper values (with_admin values x)

from_admin_ok :
    (values : Dict Text) (x c : Config) → from_admin values x ≡ ok c → after_admin values x ≡ c
unfolding from_admin after_admin
from_admin_ok values x c h =
    let (y, e, g) =
      >>=-ok (applied (lookup env_admin_addr values) (λ raw. record x { admin_addr = raw }) x)
        (from_pepper values) h in
    ap (after_pepper values) (with_admin_ok values x y e) ∙ from_pepper_ok values y c g

unfoldable after_public : Dict Text → Config → Config
after_public values x = after_admin values (with_public values x)

from_public_ok :
    (values : Dict Text) (x c : Config) → from_public values x ≡ ok c → after_public values x ≡ c
unfolding from_public after_public
from_public_ok values x c h =
    let (y, e, g) =
      >>=-ok (applied (lookup env_public_addr values) (λ raw. record x { public_addr = raw }) x)
        (from_admin values) h in
    ap (after_admin values) (with_public_ok values x y e) ∙ from_admin_ok values y c g

unfoldable after_health : Dict Text → Config → Config
after_health values x = after_public values (with_health values x)

apply_variables_ok :
    (values : Dict Text) (x c : Config)
    → apply_variables values x ≡ ok c
    → after_health values x ≡ c
unfolding apply_variables after_health
apply_variables_ok values x c h =
    let (y, e, g) =
      >>=-ok (applied (lookup env_health_addr values) (λ raw. record x { health_addr = raw }) x)
        (from_public values) h in
    ap (after_public values) (with_health_ok values x y e) ∙ from_public_ok values y c g

all_after : (values : Dict Text) (cfg : Config) → after_health values cfg ≡ overridden cfg values
unfolding with_health with_public with_admin with_pepper with_level with_environment with_dsn
    after_health after_public after_admin after_pepper after_level after_environment
all_after values cfg = refl

-- A configuration that is returned is the one of the file with each variable that is set in place of
-- the file's value. Only declared variables are set then, and the configuration is valid.
pub apply_environment_ok :
    (cfg : Config) (values : Dict Text) (c : Config)
    → apply_environment cfg values ≡ ok c
    → (c ≡ overridden cfg values) × (all_allowed values ≡ true) × IsValid c
unfolding apply_environment
apply_environment_ok cfg values c h =
    let (a, g) = guard-ok (not (all_allowed values)) unsupported_variable _ h in
    let (d, ed, gd) = >>=-ok (apply_variables values cfg) _ g in
    let (t, v, e) = >>=-ok (validate d) (λ _. ok d) gd in
    let same : d ≡ c = ok-injective e in
    (
      sym (sym (all_after values cfg) ∙ apply_variables_ok values cfg d ed ∙ same),
      ground arith,
      subst IsValid same ((config_validate_iff d).0 v),
    )
