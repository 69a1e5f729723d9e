-- ===== src/Config/Checked.antt =====
-- What `Config.Validate` of internal/config/config.go accepts.
use mathlib.Core.Path.{subst}
use urbino.Base.{◌≡◌, refl, sym, ◌↔◌, ◌⊎◌, inl, inr, true, false, [], ◌∷◌, arith}
use urbino.Base.Text.{Text, codes, text_eq, text_eq_iff}
use urbino.Base.Space.{trim_space}
use urbino.Base.Result.{ok, >>-ok}
use urbino.Config.{
  Config, is_trimmed, is_environment, is_log_level, optional_trimmed, validate_environment,
  validate_log_level, validate_health, validate,
}

-- A text without white space at its ends.
abbrev pub IsTrimmed : Text → Type 0
IsTrimmed s = trim_space s ≡ s

pub record IsValid (cfg : Config) : Type 0 where
  pub addresses : IsTrimmed cfg.health_addr × IsTrimmed cfg.public_addr × IsTrimmed cfg.admin_addr
  pub files : IsTrimmed cfg.auth_pepper_file × IsTrimmed cfg.database.dsn_file
  pub environment : (cfg.environment ≡ []) ⊎ (is_environment cfg.environment ≡ true)
  pub log_level : (cfg.log_level ≡ []) ⊎ (is_log_level cfg.log_level ≡ true)
  pub production : cfg.environment ≡ codes "production" → cfg.development ≡ false

trim_nil : trim_space [] ≡ []
unfolding trim_space
trim_nil = refl

optional_trimmed_iff : (s : Text) → (optional_trimmed s ≡ ok tt) ↔ IsTrimmed s
unfolding optional_trimmed
optional_trimmed_iff [] = (λ h. trim_nil, λ h. refl)
optional_trimmed_iff (c ∷ s) = (
  λ h. ground (arith, text_eq_iff (trim_space (c ∷ s)) (c ∷ s)),
  λ h. ground (arith, text_eq_iff (trim_space (c ∷ s)) (c ∷ s)),
)

validate_health_iff : (s : Text) → (validate_health s ≡ ok tt) ↔ IsTrimmed s
unfolding validate_health
validate_health_iff [] = (λ h. trim_nil, λ h. refl)
validate_health_iff (c ∷ s) = (
  λ h. ground (arith, text_eq_iff (trim_space (c ∷ s)) (c ∷ s)),
  λ h. ground (arith, h, text_eq_iff (trim_space (c ∷ s)) (c ∷ s)),
)

environment_cases :
    (s : Text)
    → is_environment s ≡ true
    → (s ≡ codes "development") ⊎ (s ≡ codes "test") ⊎ (s ≡ codes "production")
environment_cases s h = ground (
  arith,
  text_eq_iff s (codes "development"),
  text_eq_iff s (codes "test"),
  text_eq_iff s (codes "production"),
)

environment_trimmed : (s : Text) → is_environment s ≡ true → is_trimmed s ≡ true
unfolding trim_space text_eq
environment_trimmed s h = elim (environment_cases s h) [
  | inl e ↦ subst (λ (s : Text). is_trimmed s ≡ true) (sym e) refl
  | inr (inl e) ↦ subst (λ (s : Text). is_trimmed s ≡ true) (sym e) refl
  | inr (inr e) ↦ subst (λ (s : Text). is_trimmed s ≡ true) (sym e) refl
]

validate_environment_iff :
    (s : Text) → (validate_environment s ≡ ok tt) ↔ ((s ≡ []) ⊎ (is_environment s ≡ true))
unfolding validate_environment
validate_environment_iff [] = (λ h. inl refl, λ h. refl)
validate_environment_iff (c ∷ s) = (
  λ h. inr (ground arith),
  λ h. elim h [ inl e ↦ cc | inr e ↦ rw (environment_trimmed (c ∷ s) e, e) refl ],
)

log_level_cases :
    (s : Text)
    → is_log_level s ≡ true
    → (s ≡ codes "debug") ⊎ (s ≡ codes "info") ⊎ (s ≡ codes "warn") ⊎ (s ≡ codes "error")
log_level_cases s h = ground (
  arith,
  text_eq_iff s (codes "debug"),
  text_eq_iff s (codes "info"),
  text_eq_iff s (codes "warn"),
  text_eq_iff s (codes "error"),
)

log_level_trimmed : (s : Text) → is_log_level s ≡ true → is_trimmed s ≡ true
unfolding trim_space text_eq
log_level_trimmed s h = elim (log_level_cases s h) [
  | inl e ↦ subst (λ (s : Text). is_trimmed s ≡ true) (sym e) refl
  | inr (inl e) ↦ subst (λ (s : Text). is_trimmed s ≡ true) (sym e) refl
  | inr (inr (inl e)) ↦ subst (λ (s : Text). is_trimmed s ≡ true) (sym e) refl
  | inr (inr (inr e)) ↦ subst (λ (s : Text). is_trimmed s ≡ true) (sym e) refl
]

validate_log_level_iff :
    (s : Text) → (validate_log_level s ≡ ok tt) ↔ ((s ≡ []) ⊎ (is_log_level s ≡ true))
unfolding validate_log_level
validate_log_level_iff [] = (λ h. inl refl, λ h. refl)
validate_log_level_iff (c ∷ s) = (
  λ h. inr (ground arith),
  λ h. elim h [ inl e ↦ cc | inr e ↦ rw (log_level_trimmed (c ∷ s) e, e) refl ],
)

-- A configuration is accepted exactly when its addresses and file names have no white space at their
-- ends, its environment and its log level are empty or of the known ones, and it does not combine
-- production with development mode.
pub config_validate_iff : (cfg : Config) → (validate cfg ≡ ok tt) ↔ IsValid cfg
unfolding validate
config_validate_iff cfg = (
  λ h.
      (let (a, ha) = >>-ok (validate_health cfg.health_addr) _ h in
        let (b, hb) = >>-ok (optional_trimmed cfg.public_addr) _ ha in
        let (c, hc) = >>-ok (optional_trimmed cfg.admin_addr) _ hb in
        let (d, hd) = >>-ok (optional_trimmed cfg.auth_pepper_file) _ hc in
        let (e, he) = >>-ok (validate_environment cfg.environment) _ hd in
        let (f, hf) = >>-ok (validate_log_level cfg.log_level) _ he in
        let (g, hg) = >>-ok (optional_trimmed cfg.database.dsn_file) _ hf in
        record {
          addresses = (
            (validate_health_iff cfg.health_addr).0 a,
            (optional_trimmed_iff cfg.public_addr).0 b,
            (optional_trimmed_iff cfg.admin_addr).0 c,
          );
          files = (
            (optional_trimmed_iff cfg.auth_pepper_file).0 d,
            (optional_trimmed_iff cfg.database.dsn_file).0 g,
          );
          environment = (validate_environment_iff cfg.environment).0 e;
          log_level = (validate_log_level_iff cfg.log_level).0 f;
          production = λ p. ground (arith, hg, p, text_eq_iff cfg.environment (codes "production"));
        }),
  λ v.
      rw
        (
          (validate_health_iff cfg.health_addr).1 v.addresses.0,
          (optional_trimmed_iff cfg.public_addr).1 v.addresses.1,
          (optional_trimmed_iff cfg.admin_addr).1 v.addresses.2,
          (optional_trimmed_iff cfg.auth_pepper_file).1 v.files.0,
          (validate_environment_iff cfg.environment).1 v.environment,
          (validate_log_level_iff cfg.log_level).1 v.log_level,
          (optional_trimmed_iff cfg.database.dsn_file).1 v.files.1,
        )
        (ground (arith, v.production, text_eq_iff cfg.environment (codes "production"))),
)
