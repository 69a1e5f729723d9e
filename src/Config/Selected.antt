-- ===== src/Config/Selected.antt =====
-- Which file `ResolvePath` of internal/config/path.go selects.
use urbino.Base.{◌∙◌, inl, inr, sym, Bool-cases, ap, ◌≡◌, refl, true, false}
use urbino.Base.Text.{Text, is_empty}
use urbino.Base.Space.{trim_space}
use urbino.Base.Result.{ok-injective, ok}
use urbino.Config.{
  FileInfo, not_exist, stat_error, irregular, regular, PathInput, ConfigPath, from_flag, from_env,
  from_default, selected, select_file, resolve_path,
}

module _ (join : Text → Text → Text) (stat : Text → FileInfo) where
  -- The file that the inputs name, which is there.
  pub record IsSelected (i : PathInput) (p : ConfigPath) : Type 0 where
    pub there : stat p.file ≡ regular
    pub flag :
        is_empty (trim_space i.explicit) ≡ false
        → (p.source ≡ from_flag) × (p.file ≡ trim_space i.explicit)
    pub env :
        is_empty (trim_space i.explicit) ≡ true
        → is_empty (trim_space i.env) ≡ false
        → (p.source ≡ from_env) × (p.file ≡ trim_space i.env)
    pub by_default :
        is_empty (trim_space i.explicit) ≡ true
        → is_empty (trim_space i.env) ≡ true
        → p.source ≡ from_default

  selected_ok :
      (p q : ConfigPath) (info : FileInfo) → selected p info ≡ ok q → (p ≡ q) × (info ≡ regular)
  selected_ok p q not_exist h = cc
  selected_ok p q stat_error h = cc
  selected_ok p q irregular h = cc
  selected_ok p q regular h = (ok-injective h, refl)

  select_file_ok :
      (p q : ConfigPath) → select_file join stat p ≡ ok q → (p ≡ q) × (stat q.file ≡ regular)
  unfolding select_file
  select_file_ok p q h =
      let (e, there) = selected_ok p q (stat p.file) h in
      (e, ap (λ (r : ConfigPath). stat r.file) (sym e) ∙ there)

  -- A path that is returned names a regular file. It is the flag's if the flag is not blank, else the
  -- variable's if the variable is not blank, else the default: a source that is missing or is no
  -- regular file never falls through to the next one.
  pub resolve_path_precedence :
      (i : PathInput) (p : ConfigPath) → resolve_path join stat i ≡ ok p → IsSelected i p
  unfolding resolve_path
  resolve_path_precedence i p h = elim (Bool-cases (is_empty (trim_space i.explicit))) [
    | inr e ↦
        let (same, there) = select_file_ok _ p (rw e at h) in
        record {
          there = there;
          flag = λ _. (
            sym (ap (λ (r : ConfigPath). r.source) same),
            sym (ap (λ (r : ConfigPath). r.file) same),
          );
          env = λ f. cc;
          by_default = λ f. cc;
        }
    | inl e ↦ elim (Bool-cases (is_empty (trim_space i.env))) [
      | inr f ↦
          let (same, there) = select_file_ok _ p (rw (e, f) at h) in
          record {
            there = there;
            flag = λ g. cc;
            env = λ _ _. (
              sym (ap (λ (r : ConfigPath). r.source) same),
              sym (ap (λ (r : ConfigPath). r.file) same),
            );
            by_default = λ _ g. cc;
          }
      | inl f ↦
          let (same, there) = select_file_ok _ p (rw (e, f) at h) in
          record {
            there = there;
            flag = λ g. cc;
            env = λ _ g. cc;
            by_default = λ _ _. sym (ap (λ (r : ConfigPath). r.source) same);
          }
    ]
  ]
