-- ===== src/Auth/Credential.antt =====
-- `splitCredential` of internal/auth/service.go and its callers of internal/auth/auth.go: a credential
-- is a prefix, a public identifier, a point and a secret.
use mathlib.Core.Path.{subst, ap₂}
use urbino.Base.{
  ◌≡◌, refl, sym, ap, ◌∙◌, ◌↔◌, true, false, ◌||◌, not, List, [], ◌∷◌, ◌++◌, arith, if◌then◌else◌,
  length, drop,
}
use urbino.Base.Text.{
  Text, codes, is_empty, has_prefix, trim_prefix, contains_byte, split_byte, split_byte_one,
  split_byte_next, Pieces, split_byte-Pieces, has_prefix-append, drop-append, append-drop,
}
use urbino.Base.Result.{Result, ok, err}
use urbino.Auth.Errors.{AuthError, invalid_credential}

abbrev pub public_prefix : Text
public_prefix = codes "gw_live_"

abbrev pub admin_prefix : Text
admin_prefix = codes "gw_admin_"

abbrev split_parts : List Text → Result AuthError (Text × Text)
split_parts (a ∷ b ∷ []) = if is_empty a || is_empty b then err invalid_credential else ok (a, b)
split_parts _ = err invalid_credential

unfoldable pub split_credential : (value prefix : Text) → Result AuthError (Text × Text)
split_credential value prefix =
    if not (has_prefix value prefix)
    then err invalid_credential
    else split_parts (split_byte b'.' (trim_prefix value prefix))

unfoldable pub parse_public_credential : Text → Result AuthError (Text × Text)
unfolding split_credential
parse_public_credential value = split_credential value public_prefix

unfoldable pub parse_admin_credential : Text → Result AuthError (Text × Text)
unfolding split_credential
parse_admin_credential value = split_credential value admin_prefix

-- A part of a credential: not empty, and without a point.
abbrev pub IsPart : Text → Type 0
IsPart a = (is_empty a ≡ false) × (contains_byte b'.' a ≡ false)

split_parts_sound :
    (t : Text) (ps : List Text) (a b : Text)
    → Pieces b'.' t ps
    → split_parts ps ≡ ok (a, b)
    → (t ≡ a ++ b'.' ∷ b) × IsPart a × IsPart b
split_parts_sound _ _ a b (Pieces.last x n) h = cc
split_parts_sound _ _ a b (Pieces.next x _ _ n (Pieces.last y m)) h =
    let ea : x ≡ a = ground arith in
    let eb : y ≡ b = ground arith in
    (
      ap₂ (λ (u v : Text). u ++ b'.' ∷ v) ea eb,
      subst IsPart ea (ground arith, n),
      subst IsPart eb (ground arith, m),
    )
split_parts_sound _ _ a b (Pieces.next x _ _ n (Pieces.next y _ _ m (Pieces.last z o))) h = cc
split_parts_sound _ _ a b (Pieces.next x _ _ n (Pieces.next y _ _ m (Pieces.next z _ _ o r))) h = cc

split_sound :
    (value prefix a b : Text)
    → split_credential value prefix ≡ ok (a, b)
    → (value ≡ prefix ++ (a ++ b'.' ∷ b)) × IsPart a × IsPart b
unfolding split_credential trim_prefix
split_sound value prefix a b h =
    let starts : has_prefix value prefix ≡ true = ground arith in
    let rest = drop (length prefix) value in
    let parts : split_parts (split_byte b'.' rest) ≡ ok (a, b) = ground arith in
    let (e, pa, pb) =
      split_parts_sound rest (split_byte b'.' rest) a b (split_byte-Pieces b'.' rest) parts in
    (sym (append-drop value prefix starts) ∙ ap (λ (s : Text). prefix ++ s) e, pa, pb)

-- A credential made of two parts behind a prefix.
pub split_credential_join :
    (prefix a b : Text)
    → IsPart a
    → IsPart b
    → split_credential (prefix ++ (a ++ b'.' ∷ b)) prefix ≡ ok (a, b)
unfolding split_credential trim_prefix
split_credential_join prefix a b pa pb =
    rw
      (
        has_prefix-append prefix (a ++ b'.' ∷ b),
        drop-append prefix (a ++ b'.' ∷ b),
        split_byte_next b'.' a b pa.1,
        split_byte_one b'.' b pb.1,
        pa.0,
        pb.0,
      )
      refl

-- A text is split into an identifier and a secret exactly when it is the prefix followed by the two,
-- joined by a point, where both are not empty and hold no point. So a split is never ambiguous.
pub split_credential_iff :
    (value prefix a b : Text)
    → (split_credential value prefix ≡ ok (a, b))
      ↔ ((value ≡ prefix ++ (a ++ b'.' ∷ b)) × IsPart a × IsPart b)
split_credential_iff value prefix a b =
    (split_sound value prefix a b, λ (e, pa, pb). rw e (split_credential_join prefix a b pa pb))

-- No text is both a gateway credential and an administrator credential.
pub credential_kinds_apart :
    (value : Text) (p q : Text × Text)
    → parse_public_credential value ≡ ok p
    → ¬ (parse_admin_credential value ≡ ok q)
unfolding parse_public_credential parse_admin_credential
credential_kinds_apart value p q h k =
    let (e, _, _) = split_sound value public_prefix p.0 p.1 h in
    let (e', _, _) = split_sound value admin_prefix q.0 q.1 k in ground arith
