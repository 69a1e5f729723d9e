-- ===== src/Storage/AdminTokens/Left.antt =====
-- internal/storage/postgres/identity.go: `RevokeAdminTokenFor` leaves an administrator able to log in.
use mathlib.Core.Path.{subst}
use mathlib.Core.Option.{some-injective}
use urbino.Storage.Found.{count_rows-IsSelected, find_row-IsSelected}
use urbino.Base.{
  ◌<◌, ◌-◌, ◌%◌, ◌≡◌, refl, ap, ◌∙◌, sym, inl, inr, Bool, true, false, ◌&&◌, List, [], ◌∷◌, Option,
  none, some, ◌+◌, ◌≤◌, arith, Bool-cases, Option-cases, if◌then◌else◌,
}
use urbino.Base.Text.{codes, IsIn, is_here, is_there_in, Text, text_eq, eq_of_text_eq}
use urbino.Base.Result.{ok}
use urbino.Domain.Uuid.{Uuid}
use urbino.Auth.Time.{Time}
use urbino.Auth.Keys.{AdminTokenRecord, is_some, status_active}
use urbino.Storage.Database.{
  to_micros, PrincipalRow, Database, Session, find_row, update_rows, count_rows,
}
use urbino.Storage.Tx.{Connection, with_tx_probe}
use urbino.Storage.Tx.Atomic.{IsTelling, checked_run-ok}
use urbino.Storage.Rows.{
  IsUnique, unique_row, exists_probe-IsTelling, exists_probe-ok, find_row-holds,
  find_row-update_some, find_row-none-false, update_rows-none,
}
use urbino.Storage.Tenants.{is_there, exists_probe}
use urbino.Storage.AdminTokens.{
  active_principal, usable_token, available_tokens, unrevoked, revoked_token, revoke_token_row,
  check_token_scope, revoke_admin_token_for,
}
use urbino.Storage.AdminTokens.Changes.{IsRevokedToken, revoke_token_row-ok}

-- The unique `public_id` of `admin_tokens`.
abbrev has_token_id : Text → AdminTokenRecord → Bool
has_token_id public_id t = text_eq t.public_id public_id

abbrev pub same_token : AdminTokenRecord → AdminTokenRecord → Bool
same_token r = has_token_id r.public_id

abbrev pub UniqueTokens : Database → Type 0
UniqueTokens db = IsUnique same_token db.admin_tokens

has_token_id-same :
    (public_id : Text) (r : AdminTokenRecord)
    → has_token_id public_id r ≡ true
    → same_token r ≡ has_token_id public_id
has_token_id-same public_id r h = ap has_token_id (eq_of_text_eq r.public_id public_id h)

-- The test of the probe.
abbrev revoked_of : Uuid → Text → AdminTokenRecord → Bool
revoked_of principal public_id t =
    text_eq t.principal_id principal && text_eq t.public_id public_id && is_some t.revoked_at

unrevoked-has_token_id :
    (principal : Uuid) (public_id : Text) (t : AdminTokenRecord)
    → unrevoked principal public_id t ≡ true
    → has_token_id public_id t ≡ true
unrevoked-has_token_id principal public_id t h = ground arith

revoked_of-has_token_id :
    (principal : Uuid) (public_id : Text) (t : AdminTokenRecord)
    → revoked_of principal public_id t ≡ true
    → has_token_id public_id t ≡ true
revoked_of-has_token_id principal public_id t h = ground arith

marked :
    (principal : Uuid) (public_id : Text) (now : Time) (t : AdminTokenRecord)
    → unrevoked principal public_id t ≡ true
    → revoked_of principal public_id (revoked_token now t) ≡ true
marked principal public_id now t h = ground arith

not_both :
    (principal : Uuid) (public_id : Text) (t : AdminTokenRecord)
    → unrevoked principal public_id t ≡ true
    → revoked_of principal public_id t ≡ false
not_both principal public_id t h = ground arith

-- A change of rows of one key takes at most one row from a count.
count_rows-update :
    {A : Type 0} (same : A → A → Bool) (count test : A → Bool) (change : A → A)
    → ((r s : A) → test r ≡ true → test s ≡ true → same r s ≡ true)
    → (rows : List A) → IsUnique same rows
    → count_rows count rows ≤ 1 + count_rows count (update_rows test change rows)
unfolding count_rows update_rows
count_rows-update same count test change one_key [] u = omega arith
count_rows-update {A = A} same count test change one_key (q ∷ rows) u = elim (Bool-cases (test q)) [
  | inl e ↦ rw (e, kept rows (alone e rows u.0)) (counted (count q) (count (change q)))
  | inr e ↦
      let rest = count_rows-update same count test change one_key rows u.1 in rw e (ground arith)
]
  where
    counted :
        (a b : Bool)
        → (if a then 1 + count_rows count rows else count_rows count rows)
          ≤ 1 + (if b then 1 + count_rows count rows else count_rows count rows)
    counted a b = ground arith

    alone :
        test q ≡ true → (rest : List A) → find_row (same q) rest ≡ none → find_row test rest ≡ none
    alone e rest h = elim (Option-cases (find_row test rest)) [
      | inl f ↦ f
      | inr (s, f) ↦
          let no = find_row-none-false (same q) test rest s h f in
          let yes = one_key q s e (find_row-holds test rest s f) in
          let both : true ≡ false = sym yes ∙ no in cc
    ]

    kept : (rest : List A) → find_row test rest ≡ none → update_rows test change rest ≡ rest
    kept rest h = update_rows-none test change rest h

one_key :
    (principal : Uuid) (public_id : Text) (r s : AdminTokenRecord)
    → unrevoked principal public_id r ≡ true
    → unrevoked principal public_id s ≡ true
    → same_token r s ≡ true
one_key principal public_id r s h k =
    let a = has_token_id-same public_id r (unrevoked-has_token_id principal public_id r h) in
    ap (λ (f : AdminTokenRecord → Bool). f s) a ∙ unrevoked-has_token_id principal public_id s k

-- A token that an administrator can still use.
pub record IsLeft (now : Time) (db : Database) : Type 0 where
  pub token : AdminTokenRecord
  pub stands : IsIn token db.admin_tokens
  pub unrevoked_still : token.revoked_at ≡ none
  pub unexpired : now < token.expires_at
  pub owner : PrincipalRow
  pub owner_stands : IsIn owner db.principals
  pub owner_active : (owner.id ≡ token.principal_id) × (owner.status ≡ codes "active")

-- The token that was revoked, and its row.
pub record IsMarked (principal : Uuid) (public_id : Text) (now : Time) (db : Database)
    (r : AdminTokenRecord) : Type 0 where
  pub named : (r.principal_id ≡ principal) × (r.public_id ≡ public_id)
  pub revoked_then : r.revoked_at ≡ some (now - now % 1000)
  pub kept_row : IsIn r db.admin_tokens

usable-IsLeft : (now : Time) (db : Database) → 1 ≤ available_tokens now db → IsLeft now db
unfolding available_tokens
usable-IsLeft now db h =
    let t = count_rows-IsSelected (usable_token db now) db.admin_tokens h in
    let p = t.passes in
    let owned : is_there (find_row (active_principal t.row.principal_id) db.principals) ≡ true =
      ground (arith, p) in
    let o = find_row-IsSelected (active_principal t.row.principal_id) db.principals owned in
    let q = o.passes in
    record {
      token = t.row;
      stands = t.stands;
      unrevoked_still = ground (arith, p);
      unexpired = ground (arith, p);
      owner = o.row;
      owner_stands = o.stands;
      owner_active = (
        eq_of_text_eq o.row.id t.row.principal_id (ground (arith, q)),
        eq_of_text_eq o.row.status status_active (ground (arith, q)),
      );
    }

-- The row that an UPDATE finds first stands in the table in its new form.
update_rows-IsIn :
    {A : Type 0} (test : A → Bool) (change : A → A) (rows : List A) (r : A)
    → find_row test rows ≡ some r
    → IsIn (change r) (update_rows test change rows)
unfolding find_row update_rows
update_rows-IsIn test change [] r h = cc
update_rows-IsIn test change (q ∷ rows) r h = elim (Bool-cases (test q)) [
  | inl hit ↦
      let same : q ≡ r = some-injective q r (rw hit at h) in
      rw hit
        (subst (λ z. IsIn (change z) (change q ∷ update_rows test change rows)) same (is_here _))
  | inr miss ↦ rw miss (is_there_in q _ (update_rows-IsIn test change rows r (rw miss at h)))
]

module _ (actor principal : Uuid) (public_id : Text) (now : Time) where
  revoke_probe-IsTelling :
      (session : Session) (db : Database)
      → UniqueTokens db
      → IsTelling
          (revoke_token_row actor principal public_id now session db)
          (exists_probe
            λ x found. is_there (find_row (revoked_of principal public_id) found.admin_tokens))
          db
  revoke_probe-IsTelling session db u =
      exists_probe-IsTelling _
        (λ x found. is_there (find_row (revoked_of principal public_id) found.admin_tokens)) db
        there absent
    where
      there :
          (x : AdminTokenRecord) (after : Database)
          → revoke_token_row actor principal public_id now session db ≡ ok (x, after)
          → is_there (find_row (revoked_of principal public_id) after.admin_tokens) ≡ true
      there x after h =
          let w = revoke_token_row-ok actor principal public_id now session db x after h in
          let (s, f) =
            find_row-update_some (unrevoked principal public_id) (revoked_of principal public_id)
              (revoked_token now) (marked principal public_id now) db.admin_tokens w.row w.found in
          rw (ap (λ (d : Database). d.admin_tokens) w.written, f) refl

      absent :
          (x : AdminTokenRecord) (after : Database)
          → revoke_token_row actor principal public_id now session db ≡ ok (x, after)
          → is_there (find_row (revoked_of principal public_id) db.admin_tokens) ≡ false
      absent x after h =
          let w = revoke_token_row-ok actor principal public_id now session db x after h in
          let r =
            unique_row same_token (has_token_id public_id) (unrevoked principal public_id)
              (has_token_id-same public_id) (unrevoked-has_token_id principal public_id)
              db.admin_tokens w.row u w.found in
          elim (Option-cases (find_row (revoked_of principal public_id) db.admin_tokens)) [
            | inl e ↦ rw e refl
            | inr (s, e) ↦
                let r' =
                  unique_row same_token (has_token_id public_id) (revoked_of principal public_id)
                    (has_token_id-same public_id) (revoked_of-has_token_id principal public_id)
                    db.admin_tokens s u e in
                let same : Path (Option AdminTokenRecord) (some w.row) (some s) = sym r ∙ r' in
                let one : w.row ≡ s = cc in
                let no =
                  not_both principal public_id w.row (
                    find_row-holds (unrevoked principal public_id) db.admin_tokens w.row w.found) in
                let yes : revoked_of principal public_id w.row ≡ true =
                  rw one (find_row-holds (revoked_of principal public_id) db.admin_tokens s e) in
                let both : true ≡ false = sym yes ∙ no in cc
          ]

  row-IsMarked :
      (db db' : Database) (r : AdminTokenRecord)
      → IsRevokedToken actor principal public_id now db db' r
      → IsMarked principal public_id now db' r
  unfolding to_micros
  row-IsMarked db db' r w =
      let holds = find_row-holds (unrevoked principal public_id) db.admin_tokens w.row w.found in
      let owner : text_eq w.row.principal_id principal ≡ true = ground (arith, holds) in
      let name : text_eq w.row.public_id public_id ≡ true = ground (arith, holds) in
      record {
        named = (
          ap (λ (t : AdminTokenRecord). t.principal_id) w.shown
              ∙ eq_of_text_eq w.row.principal_id principal owner,
          ap (λ (t : AdminTokenRecord). t.public_id) w.shown
              ∙ eq_of_text_eq w.row.public_id public_id name,
        );
        revoked_then = ap (λ (t : AdminTokenRecord). t.revoked_at) w.shown;
        kept_row =
            rw (w.shown, w.written)
              (update_rows-IsIn (unrevoked principal public_id) (revoked_token now) db.admin_tokens
                w.row w.found);
      }

  left_one :
      (db db' : Database) (r : AdminTokenRecord)
      → UniqueTokens db
      → IsRevokedToken actor principal public_id now db db' r
      → 1 ≤ available_tokens now db'
  unfolding available_tokens
  left_one db db' r u w =
      let one_less =
        count_rows-update same_token (usable_token db now) (unrevoked principal public_id)
          (revoked_token now) (one_key principal public_id) db.admin_tokens u in
      let two : 2 ≤ count_rows (usable_token db now) db.admin_tokens =
        let e = w.enough in ground arith in
      rw w.written (omega (arith, one_less, two))

  -- After a successful revocation of an administrator's token, with its commit and its probe, some row of
  -- the tokens has no revocation and an expiry after `now`, and its owner is a row of the principals with
  -- the status active; the token that is returned is the one of the given principal and public
  -- identifier, and its row has the time of the revocation, in whole microseconds. The condition is that
  -- no two rows share a public identifier.
  pub store_revocation_leaves_token :
      (c : Connection) (db db' : Database) (r : AdminTokenRecord)
      → UniqueTokens db
      → revoke_admin_token_for c actor principal public_id now db ≡ (ok r, db')
      → IsLeft now db' × IsMarked principal public_id now db' r
  unfolding revoke_admin_token_for
  store_revocation_leaves_token c db db' r u h =
      let w = revoke_token_row-ok actor principal public_id now c.session db r db' (
        exists_probe-ok c (revoke_token_row actor principal public_id now)
          (λ x found. is_there (find_row (revoked_of principal public_id) found.admin_tokens)) db r
          db' (revoke_probe-IsTelling c.session db u)
          (checked_run-ok db (check_token_scope principal public_id)
            (with_tx_probe c (revoke_token_row actor principal public_id now)
              (some (
                exists_probe λ x found.
                  is_there (find_row (revoked_of principal public_id) found.admin_tokens)))
              db)
            r db' h)) in
      (usable-IsLeft now db' (left_one db db' r u w), row-IsMarked db db' r w)
