-- ===== src/Storage/Rows.antt =====
-- The lemmas on the statements of internal/storage/postgres that its components share: rows found,
-- changed and counted, statements that were accepted, and the one audit row of a mutation.
use urbino.Base.{
  ◌≡◌, refl, ◌∙◌, sym, inl, inr, Bool, true, false, List, [], ◌∷◌, ◌++◌, Option, none, some,
  if◌then◌else◌, Bool-cases, Option-cases,
}
use urbino.Base.Result.{Result, ok, >>=-ok, ok-injective}
use urbino.Domain.Uuid.{Uuid, new_uuid}
use urbino.Storage.Errors.{StoreError}
use urbino.Storage.Tx.Atomic.{IsTelling, with_tx_probe-ok}
use urbino.Storage.Tx.{Connection, Statements, with_tx_probe}
use urbino.Storage.Tenants.{exists_probe}
use urbino.Storage.Database.{
  Database, Session, exec, find_row, update_rows, refuse_if, insert_audit,
}
use urbino.Storage.Audit.{
  AuditEvent, audit_validate, event_id, audit_row, add_audit, insert_audit_event,
}

pub refuse_if-ok : (c : Bool) (e : StoreError) → refuse_if c e ≡ ok tt → c ≡ false
refuse_if-ok true e h = cc
refuse_if-ok false e h = refl

module _ {A : Type 0} where
  pub find_row-holds :
      (test : A → Bool) (rows : List A) (r : A) → find_row test rows ≡ some r → test r ≡ true
  unfolding find_row
  find_row-holds test [] r h = cc
  find_row-holds test (s ∷ rows) r h = elim (Bool-cases (test s)) [
    | inl e ↦ let h' : some s ≡ some r = rw (← h, e) refl in cc
    | inr e ↦ find_row-holds test rows r (rw (← h, e) refl)
  ]

  -- A change that makes a test fail leaves no row that passes it.
  pub find_row-update_none :
      (test : A → Bool) (change : A → A)
      → ((r : A) → test r ≡ true → test (change r) ≡ false)
      → (rows : List A) → find_row test (update_rows test change rows) ≡ none
  unfolding find_row update_rows
  find_row-update_none test change ends [] = refl
  find_row-update_none test change ends (r ∷ rows) =
      let rest = find_row-update_none test change ends rows in
      elim (Bool-cases (test r)) [
        | inl e ↦ rw (e, ends r e, rest) refl
        | inr e ↦ rw (e, e, rest) refl
      ]

  -- Where a row was found and changed, another test finds a row if the change makes it hold.
  pub find_row-update_some :
      (test other : A → Bool) (change : A → A)
      → ((r : A) → test r ≡ true → other (change r) ≡ true)
      → (rows : List A) (r : A) → find_row test rows ≡ some r
      → (s : A) × (find_row other (update_rows test change rows) ≡ some s)
  unfolding find_row update_rows
  find_row-update_some test other change makes [] r h = cc
  find_row-update_some test other change makes (q ∷ rows) r h = elim (Bool-cases (test q)) [
    | inl e ↦ (change q, rw (e, makes q e) refl)
    | inr e ↦
        let (s, f) = find_row-update_some test other change makes rows r (rw (← h, e) refl) in
        elim (Bool-cases (other q)) [ inl o ↦ (q, rw (e, o) refl) | inr o ↦ (s, rw (e, o) f) ]
  ]

  -- A test that the change does not see finds what it found.
  pub find_row-update_other :
      (test other : A → Bool) (change : A → A) (rows : List A)
      → ((r : A) → test r ≡ true → (other r ≡ false) × (other (change r) ≡ false))
      → find_row other (update_rows test change rows) ≡ find_row other rows
  unfolding find_row update_rows
  find_row-update_other test other change [] apart = refl
  find_row-update_other test other change (r ∷ rows) apart =
      let rest = find_row-update_other test other change rows apart in
      elim (Bool-cases (test r)) [
        | inl e ↦ rw (e, (apart r e).0, (apart r e).1, rest) refl
        | inr e ↦ rw (e, rest) refl
      ]

  pub find_row-append :
      (test : A → Bool) (rows : List A) (r : A)
      → test r ≡ true
      → (s : A) × (find_row test (rows ++ r ∷ []) ≡ some s)
  unfolding find_row
  find_row-append test [] r h = (r, rw h refl)
  find_row-append test (s ∷ rows) r h = elim (Bool-cases (test s)) [
    | inl e ↦ (s, rw e refl)
    | inr e ↦ let (t, f) = find_row-append test rows r h in (t, rw e f)
  ]

-- The row that was found, after a change that the test does not see.
pub find_row-update_same :
    {A : Type 0} (test : A → Bool) (change : A → A)
    → ((r : A) → test (change r) ≡ test r)
    → (rows : List A) (r : A) → find_row test rows ≡ some r
    → find_row test (update_rows test change rows) ≡ some (change r)
unfolding find_row update_rows
find_row-update_same test change blind [] r h = cc
find_row-update_same test change blind (q ∷ rows) r h = elim (Bool-cases (test q)) [
  | inl e ↦
      let h' : Path (Option _) (some q) (some r) = rw (← h, e) refl in
      let same : q ≡ r = cc in rw (e, blind q, e, same) refl
  | inr e ↦ rw (e, e) (find_row-update_same test change blind rows r (rw (← h, e) refl))
]

-- A mutation that is audited has added the row of its event, and no other.
pub insert_audit_event-ok :
    (session : Session) (event : AuditEvent) (db db' : Database)
    → insert_audit_event session event db ≡ ok db'
    → (id : Uuid) × (db' ≡ add_audit (audit_row id event) db)
unfolding insert_audit_event
insert_audit_event-ok session event db db' h =
    let (_, _, h1) = >>=-ok (audit_validate event) _ h in
    let (id, _, h2) = >>=-ok (event_id (new_uuid session.uuid_bytes session.millis)) _ h1 in
    let (_, _, h3) = >>=-ok (exec session insert_audit) _ h2 in (id, sym (ok-injective h3))

proved :
    {X : Type 0} (b : Bool) (x : X)
    → Path (Result StoreError (Option X)) (ok (if b then some x else none)) (ok none)
    → b ≡ false
proved true x h = cc
proved false x h = refl

denied :
    {X : Type 0} (b : Bool) (x y : X)
    → Path (Result StoreError (Option X)) (ok (if b then some x else none)) (ok (some y))
    → b ≡ true
denied true x y h = refl
denied false x y h = cc

-- A probe for a row that is there after the statements and not before them.
pub exists_probe-IsTelling :
    {X : Type 0} (run : Result StoreError (X × Database)) (test : X → Database → Bool)
    (before : Database)
    → ((x : X) (after : Database) → run ≡ ok (x, after) → test x after ≡ true)
    → ((x : X) (after : Database) → run ≡ ok (x, after) → test x before ≡ false)
    → IsTelling run (exists_probe test) before
exists_probe-IsTelling run test before there absent = record {
  confirms = λ x after h e. let a = there x after h in let b = proved (test x after) x e in cc;
  denies = λ x y after h e. let a = absent x after h in let b = denied (test x before) x y e in cc;
}

same_value :
    {X : Type 0} (b : Bool) (x y : X)
    → Path (Result StoreError (Option X)) (ok (if b then some x else none)) (ok (some y))
    → x ≡ y
same_value true x y h = cc
same_value false x y h = cc

-- A success whose probe looks for a row: its result is that of the statements.
pub exists_probe-ok :
    {X : Type 0} (c : Connection) (run : Statements X) (test : X → Database → Bool) (db : Database)
    (y : X) (db' : Database)
    → IsTelling (run c.session db) (exists_probe test) db
    → with_tx_probe c run (some (exists_probe test)) db ≡ (ok y, db')
    → run c.session db ≡ ok (y, db')
exists_probe-ok c run test db y db' telling h =
    let d = with_tx_probe-ok c run (exists_probe test) db y db' telling h in
    let e : d.value ≡ y = elim d.answer [
      | inl same ↦ same
      | inr found ↦ same_value (test d.value db') d.value y found
    ] in
    rw (← e) d.written

-- A table with a primary key: no row has the key of an earlier one.
abbrev pub IsUnique : {A : Type 0} → (A → A → Bool) → List A → Type 0
IsUnique same [] = Unit
IsUnique same (r ∷ rows) = (find_row (same r) rows ≡ none) × IsUnique same rows

-- The row of a key, found by any test that asks for the key too.
pub unique_row :
    {A : Type 0} (same : A → A → Bool) (key test : A → Bool)
    → ((r : A) → key r ≡ true → same r ≡ key)
    → ((r : A) → test r ≡ true → key r ≡ true)
    → (rows : List A) (r : A) → IsUnique same rows
    → find_row test rows ≡ some r
    → find_row key rows ≡ some r
unfolding find_row
unique_row same key test is_key asks [] r u f = cc
unique_row same key test is_key asks (q ∷ rows) r u f = elim (Bool-cases (test q)) [
  | inl e ↦ rw (asks q e) (rw (← f, e) refl)
  | inr e ↦
      let later = unique_row same key test is_key asks rows r u.1 (rw (← f, e) refl) in
      elim (Bool-cases (key q)) [
        | inl i ↦ let gone : find_row key rows ≡ none = rw (← is_key q i) u.0 in cc
        | inr i ↦ rw i later
      ]
]

module _ {A : Type 0} where
  -- What no row passes, a row that another test finds does not pass.
  pub find_row-none-false :
      (test other : A → Bool) (rows : List A) (r : A)
      → find_row test rows ≡ none
      → find_row other rows ≡ some r
      → test r ≡ false
  unfolding find_row
  find_row-none-false test other [] r h k = cc
  find_row-none-false test other (q ∷ rows) r h k = elim (Bool-cases (test q)) [
    | inl e ↦ let h' : Path (Option A) (some q) none = rw (← h, e) refl in cc
    | inr e ↦
        let h' : find_row test rows ≡ none = rw (← h, e) refl in
        elim (Bool-cases (other q)) [
          | inl o ↦
              let k' : Path (Option A) (some q) (some r) = rw (← k, o) refl in
              let same : q ≡ r = cc in rw (← same) e
          | inr o ↦ find_row-none-false test other rows r h' (rw (← k, o) refl)
        ]
  ]

  -- A change that a test does not see leaves it without a row.
  pub find_row-update_blind :
      (test other : A → Bool) (change : A → A)
      → ((r : A) → other (change r) ≡ other r)
      → (rows : List A) → find_row other rows ≡ none
      → find_row other (update_rows test change rows) ≡ none
  unfolding find_row update_rows
  find_row-update_blind test other change blind [] h = refl
  find_row-update_blind test other change blind (q ∷ rows) h = elim (Bool-cases (other q)) [
    | inl o ↦ let h' : Path (Option A) (some q) none = rw (← h, o) refl in cc
    | inr o ↦
        let rest = find_row-update_blind test other change blind rows (rw (← h, o) refl) in
        elim (Bool-cases (test q)) [ inl e ↦ rw (e, blind q, o) rest | inr e ↦ rw (e, o) rest ]
  ]

  -- An update that does not change the keys keeps them apart.
  pub update_rows-IsUnique :
      (same : A → A → Bool) (test : A → Bool) (change : A → A)
      → ((r : A) → same (change r) ≡ same r)
      → ((r s : A) → same r (change s) ≡ same r s)
      → (rows : List A) → IsUnique same rows
      → IsUnique same (update_rows test change rows)
  unfolding update_rows
  update_rows-IsUnique same test change left right [] u = tt
  update_rows-IsUnique same test change left right (q ∷ rows) u =
      let rest = update_rows-IsUnique same test change left right rows u.1 in
      let gone = find_row-update_blind test (same q) change (right q) rows u.0 in
      elim (Bool-cases (test q)) [ inl e ↦ rw (e, left q) (gone, rest) | inr e ↦ rw e (gone, rest) ]

  pub update_rows-none :
      (test : A → Bool) (change : A → A) (rows : List A)
      → find_row test rows ≡ none
      → update_rows test change rows ≡ rows
  unfolding find_row update_rows
  update_rows-none test change [] h = refl
  update_rows-none test change (q ∷ rows) h = elim (Bool-cases (test q)) [
    | inl e ↦ let h' : Path (Option A) (some q) none = rw (← h, e) refl in cc
    | inr e ↦ rw (e, update_rows-none test change rows (rw (← h, e) refl)) refl
  ]

  pub find_row-append_last :
      (test : A → Bool) (rows : List A) (r : A)
      → find_row test rows ≡ none
      → test r ≡ true
      → find_row test (rows ++ r ∷ []) ≡ some r
  unfolding find_row
  find_row-append_last test [] r h k = rw k refl
  find_row-append_last test (q ∷ rows) r h k = elim (Bool-cases (test q)) [
    | inl e ↦ let h' : Path (Option A) (some q) none = rw (← h, e) refl in cc
    | inr e ↦ rw e (find_row-append_last test rows r (rw (← h, e) refl) k)
  ]

  -- A test that asks for more finds nothing where another found nothing.
  pub find_row-narrower :
      (test other : A → Bool)
      → ((r : A) → other r ≡ true → test r ≡ true)
      → (rows : List A) → find_row test rows ≡ none
      → find_row other rows ≡ none
  find_row-narrower test other asks rows h = elim (Option-cases (find_row other rows)) [
    | inl e ↦ e
    | inr (s, e) ↦
        let no = find_row-none-false test other rows s h e in
        let yes = asks s (find_row-holds other rows s e) in
        let both : true ≡ false = sym yes ∙ no in cc
  ]
