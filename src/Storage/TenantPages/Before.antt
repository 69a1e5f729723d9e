-- ===== src/Storage/TenantPages/Before.antt =====
-- internal/storage/postgres/identity.go: the order of creation of the tenants, and the rows after a cursor.
use urbino.Base.{◌≡◌, refl, inl, inr, true, false, not, [], ◌∷◌, some, Bool-cases, arith}
use urbino.Base.Text.{Text, text_eq}
use urbino.Storage.Database.{TenantRow}
use urbino.Storage.KeyReads.{text_le}
use urbino.Storage.TenantPages.{tenant_before, is_after}

text_le_refl : (s : Text) → text_le s s ≡ true
unfolding text_le
text_le_refl [] = refl
text_le_refl (c ∷ s) = ground (arith, text_le_refl s)

text_le_total : (s t : Text) → text_le s t ≡ false → text_le t s ≡ true
unfolding text_le
text_le_total [] t h = cc
text_le_total (c ∷ s) [] h = refl
text_le_total (c ∷ s) (d ∷ t) h = elim (Bool-cases (text_le s t)) [
  | inl le ↦ ground (arith, h, le)
  | inr gt ↦ ground (arith, h, text_le_total s t gt)
]

text_le_trans : (s t u : Text) → text_le s t ≡ true → text_le t u ≡ true → text_le s u ≡ true
unfolding text_le
text_le_trans [] t u h k = refl
text_le_trans (c ∷ s) [] u h k = cc
text_le_trans (c ∷ s) (d ∷ t) [] h k = cc
text_le_trans (c ∷ s) (d ∷ t) (e ∷ u) h k = elim (Bool-cases (text_le s t)) [
  | inr gt ↦ ground (arith, h, k, gt)
  | inl le ↦ elim (Bool-cases (text_le t u)) [
    | inr gt ↦ ground (arith, h, k, gt)
    | inl le' ↦ ground (arith, h, k, text_le_trans s t u le le')
  ]
]

text_le_antisym : (s t : Text) → text_le s t ≡ true → text_le t s ≡ true → text_eq s t ≡ true
unfolding text_le text_eq
text_le_antisym [] [] h k = refl
text_le_antisym [] (d ∷ t) h k = cc
text_le_antisym (c ∷ s) [] h k = cc
text_le_antisym (c ∷ s) (d ∷ t) h k = elim (Bool-cases (text_le s t)) [
  | inr gt ↦ ground (arith, h, k, gt)
  | inl le ↦ elim (Bool-cases (text_le t s)) [
    | inr gt ↦ ground (arith, h, k, gt)
    | inl le' ↦ ground (arith, h, k, text_le_antisym s t le le')
  ]
]

pub tenant_before_refl : (a : TenantRow) → tenant_before a a ≡ true
tenant_before_refl a = ground (arith, text_le_refl a.tenant.id)

pub tenant_before_total : (a b : TenantRow) → tenant_before a b ≡ false → tenant_before b a ≡ true
tenant_before_total a b h = elim (Bool-cases (text_le a.tenant.id b.tenant.id)) [
  | inl le ↦ ground (arith, h, le)
  | inr gt ↦ ground (arith, h, text_le_total a.tenant.id b.tenant.id gt)
]

pub tenant_before_trans :
    (a b c : TenantRow)
    → tenant_before a b ≡ true
    → tenant_before b c ≡ true
    → tenant_before a c ≡ true
tenant_before_trans a b c h k = elim (Bool-cases (text_le a.tenant.id b.tenant.id)) [
  | inr gt ↦ ground (arith, h, k, gt)
  | inl le ↦ elim (Bool-cases (text_le b.tenant.id c.tenant.id)) [
    | inr gt ↦ ground (arith, h, k, gt)
    | inl le' ↦ ground (arith, h, k, text_le_trans a.tenant.id b.tenant.id c.tenant.id le le')
  ]
]

-- Two rows that are each before the other have one identifier.
pub tenant_before_antisym :
    (a b : TenantRow)
    → tenant_before a b ≡ true
    → tenant_before b a ≡ true
    → text_eq a.tenant.id b.tenant.id ≡ true
tenant_before_antisym a b h k = elim (Bool-cases (text_le a.tenant.id b.tenant.id)) [
  | inr gt ↦ ground (arith, h, k, gt)
  | inl le ↦ elim (Bool-cases (text_le b.tenant.id a.tenant.id)) [
    | inr gt ↦ ground (arith, h, k, gt)
    | inl le' ↦ text_le_antisym a.tenant.id b.tenant.id le le'
  ]
]

-- The rows after a cursor are those that are not before its row.
pub is_after-before :
    (a r : TenantRow) → is_after (some (a.created_at, a.tenant.id)) r ≡ not (tenant_before r a)
is_after-before a r = ground arith
