-- ===== src/Base/Dict.antt =====
-- Go maps keyed by strings, as association lists with one entry for a key.
use urbino.Base.{inr, ◌∙◌, inl, Bool-cases, ◌⊎◌}
use urbino.Base.Tests.{if◌then◌else◌}
use urbino.Base.Lists.{length}
use urbino.Base.Text.{Text, text_eq, text_eq_iff}
use Prim.Native.Nat.{◌≤◌}
use mathlib.Core.Path.{sym, ◌≡◌, refl}
use mathlib.Core.Option.{Option, none, some, some-injective}
use mathlib.Core.List.{List, [], ◌∷◌}
use native.Mathlib.Omega.{arith}

abbrev pub Dict {ℓ} : Type ℓ → Type ℓ
Dict V = List (Text × V)

module _ {ℓ} {V : Type ℓ} where
  -- `v, ok := m[k]`.
  unfoldable pub lookup : Text → Dict V → Option V
  lookup k [] = none
  lookup k ((j, v) ∷ m) = if text_eq j k then some v else lookup k m

  -- `m[k] = v`.
  unfoldable pub insert : Text → V → Dict V → Dict V
  insert k v [] = (k, v) ∷ []
  insert k v ((j, w) ∷ m) = if text_eq j k then (k, v) ∷ m else (j, w) ∷ insert k v m

  -- `delete(m, k)`.
  unfoldable pub delete : Text → Dict V → Dict V
  delete k [] = []
  delete k ((j, w) ∷ m) = if text_eq j k then delete k m else (j, w) ∷ delete k m

  pub lookup-insert :
      (k j : Text) (v : V) (m : Dict V)
      → lookup j (insert k v m) ≡ (if text_eq k j then some v else lookup j m)
  unfolding lookup insert
  lookup-insert k j v [] = refl
  lookup-insert k j v ((i, w) ∷ m) =
      ground (arith, text_eq_iff k j, text_eq_iff i k, text_eq_iff i j, lookup-insert k j v m)

  pub lookup-delete :
      (k j : Text) (m : Dict V) → lookup j (delete k m) ≡ (if text_eq k j then none else lookup j m)
  unfolding lookup delete
  lookup-delete k j [] = ground arith
  lookup-delete k j ((i, w) ∷ m) =
      ground (arith, text_eq_iff k j, text_eq_iff i k, text_eq_iff i j, lookup-delete k j m)

  pub length-delete : (k : Text) (m : Dict V) → length (delete k m) ≤ length m
  unfolding delete
  length-delete k [] = omega arith
  length-delete k ((i, w) ∷ m) = ground (arith, length-delete k m)

  -- An entry after `m[k] = v` is the new one or an old one.
  pub lookup-insert_cases :
      (k j : Text) (v w : V) (m : Dict V)
      → lookup j (insert k v m) ≡ some w
      → ((k ≡ j) × (v ≡ w)) ⊎ (lookup j m ≡ some w)
  lookup-insert_cases k j v w m h =
      let known = lookup-insert k j v m in
      elim (Bool-cases (text_eq k j)) [
        | inl e ↦ inl ((text_eq_iff k j).0 e, some-injective _ _ (sym (rw e at known) ∙ h))
        | inr e ↦ inr (sym (rw e at known) ∙ h)
      ]

  pub lookup-empty : {B : Type 0} (k : Text) (v : V) (m : Dict V) → m ≡ [] → lookup k m ≡ some v → B
  unfolding lookup
  lookup-empty k v [] e h = absurd cc
  lookup-empty k v (a ∷ m) e h = absurd cc
