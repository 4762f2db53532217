-- ===== src/Prelude/Table.antt =====
-- A Go map with string keys, as an association list.
use Prim.Native.Nat.{◌+◌, ◌≤◌}
use mathlib.Core.Path.{◌≡◌, refl, subst, ◌∙◌}
use mathlib.Core.Logic.{inl, inr}
use mathlib.Core.List.{List, [], ◌∷◌}
use mathlib.Core.Option.{Option, none, some}
use native.Mathlib.Omega.{arith}
use sandboxed_ai_agent_orche.Prelude.Tests.{if◌then◌else◌, Bool-cases}
use sandboxed_ai_agent_orche.Prelude.Lists.{length, All}
use sandboxed_ai_agent_orche.Prelude.Text.{Text, text_eq, text_eq_iff}

abbrev pub Table {ℓ} : Type ℓ → Type ℓ
Table V = List (Text × V)

module _ {ℓ} {V : Type ℓ} where
  -- `m[k]`
  unfoldable pub lookup : Text → Table V → Option V
  lookup k [] = none
  lookup k ((j, v) ∷ m) = if text_eq j k then some v else lookup k m

  -- `m[k] = v`
  unfoldable pub insert : Text → V → Table V → Table V
  insert k v [] = (k, v) ∷ []
  insert k v ((j, w) ∷ m) = if text_eq j k then (k, v) ∷ m else (j, w) ∷ insert k v m

  -- `delete(m, k)`
  unfoldable pub erase : Text → Table V → Table V
  erase k [] = []
  erase k ((j, w) ∷ m) = if text_eq j k then erase k m else (j, w) ∷ erase k m

  pub lookup-insert :
      (k j : Text) (v : V) (m : Table V)
      → lookup j (insert k v m) ≡ (if text_eq k j then some v else lookup j m)
  unfolding lookup insert
  lookup-insert k j v [] = refl
  lookup-insert k j v ((i, w) ∷ m) =
      ground (arith, text_eq_iff k j, text_eq_iff i k, text_eq_iff i j, lookup-insert k j v m)

  pub lookup-erase :
      (k j : Text) (m : Table V) → lookup j (erase k m) ≡ (if text_eq k j then none else lookup j m)
  unfolding lookup erase
  lookup-erase k j [] = ground arith
  lookup-erase k j ((i, w) ∷ m) =
      ground (arith, text_eq_iff k j, text_eq_iff i k, text_eq_iff i j, lookup-erase k j m)

  pub length-insert_new :
      (k : Text) (v : V) (m : Table V) → lookup k m ≡ none → length (insert k v m) ≡ length m + 1
  unfolding lookup insert
  length-insert_new k v [] h = omega arith
  length-insert_new k v ((i, w) ∷ m) h = ground (arith, length-insert_new k v m)

  pub length-erase-le : (k : Text) (m : Table V) → length (erase k m) ≤ length m
  unfolding erase
  length-erase-le k [] = omega arith
  length-erase-le k ((i, w) ∷ m) = ground (arith, length-erase-le k m)

  -- Every entry satisfies `P`.
  abbrev pub Entries {κ} : (Text → V → Type κ) → Table V → Type κ
  Entries P m = All (λ (e : Text × V). P e.0 e.1) m

  -- Every key stands in the table once.
  abbrev pub NoRepeat : Table V → Type ℓ
  NoRepeat [] = Unit
  NoRepeat ((k, v) ∷ m) = (lookup k m ≡ none) × NoRepeat m

  pub insert-NoRepeat : (k : Text) (v : V) (m : Table V) → NoRepeat m → NoRepeat (insert k v m)
  unfolding lookup insert
  insert-NoRepeat k v [] h = (refl, h)
  insert-NoRepeat k v ((j, w) ∷ m) h = elim (Bool-cases (text_eq j k)) [
    | inl e ↦ rw e (subst (λ (i : Text). lookup i m ≡ none) ((text_eq_iff j k).0 e) h.0, h.1)
    | inr e ↦ rw e (
      lookup-insert k j v m ∙ ground (arith, text_eq_iff j k, text_eq_iff k j, h.0),
      insert-NoRepeat k v m h.1,
    )
  ]
