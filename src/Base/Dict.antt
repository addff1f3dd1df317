-- ===== src/Base/Dict.antt =====
-- Go maps with string keys, as association lists in which a key stands once.
use chango_assistant.Base.Lists.{All}
use chango_assistant.Base.Strings.{Text, text_eq, text_eq_iff, text_eq_refl}
use chango_assistant.Base.Tests.{if_both, if◌then◌else◌}
use mathlib.Core.List.{List, [], ◌∷◌}
use mathlib.Core.Option.{Option, none, some}
use mathlib.Core.Path.{refl, ◌≡◌}
use native.Mathlib.Omega.{arith}

module _ {ℓ} {V : Type ℓ} where
  abbrev pub lookup : Text → List (Text × V) → Option V
  lookup k [] = none
  lookup k ((j, v) ∷ m) = if text_eq j k then some v else lookup k m

  unfoldable pub insert : Text → V → List (Text × V) → List (Text × V)
  insert k v [] = (k, v) ∷ []
  insert k v ((j, w) ∷ m) = if text_eq j k then (k, v) ∷ m else (j, w) ∷ insert k v m

  unfoldable pub delete : Text → List (Text × V) → List (Text × V)
  delete k [] = []
  delete k ((j, v) ∷ m) = if text_eq j k then delete k m else (j, v) ∷ delete k m

  abbrev pub keys : List (Text × V) → List Text
  keys [] = []
  keys ((k, v) ∷ m) = k ∷ keys m

module _ {ℓ} {V : Type ℓ} where
  pub lookup-insert :
      (k j : Text) (v : V) (m : List (Text × V))
      → lookup j (insert k v m) ≡ (if text_eq k j then some v else lookup j m)
  unfolding insert
  lookup-insert k j v [] = refl
  lookup-insert k j v ((i, w) ∷ m) =
      ground (arith, text_eq_iff k j, text_eq_iff i k, text_eq_iff i j, lookup-insert k j v m)

  pub lookup-insert_self :
      (k : Text) (v : V) (m : List (Text × V)) → lookup k (insert k v m) ≡ some v
  lookup-insert_self k v m = rw (lookup-insert k k v m, text_eq_refl k)

  pub lookup-delete :
      (k j : Text) (m : List (Text × V))
      → lookup j (delete k m) ≡ (if text_eq k j then none else lookup j m)
  unfolding delete
  lookup-delete k j [] = ground arith
  lookup-delete k j ((i, w) ∷ m) =
      ground (arith, text_eq_iff k j, text_eq_iff i k, text_eq_iff i j, lookup-delete k j m)

-- `switch t { case k: x ... default: d }` on a Go string.
abbrev pub switch {ℓ} : {A : Type ℓ} → Text → List (Text × A) → A → A
switch t [] d = d
switch t ((k, x) ∷ cases) d = if text_eq t k then x else switch t cases d

pub switch_all {ℓ κ} :
    {A : Type ℓ} (P : A → Type κ) (t : Text) (cases : List (Text × A)) (d : A)
    → All (λ c. P c.1) cases
    → P d
    → P (switch t cases d)
switch_all P t [] d h k = k
switch_all P t ((key, x) ∷ cases) d h k =
    if_both P (text_eq t key) x (switch t cases d) h.0 (switch_all P t cases d h.1 k)
