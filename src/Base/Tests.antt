-- ===== src/Base/Tests.antt =====
-- Boolean tests on the native numbers, the conditional, and case splits that keep an equation.
use Prim.Native.Nat.{Ordering, compare, ℕ, ◌<◌, ◌≤◌}
use mathlib.Core.Bool.{Bool, false, true}
use mathlib.Core.Logic.{inl, inr, ◌⊎◌}
use mathlib.Core.Option.{Option, none, some}
use mathlib.Core.Path.{refl, ◌≡◌}
use native.Mathlib.Omega.{arith}

abbrev pub ltb : ℕ → ℕ → Bool
ltb a b = elim (compare a b) [ Ordering.lt ↦ true | _ ↦ false ]

abbrev pub leb : ℕ → ℕ → Bool
leb a b = elim (compare a b) [ Ordering.gt ↦ false | _ ↦ true ]

infix 50 ◌==◌
abbrev pub ◌==◌ : ℕ → ℕ → Bool
a == b = elim (compare a b) [ Ordering.eq ↦ true | _ ↦ false ]

infix 1 if◌then◌else◌
abbrev pub if◌then◌else◌ {ℓ} : {A : Type ℓ} → Bool → A → A → A
if true then x else y = x
if false then x else y = y

pub Bool-cases : (b : Bool) → (b ≡ true) ⊎ (b ≡ false)
Bool-cases true = inl refl
Bool-cases false = inr refl

pub Option-cases {ℓ} : {A : Type ℓ} (o : Option A) → (o ≡ none) ⊎ ((a : A) × (o ≡ some a))
Option-cases none = inl refl
Option-cases (some a) = inr (a, refl)

abbrev pub is_some {ℓ} : {A : Type ℓ} → Option A → Bool
is_some none = false
is_some (some _) = true

-- What holds of both branches holds of a conditional.
pub if_both {ℓ κ} :
    {A : Type ℓ} (P : A → Type κ) (b : Bool) (x y : A) → P x → P y → P (if b then x else y)
if_both P true x y h k = h
if_both P false x y h k = k

pub if_cases {ℓ κ} :
    {A : Type ℓ} (P : A → Type κ) (b : Bool) (x y : A)
    → (b ≡ true → P x)
    → (b ≡ false → P y)
    → P (if b then x else y)
if_cases P true x y f g = f refl
if_cases P false x y f g = g refl

-- The same of a case split on an option and on a sum.
pub option_both {ℓ κ μ} :
    {A : Type ℓ} {B : Type μ} (P : A → Type κ) (o : Option B) (x : A) (f : B → A)
    → P x
    → ((b : B) → P (f b))
    → P (elim o [ none ↦ x | some b ↦ f b ])
option_both P none x f h k = h
option_both P (some b) x f h k = k b

pub option_split {ℓ κ μ} :
    {A : Type ℓ} {B : Type μ} (P : A → Type κ) (o : Option B) (x : A) (f : B → A)
    → (o ≡ none → P x)
    → ((b : B) → o ≡ some b → P (f b))
    → P (elim o [ none ↦ x | some b ↦ f b ])
option_split P none x f h k = h refl
option_split P (some b) x f h k = k b refl

pub sum_both {ℓ κ μ ν} :
    {A : Type ℓ} {B : Type μ} {C : Type ν} (P : A → Type κ) (o : B ⊎ C) (f : B → A) (g : C → A)
    → ((b : B) → P (f b))
    → ((c : C) → o ≡ inr c → P (g c))
    → P (elim o [ inl b ↦ f b | inr c ↦ g c ])
sum_both P (inl b) f g h k = h b
sum_both P (inr c) f g h k = k c refl

-- Case splits on the same value with the same results.
pub option_cong {ℓ μ} :
    {A : Type ℓ} {B : Type μ} (o : Option B) (x : A) (f g : B → A)
    → ((b : B) → f b ≡ g b)
    → elim o [ none ↦ x | some b ↦ f b ] ≡ elim o [ none ↦ x | some b ↦ g b ]
option_cong none x f g h = refl
option_cong (some b) x f g h = h b

pub sum_cong {ℓ μ ν} :
    {A : Type ℓ} {B : Type μ} {C : Type ν} (o : B ⊎ C) (e : B → A) (f g : C → A)
    → ((c : C) → o ≡ inr c → f c ≡ g c)
    → elim o [ inl b ↦ e b | inr c ↦ f c ] ≡ elim o [ inl b ↦ e b | inr c ↦ g c ]
sum_cong (inl b) e f g h = refl
sum_cong (inr c) e f g h = h c refl

pub leb_false→lt : (a b : ℕ) → leb a b ≡ false → b < a
leb_false→lt a b h = ground arith

pub leb→le : (a b : ℕ) → leb a b ≡ true → a ≤ b
leb→le a b h = ground arith

module _ {ℓ} {A : Type ℓ} where
  pub if_true : (b : Bool) (x y : A) → b ≡ true → (if b then x else y) ≡ x
  if_true b x y e = rw e refl

  pub if_false : (b : Bool) (x y : A) → b ≡ false → (if b then x else y) ≡ y
  if_false b x y e = rw e refl
