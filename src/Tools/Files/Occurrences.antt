-- ===== src/Tools/Files/Occurrences.antt =====
-- Where a text occurs in another: the search and the count of package strings that pkg/tools/edit.go uses.
use chango_assistant.Base.{
  Bool, Bool-cases, Option, Option-cases, Text, [], ap, append_assoc, arith, contains, drop, false,
  has_prefix, if_cases, if◌then◌else◌, inl, inr, is_nil, is_some, leb, leb_false→lt, leb→le, length,
  length-append, none, refl, some, subst, suc, sym, true, zero, ℕ, ◌++◌, ◌+◌, ◌<◌, ◌||◌, ◌∙◌, ◌∷◌,
  ◌≡◌, ◌≤◌,
}
use chango_assistant.Tools.Files.Replace.{count_fuel, cut_text}

-- `s` has the text `old` between the other two.
abbrev pub Occurs : Text → Text → Text → Text → Type 0
Occurs old s before after = s ≡ before ++ (old ++ after)

has_prefix-drop : (s p : Text) → has_prefix s p ≡ true → s ≡ p ++ drop (length p) s
unfolding has_prefix
has_prefix-drop s [] h = refl
has_prefix-drop [] (b ∷ p) h = absurd (cc)
has_prefix-drop (a ∷ s) (b ∷ p) h = ground (arith, has_prefix-drop s p)

has_prefix-append : (p t : Text) → has_prefix (p ++ t) p ≡ true
unfolding has_prefix
has_prefix-append [] [] = refl
has_prefix-append [] (a ∷ t) = refl
has_prefix-append (b ∷ p) t = ground (arith, has_prefix-append p t)

-- What the search for the first occurrence should give.
abbrev pub Cuts : Text → Text → Option (Text × Text) → Type 0
Cuts old s none = (x y : Text) → Occurs old s x y → ⊥
Cuts old s (some (before, after)) =
    Occurs old s before after × ((x y : Text) → Occurs old s x y → length before ≤ length x)

cons_inj : (a b : ℕ) (s t : Text) → a ∷ s ≡ b ∷ t → s ≡ t
cons_inj a b s t h = cc

not_at_front : (s old y : Text) → has_prefix s old ≡ false → s ≡ old ++ y → ⊥
not_at_front s old y h e = cc (h, has_prefix-append old y, ap (λ t. has_prefix t old) e)

-- An occurrence that is not at the front is one in the rest.
in_rest :
    (a : ℕ) (old s x y : Text)
    → has_prefix (a ∷ s) old ≡ false
    → Occurs old (a ∷ s) x y
    → (x' : Text) × (Occurs old s x' y × (length x ≡ suc (length x')))
in_rest a old s [] y h e = absurd (not_at_front (a ∷ s) old y h e)
in_rest a old s (b ∷ x) y h e = (x, (cons_inj a b s (x ++ (old ++ y)) e, omega arith))

cut_rest :
    (a : ℕ) (old s : Text) (o : Option (Text × Text))
    → has_prefix (a ∷ s) old ≡ false
    → Cuts old s o
    → Cuts old (a ∷ s) (elim o [ none ↦ none | some (before, after) ↦ some (a ∷ before, after) ])
cut_rest a old s none h k = λ x y e. let (x', (e', _)) = in_rest a old s x y h e in k x' y e'
cut_rest a old s (some (before, after)) h k = (
  ap (λ t. a ∷ t) k.0,
  λ x y e. let (x', (e', l)) = in_rest a old s x y h e in omega (arith, l, k.1 x' y e'),
)

no_occurrence : (old : Text) → is_nil old ≡ false → Cuts old [] none
no_occurrence [] h = absurd (cc)
no_occurrence (b ∷ old) h =
    λ x y e. absurd (omega (arith, ap length e, length-append x ((b ∷ old) ++ y)))

pub cut_text-Cuts : (old s : Text) → Cuts old s (cut_text old s)
unfolding cut_text
cut_text-Cuts [] [] = (refl, λ x y e. omega arith)
cut_text-Cuts (b ∷ old) [] = no_occurrence (b ∷ old) refl
cut_text-Cuts old (a ∷ s) =
    let rest = cut_text old s in
    if_cases (Cuts old (a ∷ s)) (has_prefix (a ∷ s) old) _ _
      (λ h. (has_prefix-drop (a ∷ s) old h, λ x y e. omega arith))
      (λ h. cut_rest a old s rest h (cut_text-Cuts old s))

or_cut :
    (b c : Bool) (o : Option (Text × Text)) (p : Text × Text) (f : Text × Text → Text × Text)
    → c ≡ is_some o
    → b || c ≡ is_some (if b then some p else elim o [ none ↦ none | some x ↦ some (f x) ])
or_cut true c o p f h = refl
or_cut false c none p f h = h
or_cut false c (some x) p f h = h

-- Whether there is an occurrence.
pub contains_cut : (old s : Text) → contains s old ≡ is_some (cut_text old s)
unfolding contains cut_text has_prefix
contains_cut [] [] = refl
contains_cut (b ∷ old) [] = refl
contains_cut old (a ∷ s) =
    or_cut (has_prefix (a ∷ s) old) (contains s old) (cut_text old s)
      ([], drop (length old) (a ∷ s)) (λ x. (a ∷ x.0, x.1)) (contains_cut old s)

drop-append : (x y : Text) → drop (length x) (x ++ y) ≡ y
drop-append [] y = refl
drop-append (a ∷ x) y = drop-append x y

drop-append_le : (n : ℕ) (x y : Text) → n ≤ length x → drop n (x ++ y) ≡ drop n x ++ y
drop-append_le zero x y h = refl
drop-append_le (suc n) [] y h = absurd (omega arith)
drop-append_le (suc n) (a ∷ x) y h = drop-append_le n x y (omega arith)

-- Where the count is 0, there is no occurrence.
count-none :
    (old : Text) (n : ℕ) (s : Text)
    → length s ≤ n
    → is_nil old ≡ false
    → count_fuel old n s ≡ 0
    → (x y : Text) → Occurs old s x y
    → ⊥
unfolding count_fuel
count-none old zero [] l h c x y e = no_occurrence old h x y e
count-none old zero (a ∷ s) l h c x y e = absurd (omega arith)
count-none old (suc n) s l h c x y e = elim (Option-cases (cut_text old s)) [
  | inl k ↦ subst (Cuts old s) k (cut_text-Cuts old s) x y e
  | inr (p, k) ↦ absurd (cc (rw (k, count_fuel) at c))
]

nonempty : (s : Text) → is_nil s ≡ false → 1 ≤ length s
nonempty [] h = absurd (cc)
nonempty (a ∷ s) h = omega arith

length_occurs :
    (old s x y : Text) → Occurs old s x y → length s ≡ length x + (length old + length y)
length_occurs old s x y e =
    omega (arith, ap length e, length-append x (old ++ y), length-append old y)

pub cut_at :
    (old s before after : Text) → cut_text old s ≡ some (before, after) → Occurs old s before after
cut_at old s before after k = (subst (Cuts old s) k (cut_text-Cuts old s)).0

-- An occurrence that begins after the end of another is one in what follows.
later :
    (old before after x y : Text)
    → length before + length old ≤ length x
    → before ++ (old ++ after) ≡ x ++ (old ++ y)
    → Occurs old after (drop (length before + length old) x) y
later old before after x y h e =
    let n = length before + length old in
    sym (
      ap (λ k. drop k ((before ++ old) ++ after)) (sym (length-append before old))
      ∙ drop-append (before ++ old) after)
    ∙ ap (drop n) (append_assoc before old after ∙ e)
    ∙ drop-append_le n x (old ++ y) h

-- Where the count is at most 1, every occurrence begins before the first one ends.
pub count-once :
    (old : Text) (n : ℕ) (s before after : Text)
    → length s ≤ n
    → is_nil old ≡ false
    → cut_text old s ≡ some (before, after)
    → count_fuel old n s ≤ 1
    → (x y : Text) → Occurs old s x y
    → length x < length before + length old
unfolding count_fuel
count-once old zero s before after l h k c x y e = absurd (
    omega
      (arith, l, nonempty old h, length_occurs old s before after (cut_at old s before after k)))
count-once old (suc n) s before after l h k c x y e =
    let occ : Occurs old s before after = cut_at old s before after k in
    elim (Bool-cases (leb (length before + length old) (length x))) [
      | inr lt ↦ leb_false→lt (length before + length old) (length x) lt
      | inl le ↦ absurd (
          count-none old n after
            (omega (arith, l, nonempty old h, length_occurs old s before after occ)) h
            (omega (arith, rw (k, count_fuel) at c)) (drop (length before + length old) x) y
            (later old before after x y (leb→le (length before + length old) (length x) le)
              (sym occ ∙ e)))
    ]

-- Two occurrences of which the second begins after the first ends.
abbrev pub Twice : Text → Text → Type 0
Twice old s =
    (p : Text × Text) × ((q : Text × Text) × (Occurs old s p.0 p.1
        × (Occurs old s q.0 q.1 × (length p.0 + length old ≤ length q.0))))

-- Where the count is more than 1, there are two.
pub count-Twice :
    (old : Text) (n : ℕ) (s before after : Text)
    → cut_text old s ≡ some (before, after)
    → 1 < count_fuel old n s
    → Twice old s
unfolding count_fuel
count-Twice old zero s before after k c = absurd (omega arith)
count-Twice old (suc zero) s before after k c = absurd (omega (arith, rw (k, count_fuel) at c))
count-Twice old (suc (suc n)) s before after k c = elim (Option-cases (cut_text old after)) [
  | inl none_left ↦ absurd (omega (arith, rw (k, count_fuel, none_left) at c))
  | inr ((b, a), k') ↦
      let occ : Occurs old s before after = cut_at old s before after k in
      let occ' : Occurs old after b a = cut_at old after b a k' in
      (
        (before, after),
        (
          (before ++ (old ++ b), a),
          (
            occ,
            (
              occ
                  ∙ ap (λ t. before ++ (old ++ t)) occ'
                  ∙ ap (λ t. before ++ t) (sym (append_assoc old b (old ++ a)))
                  ∙ sym (append_assoc before (old ++ b) (old ++ a)),
              omega (arith, length-append before (old ++ b), length-append old b),
            ),
          ),
        ),
      )
]
