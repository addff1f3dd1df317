-- ===== src/Tools/Files/Replace.antt =====
-- The functions of package strings that pkg/tools/edit.go uses, and the edit of a text.
use chango_assistant.Base.{
  Option, Text, [], codes, contains, decimal, drop, has_prefix, if◌then◌else◌, inl, inr, is_nil,
  leb, length, none, not, some, suc, zero, ℕ, ◌++◌, ◌∷◌, ◌⊎◌,
}

-- What stands before and after the first occurrence.
unfoldable pub cut_text : Text → Text → Option (Text × Text)
unfolding has_prefix
cut_text old [] = if is_nil old then some ([], []) else none
cut_text old (a ∷ s) =
    let rest = cut_text old s in
    if has_prefix (a ∷ s) old
    then some ([], drop (length old) (a ∷ s))
    else elim rest [ none ↦ none | some (before, after) ↦ some (a ∷ before, after) ]

-- The loop of `strings.Count`; the fuel is the length of the text.
unfoldable pub count_fuel : Text → ℕ → Text → ℕ
unfolding cut_text
count_fuel old zero s = 0
count_fuel old (suc n) s = elim (cut_text old s) [
  | none ↦ 0
  | some (before, after) ↦ suc (count_fuel old n after)
]

-- `strings.Count`.
unfoldable pub count_text : (Text → ℕ) → Text → Text → ℕ
unfolding count_fuel
count_text rune_count old s = if is_nil old then suc (rune_count s) else count_fuel old (length s) s

-- `strings.Replace(s, old, new, 1)`.
unfoldable pub replace_first : Text → Text → Text → Text
unfolding cut_text
replace_first old new s = elim (cut_text old s) [
  | none ↦ s
  | some (before, after) ↦ before ++ (new ++ after)
]

-- The text after an edit, or the error.
unfoldable pub edit_text : (Text → ℕ) → Text → Text → Text → Text ⊎ Text
unfolding contains count_text replace_first decimal
edit_text rune_count old new content =
    let count = count_text rune_count old content in
    if not (contains content old)
    then inl (codes "old_text not found in file. Make sure it matches exactly")
    else if leb count 1
    then inr (replace_first old new content)
    else inl (
        codes "old_text appears "
        ++ decimal count
        ++ codes " times. Please provide more context to make it unique")
