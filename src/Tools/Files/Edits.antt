-- ===== src/Tools/Files/Edits.antt =====
-- What a call of `EditFileTool` of pkg/tools/edit.go does to a file that can be read and written, and what
-- a read finds after a write and an append.
use chango_assistant.Base.{
  Option-cases, Text, ap, arith, codes, contains, false, if_cases, inl, inr, insert, is_nil, leb,
  leb_false→lt, leb→le, length, lookup, none, not, refl, some, subst, true, ℕ, ◌++◌, ◌+◌, ◌<◌, ◌≡◌,
  ◌≤◌, ◌⊎◌,
}
use chango_assistant.Providers.Types.{Fields}
use chango_assistant.Tools.Args.{text_arg?}
use chango_assistant.Tools.Files.Actions.{answer, edit_at, edit_file}
use chango_assistant.Tools.Files.Disk.{
  Disk, FileEnv, Scope, not_exists, read_disk, validate_path, write_disk,
}
use chango_assistant.Tools.Files.Occurrences.{
  Cuts, Occurs, Twice, contains_cut, count-Twice, count-once, cut_at, cut_text-Cuts,
}
use chango_assistant.Tools.Files.Replace.{
  count_fuel, count_text, cut_text, edit_text, replace_first,
}
use chango_assistant.Tools.Result.{ToolResult, error_result, new_tool_result, silent_result}

-- One occurrence is replaced, and every other one overlaps it or begins before it.
abbrev pub Replaces : Text → Text → Text → Text → Type 0
Replaces old new content content' =
    (p : Text × Text) × (Occurs old content p.0 p.1
      × ((content' ≡ p.0 ++ (new ++ p.1))
          × ((x y : Text) → Occurs old content x y → length x < length p.0 + length old)))

-- What an edit should give.
abbrev pub EditGives : Text → Text → Text → Text ⊎ Text → Type 0
EditGives old new content (inl e) = ((x y : Text) → Occurs old content x y → ⊥) ⊎ Twice old content
EditGives old new content (inr content') = Replaces old new content content'

found_once :
    (old new content : Text) (p : Text × Text)
    → is_nil old ≡ false
    → cut_text old content ≡ some p
    → count_fuel old (length content) content ≤ 1
    → Replaces old new content (replace_first old new content)
unfolding replace_first
found_once old new content p h k c = (
  p,
  (
    cut_at old content p.0 p.1 k,
    (
      rw (k, replace_first) refl,
      λ x y e. count-once old (length content) content p.0 p.1 (omega arith) h k c x y e,
    ),
  ),
)

edit_text-Gives :
    (rune_count : Text → ℕ) (old new content : Text)
    → is_nil old ≡ false
    → EditGives old new content (edit_text rune_count old new content)
unfolding edit_text count_text
edit_text-Gives rune_count old new content h =
    let P = EditGives old new content in
    let count = count_text rune_count old content in
    let same : count ≡ count_fuel old (length content) content = rw h refl in
    elim (Option-cases (cut_text old content)) [
      | inl k ↦
          if_cases P (not (contains content old)) _ _
            (λ e. inl (subst (Cuts old content) k (cut_text-Cuts old content)))
            (λ e. absurd (cc (e, k, contains_cut old content)))
      | inr (p, k) ↦
          if_cases P (not (contains content old)) _ _
            (λ e. absurd (cc (e, k, contains_cut old content)))
            (λ e.
              if_cases P (leb count 1) _ _
                (λ l. found_once old new content p h k (omega (arith, same, leb→le count 1 l)))
                (λ l. inr (
                  count-Twice old (length content) content p.0 p.1 k
                    (omega (arith, same, leb_false→lt count 1 l)))))
    ]

-- The file that `p` leads to is edited, or the call is refused and there is not exactly one place to edit.
abbrev pub EditedOrRefused : FileEnv → Text → Text → Text → Text → Disk → ToolResult × Disk → Type 0
EditedOrRefused env p old new content disk x =
    ((content' : Text) × (Replaces old new content content'
        × ((x.1 ≡ insert (env.target p) content' disk) × (x.0.is_error ≡ false))))
    ⊎ ((x.1 ≡ disk)
        × ((x.0.is_error ≡ true)
            × (((before after : Text) → Occurs old content before after → ⊥) ⊎ Twice old content)))

pub write_done :
    (env : FileEnv) (p content : Text) (disk : Disk)
    → env.open_fault p ≡ none
    → env.write_fault ≡ none
    → write_disk env p content disk ≡ (insert (env.target p) content disk, none)
unfolding write_disk
write_done env p content disk f w = rw (f, w, write_disk) refl

pub read_found :
    (env : FileEnv) (p content : Text) (disk : Disk)
    → env.read_fault p ≡ none
    → lookup (env.target p) disk ≡ some content
    → read_disk env p disk ≡ inr content
unfolding read_disk
read_found env p content disk r found = rw (r, found, read_disk) refl

stat_found :
    (env : FileEnv) (p content : Text) (disk : Disk)
    → lookup (env.target p) disk ≡ some content
    → not_exists env p disk ≡ false
unfolding not_exists
stat_found env p content disk found = rw (found, not_exists) refl

edit_written :
    (env : FileEnv) (path p old new content : Text) (disk : Disk) (o : Text ⊎ Text)
    → env.open_fault p ≡ none
    → env.write_fault ≡ none
    → EditGives old new content o
    → EditedOrRefused env p old new content disk (elim o [
      | inl e ↦ (error_result e, disk)
      | inr content' ↦
          answer
            (codes "failed to write file: ")
            (codes "File edited: " ++ path)
            (write_disk env p content' disk)
    ])
unfolding answer error_result silent_result new_tool_result
edit_written env path p old new content disk (inl e) f w g = inr (refl, (refl, g))
edit_written env path p old new content disk (inr content') f w g =
    let done : answer (codes "failed to write file: ") (codes "File edited: " ++ path)
          (write_disk env p content' disk)
        ≡ (silent_result (codes "File edited: " ++ path), insert (env.target p) content' disk) =
      ap (answer (codes "failed to write file: ") (codes "File edited: " ++ path))
        (write_done env p content' disk f w) in
    inl (content', (g, (ap (λ x. x.1) done, ap (λ x. x.0.is_error) done)))

module _ (env : FileEnv) (scope : Scope) (args : Fields) (path p : Text) (disk : Disk)
    (named : text_arg? (codes "path") args ≡ some path)
    (resolved : validate_path env scope path ≡ inr p) (opens : env.open_fault p ≡ none)
    (writes : env.write_fault ≡ none) where
  edit_at-once :
      (old new content : Text)
      → is_nil old ≡ false
      → env.read_fault p ≡ none
      → lookup (env.target p) disk ≡ some content
      → EditedOrRefused env p old new content disk (edit_at env path p old new disk)
  unfolding edit_at
  edit_at-once old new content h r found =
      rw (stat_found env p content disk found, read_found env p content disk r found, edit_at)
        (edit_written env path p old new content disk (edit_text env.rune_count old new content)
          opens writes (edit_text-Gives env.rune_count old new content h))

  -- Where the path leads to a file that can be read and written and the old text is not empty, an
  -- edit either replaces one occurrence of the old text by the new one, every other occurrence
  -- beginning before that one ends, leaves the rest of the file and all other files, and answers without
  -- an error; or it answers with an error, changes nothing, and the old text does not occur at all or
  -- occurs at two places that do not overlap.
  pub edit_file-once :
      (old new content : Text)
      → text_arg? (codes "old_text") args ≡ some old
      → text_arg? (codes "new_text") args ≡ some new
      → is_nil old ≡ false
      → env.read_fault p ≡ none
      → lookup (env.target p) disk ≡ some content
      → EditedOrRefused env p old new content disk (edit_file env scope args disk)
  unfolding edit_file
  edit_file-once old new content o n h r found =
      rw (named, o, n, resolved, edit_file) (edit_at-once old new content h r found)
