-- ===== src/Tools/Files/Disk.antt =====
-- What the file tools of pkg/tools use of the file system, and where a path may lead.
use chango_assistant.Base.{
  Bool, List, Option, Text, [], codes, has_prefix, if◌then◌else◌, inl, inr, insert, is_some, lookup,
  none, not, some, text_eq, ℕ, ◌&&◌, ◌++◌, ◌||◌, ◌⊎◌,
}

-- The regular files by their own paths, which have no symbolic link in them.
abbrev pub Disk : Type 0
Disk = List (Text × Text)

-- What one call meets: the functions of path/filepath (`abs` with its error on the left),
-- the number of runes of a text, the paths of directories and other things that are no regular files,
-- the answers of the operating system where it refuses a call, what a write that breaks off leaves of
-- the new text, and the file that a path leads to along symbolic links.
pub record FileEnv : Type 0 where
  pub abs : Text → Text ⊎ Text
  pub is_abs : Text → Bool
  pub clean : Text → Text
  pub join : Text → Text → Text
  pub dir : Text → Text
  pub rune_count : Text → ℕ
  pub is_other : Text → Bool
  pub no_file : Text → Text
  pub read_fault : Text → Option Text
  pub mkdir_fault : Text → Option Text
  pub open_fault : Text → Option Text
  pub write_fault : Option (Text × Text)
  pub entries : Text → Text ⊎ List (Text × Bool)
  pub target : Text → Text

-- The directory a tool is given, and whether it stays inside.
pub record Scope : Type 0 where
  pub workspace : Text
  pub restrict : Bool

abbrev pub host_prefix : Text
host_prefix = codes "/hostfs/"

-- The tests at the end of `validatePath`.
unfoldable pub admit : Scope → Text → Text → Text ⊎ Text
unfolding has_prefix
admit scope root path =
    if has_prefix path host_prefix
    then inr path
    else if scope.restrict && not (has_prefix path root)
    then inl (codes "access denied: path is outside the workspace")
    else inr path

-- `validatePath`, with the error on the left.
unfoldable pub validate_path : FileEnv → Scope → Text → Text ⊎ Text
unfolding admit text_eq
validate_path env scope path =
    if text_eq scope.workspace [] then inr path else elim (env.abs scope.workspace) [
      | inl e ↦ inl (codes "failed to resolve workspace path: " ++ e)
      | inr root ↦
          if env.is_abs path
          then admit scope root (env.clean path)
          else elim (env.abs (env.join root path)) [
            | inl e ↦ inl (codes "failed to resolve file path: " ++ e)
            | inr p ↦ admit scope root p
          ]
    ]

-- `os.Stat` reports a file that does not exist.
unfoldable pub not_exists : FileEnv → Text → Disk → Bool
not_exists env path disk = not (is_some (lookup (env.target path) disk) || env.is_other path)

-- `os.ReadFile`.
unfoldable pub read_disk : FileEnv → Text → Disk → Text ⊎ Text
read_disk env path disk = elim (env.read_fault path) [
  | some e ↦ inl e
  | none ↦ elim (lookup (env.target path) disk) [
    | none ↦ inl (env.no_file path)
    | some content ↦ inr content
  ]
]

-- `os.WriteFile`: where the file cannot be opened nothing changes, and a write that breaks off leaves
-- a part of the text.
unfoldable pub write_disk : FileEnv → Text → Text → Disk → Disk × Option Text
unfolding insert
write_disk env path content disk = elim (env.open_fault path) [
  | some e ↦ (disk, some e)
  | none ↦ elim env.write_fault [
    | some (part, e) ↦ (insert (env.target path) part disk, some e)
    | none ↦ (insert (env.target path) content disk, none)
  ]
]

abbrev pub content_or_empty : Option Text → Text
content_or_empty none = []
content_or_empty (some t) = t

-- `os.OpenFile` with O_APPEND and O_CREATE.
unfoldable pub open_append : FileEnv → Text → Disk → Text ⊎ Disk
unfolding insert
open_append env path disk = elim (env.open_fault path) [
  | some e ↦ inl e
  | none ↦ inr (insert (env.target path) (content_or_empty (lookup (env.target path) disk)) disk)
]

-- `f.WriteString` at the end of the file.
unfoldable pub append_disk : FileEnv → Text → Text → Disk → Disk × Option Text
unfolding insert
append_disk env path content disk =
    let old = content_or_empty (lookup (env.target path) disk) in
    elim env.write_fault [
      | some (part, e) ↦ (insert (env.target path) (old ++ part) disk, some e)
      | none ↦ (insert (env.target path) (old ++ content) disk, none)
    ]
