-- ===== src/Tools/Files/Confined.antt =====
-- The tools of pkg/tools/filesystem.go and pkg/tools/edit.go change no file where they may not go.
use chango_assistant.Base.{Bool, Text, has_prefix, lookup, not, true, ◌||◌, ◌≡◌}
use chango_assistant.Tools.Files.Disk.{Disk, FileEnv, Scope, host_prefix}
use chango_assistant.Tools.Result.{ToolResult}

-- What the tests of `validatePath` let through, given the resolved workspace.
abbrev pub inside : Scope → Text → Text → Bool
inside scope root path = has_prefix path host_prefix || (not scope.restrict || has_prefix path root)

-- No symbolic link leads out of where the tools may go.
abbrev pub LinksStay : FileEnv → Scope → Text → Type 0
LinksStay env scope root =
    (p : Text) → inside scope root p ≡ true → inside scope root (env.target p) ≡ true

module _ (q : Text) where
  -- A call leaves the file at `q`.
  abbrev Leaves : Disk → ToolResult × Disk → Type 0
  Leaves disk x = lookup q x.1 ≡ lookup q disk
