-- ===== src/Tools/Files/Actions.antt =====
-- The `Execute` methods of the tools of pkg/tools/filesystem.go and pkg/tools/edit.go.
use chango_assistant.Base.{
  Bool, List, Option, Text, [], codes, if◌then◌else◌, inl, inr, none, some, ◌++◌, ◌∷◌,
}
use chango_assistant.Providers.Types.{Fields}
use chango_assistant.Tools.Args.{text_arg?}
use chango_assistant.Tools.Files.Disk.{
  Disk, FileEnv, Scope, append_disk, not_exists, open_append, read_disk, validate_path, write_disk,
}
use chango_assistant.Tools.Files.Replace.{edit_text}
use chango_assistant.Tools.Result.{ToolResult, error_result, new_tool_result, silent_result}

unfoldable pub missing_arg : Text → ToolResult
unfolding error_result
missing_arg name = error_result (name ++ codes " is required")

-- `ReadFileTool`.
unfoldable pub read_file : FileEnv → Scope → Fields → Disk → ToolResult
unfolding missing_arg text_arg? validate_path read_disk new_tool_result error_result
read_file env scope args disk = elim (text_arg? (codes "path") args) [
  | none ↦ missing_arg (codes "path")
  | some path ↦ elim (validate_path env scope path) [
    | inl e ↦ error_result e
    | inr p ↦ elim (read_disk env p disk) [
      | inl e ↦ error_result (codes "failed to read file: " ++ e)
      | inr content ↦ new_tool_result content
    ]
  ]
]

-- The answer to a write.
unfoldable pub answer : Text → Text → Disk × Option Text → ToolResult × Disk
unfolding error_result silent_result
answer failed done (disk, none) = (silent_result done, disk)
answer failed done (disk, some e) = (error_result (failed ++ e), disk)

-- The write of `WriteFileTool` at the path that was resolved.
unfoldable pub write_at : FileEnv → Text → Text → Text → Disk → ToolResult × Disk
unfolding answer write_disk error_result
write_at env path p content disk = elim (env.mkdir_fault (env.dir p)) [
  | some e ↦ (error_result (codes "failed to create directory: " ++ e), disk)
  | none ↦
      answer (codes "failed to write file: ") (codes "File written: " ++ path)
        (write_disk env p content disk)
]

-- `WriteFileTool`.
unfoldable pub write_file : FileEnv → Scope → Fields → Disk → ToolResult × Disk
unfolding missing_arg text_arg? validate_path write_at error_result
write_file env scope args disk = elim (text_arg? (codes "path") args) [
  | none ↦ (missing_arg (codes "path"), disk)
  | some path ↦ elim (text_arg? (codes "content") args) [
    | none ↦ (missing_arg (codes "content"), disk)
    | some content ↦ elim (validate_path env scope path) [
      | inl e ↦ (error_result e, disk)
      | inr p ↦ write_at env path p content disk
    ]
  ]
]

-- The lines of `ListDirTool`.
abbrev pub entry_lines : List (Text × Bool) → Text
entry_lines [] = []
entry_lines ((name, is_dir) ∷ es) =
    (if is_dir then codes "DIR:  " else codes "FILE: ") ++ (name ++ (10 ∷ entry_lines es))

abbrev pub or_here : Option Text → Text
or_here none = codes "."
or_here (some path) = path

-- `ListDirTool`.
unfoldable pub list_dir : FileEnv → Scope → Fields → ToolResult
unfolding missing_arg text_arg? validate_path new_tool_result error_result
list_dir env scope args = elim (validate_path env scope (or_here (text_arg? (codes "path") args))) [
  | inl e ↦ error_result e
  | inr p ↦ elim (env.entries p) [
    | inl e ↦ error_result (codes "failed to read directory: " ++ e)
    | inr es ↦ new_tool_result (entry_lines es)
  ]
]

-- The edit of `EditFileTool` at the path that was resolved.
unfoldable pub edit_at : FileEnv → Text → Text → Text → Text → Disk → ToolResult × Disk
unfolding not_exists read_disk edit_text write_disk answer error_result
edit_at env path p old new disk =
    if not_exists env p disk
    then (error_result (codes "file not found: " ++ path), disk)
    else elim (read_disk env p disk) [
      | inl e ↦ (error_result (codes "failed to read file: " ++ e), disk)
      | inr content ↦ elim (edit_text env.rune_count old new content) [
        | inl e ↦ (error_result e, disk)
        | inr content' ↦
            answer (codes "failed to write file: ") (codes "File edited: " ++ path)
              (write_disk env p content' disk)
      ]
    ]

-- `EditFileTool`.
unfoldable pub edit_file : FileEnv → Scope → Fields → Disk → ToolResult × Disk
unfolding missing_arg text_arg? validate_path edit_at error_result
edit_file env scope args disk = elim (text_arg? (codes "path") args) [
  | none ↦ (missing_arg (codes "path"), disk)
  | some path ↦ elim (text_arg? (codes "old_text") args) [
    | none ↦ (missing_arg (codes "old_text"), disk)
    | some old ↦ elim (text_arg? (codes "new_text") args) [
      | none ↦ (missing_arg (codes "new_text"), disk)
      | some new ↦ elim (validate_path env scope path) [
        | inl e ↦ (error_result e, disk)
        | inr p ↦ edit_at env path p old new disk
      ]
    ]
  ]
]

-- The append of `AppendFileTool` at the path that was resolved.
unfoldable pub append_at : FileEnv → Text → Text → Text → Disk → ToolResult × Disk
unfolding open_append append_disk answer error_result
append_at env path p content disk = elim (open_append env p disk) [
  | inl e ↦ (error_result (codes "failed to open file: " ++ e), disk)
  | inr opened ↦
      answer (codes "failed to append to file: ") (codes "Appended to " ++ path)
        (append_disk env p content opened)
]

-- `AppendFileTool`.
unfoldable pub append_file : FileEnv → Scope → Fields → Disk → ToolResult × Disk
unfolding missing_arg text_arg? validate_path append_at error_result
append_file env scope args disk = elim (text_arg? (codes "path") args) [
  | none ↦ (missing_arg (codes "path"), disk)
  | some path ↦ elim (text_arg? (codes "content") args) [
    | none ↦ (missing_arg (codes "content"), disk)
    | some content ↦ elim (validate_path env scope path) [
      | inl e ↦ (error_result e, disk)
      | inr p ↦ append_at env path p content disk
    ]
  ]
]
