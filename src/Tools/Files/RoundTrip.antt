-- ===== src/Tools/Files/RoundTrip.antt =====
-- A read finds what the tools of pkg/tools/filesystem.go and pkg/tools/edit.go wrote.
use chango_assistant.Base.{
  Text, ap, codes, inr, insert, lookup, lookup-insert_self, none, refl, some, text_eq, ◌++◌, ◌∙◌,
  ◌≡◌,
}
use chango_assistant.Providers.Types.{Fields, end_fields, field, text}
use chango_assistant.Tools.Args.{text_arg?}
use chango_assistant.Tools.Files.Actions.{
  answer, append_at, append_file, read_file, write_at, write_file,
}
use chango_assistant.Tools.Files.Disk.{
  Disk, FileEnv, Scope, append_disk, content_or_empty, open_append, validate_path,
}
use chango_assistant.Tools.Files.Edits.{read_found, write_done}
use chango_assistant.Tools.Result.{new_tool_result}

abbrev pub path_args : Text → Fields
path_args path = field (codes "path") (text path) end_fields

abbrev pub content_args : Text → Text → Fields
content_args path content =
    field (codes "path") (text path) (field (codes "content") (text content) end_fields)

module _ (env : FileEnv) (scope : Scope) (path p : Text)
    (resolved : validate_path env scope path ≡ inr p) (reads : env.read_fault p ≡ none)
    (makes : env.mkdir_fault (env.dir p) ≡ none) (opens : env.open_fault p ≡ none)
    (writes : env.write_fault ≡ none) where
  written :
      (content : Text) (disk : Disk)
      → (write_file env scope (content_args path content) disk).1
        ≡ insert (env.target p) content disk
  unfolding write_file write_at text_arg? text_eq
  written content disk =
      rw (resolved, makes, write_file, write_at)
        (ap (λ x. (answer (codes "failed to write file: ") (codes "File written: " ++ path) x).1)
          (write_done env p content disk opens writes))

  lookup-written :
      (content : Text) (disk : Disk)
      → lookup (env.target p) (write_file env scope (content_args path content) disk).1
        ≡ some content
  lookup-written content disk =
      ap (lookup (env.target p)) (written content disk)
      ∙ lookup-insert_self (env.target p) content disk

  open_done :
      (disk : Disk)
      → open_append env p disk
        ≡ inr (insert (env.target p) (content_or_empty (lookup (env.target p) disk)) disk)
  unfolding open_append
  open_done disk = rw (opens, open_append) refl

  append_done :
      (content : Text) (disk : Disk)
      → append_disk env p content disk ≡ (
        insert (env.target p) (content_or_empty (lookup (env.target p) disk) ++ content) disk,
        none,
      )
  unfolding append_disk
  append_done content disk = rw (writes, append_disk) refl

  appended :
      (content : Text) (disk : Disk)
      → lookup (env.target p) (append_file env scope (content_args path content) disk).1
        ≡ some (content_or_empty (lookup (env.target p) disk) ++ content)
  unfolding append_file append_at text_arg? text_eq answer
  appended content disk =
      let old = content_or_empty (lookup (env.target p) disk) in
      let opened : Disk = insert (env.target p) old disk in
      let back : content_or_empty (lookup (env.target p) opened) ≡ old =
        ap content_or_empty (lookup-insert_self (env.target p) old disk) in
      rw (resolved, open_done disk, append_file, append_at)
        (ap
            (λ x.
              lookup (env.target p)
                (answer (codes "failed to append to file: ") (codes "Appended to " ++ path) x).1)
            (append_done content opened)
          ∙ lookup-insert_self (env.target p)
              (content_or_empty (lookup (env.target p) opened) ++ content) opened
          ∙ ap (λ t. some (t ++ content)) back)

  -- Where the path resolves and the system refuses nothing, a read after a write of one text and an
  -- append of another at the same path answers with the two texts, one after the other, whatever the
  -- file held before.
  pub read-append-write :
      (first second : Text) (disk : Disk)
      → read_file env scope
          (path_args path)
          (append_file env scope
            (content_args path second)
            (write_file env scope (content_args path first) disk).1).1
        ≡ new_tool_result (first ++ second)
  unfolding read_file text_arg? text_eq
  read-append-write first second disk =
      let disk1 : Disk = (write_file env scope (content_args path first) disk).1 in
      let disk2 : Disk = (append_file env scope (content_args path second) disk1).1 in
      let held : lookup (env.target p) disk2 ≡ some (first ++ second) =
        appended second disk1
        ∙ ap (λ o. some (content_or_empty o ++ second)) (lookup-written first disk) in
      rw (resolved, read_found env p (first ++ second) disk2 reads held, read_file) refl
