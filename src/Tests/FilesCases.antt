-- ===== src/Tests/FilesCases.antt =====
-- The file tools in the workspace /ws.
use chango_assistant.Base.{
  [], codes, contains, false, has_prefix, inr, length, lookup, none, refl, some, text_eq, true,
  ◌++◌, ◌∷◌, ◌≡◌,
}
use chango_assistant.Providers.Types.{Fields, end_fields, field, text}
use chango_assistant.Tools.Args.{text_arg?}
use chango_assistant.Tools.Files.Actions.{append_file, edit_file, read_file, write_file}
use chango_assistant.Tools.Files.Disk.{Disk, FileEnv, Scope, admit, validate_path}
use chango_assistant.Tools.Files.Edits.{EditedOrRefused, edit_file-once}
use chango_assistant.Tools.Files.Replace.{
  count_fuel, count_text, cut_text, edit_text, replace_first,
}
use chango_assistant.Tools.Files.RoundTrip.{content_args, path_args, read-append-write}
use chango_assistant.Tools.Result.{new_tool_result}

abbrev env : FileEnv
env = record {
  abs = λ t. inr t;
  is_abs = λ t. has_prefix t (codes "/");
  clean = λ t. t;
  join = λ a b. a ++ codes "/" ++ b;
  dir = λ t. codes "/ws";
  rune_count = λ t. length t;
  is_other = λ t. false;
  no_file = λ t. codes "no such file";
  read_fault = λ t. none;
  mkdir_fault = λ t. none;
  open_fault = λ t. none;
  write_fault = none;
  entries = λ t. inr [];
  target = λ t. t;
}

abbrev scope : Scope
scope = record { workspace = codes "/ws"; restrict = true }

abbrev disk : Disk
disk = (codes "/ws/a", codes "one two") ∷ (codes "/etc/x", codes "secret") ∷ []

abbrev edit_args : Fields
edit_args = field (codes "path") (text (codes "a")) (
    field (codes "old_text") (text (codes "two"))
      (field (codes "new_text") (text (codes "three")) end_fields))

-- A directory beside the workspace whose path continues the workspace's is let through.
sibling_accepted : validate_path env scope (codes "/ws-other/key") ≡ inr (codes "/ws-other/key")
unfolding validate_path admit has_prefix text_eq
sibling_accepted = refl

-- A path with /hostfs/ in front is let through.
host_accepted : validate_path env scope (codes "/hostfs/etc") ≡ inr (codes "/hostfs/etc")
unfolding validate_path admit has_prefix text_eq
host_accepted = refl

-- The overlapping places of a text are counted once.
overlap_counted_once :
    edit_text (λ t. length t) (codes "aa") (codes "b") (codes "aaa") ≡ inr (codes "ba")
unfolding edit_text contains has_prefix count_text count_fuel cut_text replace_first
overlap_counted_once = refl

a_resolves : validate_path env scope (codes "a") ≡ inr (codes "/ws/a")
unfolding validate_path admit has_prefix text_eq
a_resolves = refl

edit_arg : text_arg? (codes "path") edit_args ≡ some (codes "a")
unfolding text_arg? text_eq
edit_arg = refl

edit_old : text_arg? (codes "old_text") edit_args ≡ some (codes "two")
unfolding text_arg? text_eq
edit_old = refl

edit_new : text_arg? (codes "new_text") edit_args ≡ some (codes "three")
unfolding text_arg? text_eq
edit_new = refl

a_held : lookup (codes "/ws/a") disk ≡ some (codes "one two")
unfolding text_eq
a_held = refl

edit_file-once_example :
    EditedOrRefused env
      (codes "/ws/a")
      (codes "two")
      (codes "three")
      (codes "one two")
      disk
      (edit_file env scope edit_args disk)
edit_file-once_example =
    edit_file-once env scope edit_args (codes "a") (codes "/ws/a") disk edit_arg a_resolves refl
      refl (codes "two") (codes "three") (codes "one two") edit_old edit_new refl refl a_held

read-append-write_example :
    read_file env scope
      (path_args (codes "a"))
      (append_file env scope
        (content_args (codes "a") (codes " four"))
        (write_file env scope (content_args (codes "a") (codes "three")) disk).1).1
    ≡ new_tool_result (codes "three" ++ codes " four")
read-append-write_example =
    read-append-write env scope (codes "a") (codes "/ws/a") a_resolves refl refl refl refl
      (codes "three") (codes " four") disk
