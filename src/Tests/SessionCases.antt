-- ===== src/Tests/SessionCases.antt =====
-- Conversations with a few messages, and their files.
use chango_assistant.Base.{
  List, Text, [], codes, false, if◌then◌else◌, is_some, lookup, none, not, refl, some, text_eq,
  true, ◌&&◌, ◌∷◌, ◌≡◌,
}
use chango_assistant.Base.Int64.{pos}
use chango_assistant.Providers.Types.{Message, plain}
use chango_assistant.Session.Disk.{save_collision, write_file_atomic}
use chango_assistant.Session.Files.{
  Directory, Entry, bad_name, is_json, new_session_manager, sanitize_filename, save, sync,
  write_file,
}
use chango_assistant.Session.History.{IsCut, truncate_history_lem}
use chango_assistant.Session.Manager.{Session, Sessions, get_history, truncate_history}
use chango_assistant.Session.Restart.{Named, save-restart}

abbrev user_message : Message
user_message = plain (codes "user") (codes "hello")

abbrev tool_result : Message
tool_result = plain (codes "tool") (codes "42")

abbrev session_of : Text → List Message → Session
session_of key ms = record { key = key; messages = ms; summary = []; created = 1; updated = 5 }

-- Two keys that differ in a colon and an underscore.
abbrev colon_key : Text
colon_key = codes "a:b"

abbrev underscore_key : Text
underscore_key = codes "a_b"

abbrev conversations : Sessions
conversations =
    (
      colon_key,
      session_of colon_key (user_message ∷ user_message ∷ tool_result ∷ user_message ∷ []),
    )
    ∷ (underscore_key, session_of underscore_key (user_message ∷ []))
    ∷ []

-- Cutting to two messages would start at a tool message: it is dropped too.
cut_run :
    get_history colon_key (truncate_history colon_key (pos 2) 9 conversations) ≡ user_message ∷ []
unfolding truncate_history get_history text_eq
cut_run = refl

truncate_history_lem_example :
    let sm' = truncate_history colon_key (pos 2) 9 conversations in
    IsCut 1 (get_history colon_key conversations) (get_history colon_key sm')
    × (get_history underscore_key sm' ≡ (
        if text_eq colon_key underscore_key
        then get_history colon_key sm'
        else get_history underscore_key conversations))
truncate_history_lem_example =
    truncate_history_lem colon_key underscore_key 1 9 conversations (unfold text_eq in refl)

abbrev other_files : Directory
other_files = (codes "x.json", Entry.malformed) ∷ []

write_file_atomic_example :
    let (dir', err) =
      write_file (some sync) true (codes "tmp") (codes "a.json") Entry.malformed other_files in
    lookup (codes "x.json") dir' ≡ (
      if text_eq (codes "a.json") (codes "x.json") && not (is_some err)
      then some Entry.malformed
      else lookup (codes "x.json") other_files)
write_file_atomic_example =
    write_file_atomic (some sync) true (codes "tmp") (codes "a.json") (codes "x.json")
      Entry.malformed other_files (λ e. cc)

save_collision_example :
    let dir = (save (λ s. s) true none true (codes "t") colon_key conversations []).0 in
    let restarted =
      new_session_manager true
        (save (λ s. s) true none true (codes "u") underscore_key conversations dir).0 in
    (lookup underscore_key restarted ≡ some (session_of underscore_key (user_message ∷ [])))
    × (lookup colon_key restarted ≡ none)
save_collision_example =
    save_collision (λ s. s) colon_key underscore_key (codes "t") (codes "u")
      (session_of colon_key (user_message ∷ user_message ∷ tool_result ∷ user_message ∷ []))
      (session_of underscore_key (user_message ∷ [])) conversations
      (unfold sanitize_filename in refl) (λ e. cc)
      (unfold bad_name sanitize_filename text_eq in refl) (unfold text_eq in refl)
      (unfold text_eq in refl) refl refl refl

other_files-Named : Named other_files
other_files-Named = ((λ r json e. absurd (cc)), refl, tt)

save-restart_example :
    let dir =
      (save (λ s. s) true none false (codes "t") underscore_key conversations other_files).0 in
    lookup (codes "z") (new_session_manager true dir) ≡ (
      if text_eq underscore_key (codes "z")
      then some (session_of underscore_key (user_message ∷ []))
      else lookup (codes "z") (new_session_manager true other_files))
save-restart_example =
    save-restart (λ s. s) false (codes "t") underscore_key (codes "z")
      (session_of underscore_key (user_message ∷ [])) conversations other_files other_files-Named
      (unfold text_eq in refl) refl (unfold bad_name sanitize_filename text_eq in refl)
      (unfold is_json in refl) refl refl (unfold sanitize_filename in λ e. cc)
