-- ===== src/Session/Files.antt =====
-- The conversations as files: pkg/session/manager.go, lines 28 to 54 and 178 to 321. A directory is
-- a map from names to entries; a file holds a session, or what does not parse as one.
use chango_assistant.Base.{
  Bool, List, Option, Text, [], any, codes, delete, false, has_prefix, if◌then◌else◌, insert,
  lookup, ltb, none, not, replace_byte, reverse, some, suc, text_eq, true, ℕ, ◌&&◌, ◌++◌, ◌==◌,
  ◌||◌, ◌∷◌,
}
use chango_assistant.Providers.Types.{Message}
use chango_assistant.Session.Manager.{Session, Sessions}

pub data Entry : Type 0 where
  directory unreadable malformed : Entry
  holds : Session → Entry

abbrev pub Directory : Type 0
Directory = List (Text × Entry)

-- `sanitizeFilename`.
unfoldable pub sanitize_filename : Text → Text
unfolding replace_byte
sanitize_filename key = replace_byte b':' b'_' key

abbrev pub file_name : Text → Text
file_name key = sanitize_filename key ++ codes ".json"

-- `filepath.IsLocal` on Unix, of a name with no separator in it.
unfoldable pub is_local : Text → Bool
unfolding text_eq
is_local name = not (text_eq name [] || text_eq name (codes ".."))

unfoldable pub has_byte : ℕ → Text → Bool
has_byte c [] = false
has_byte c (a ∷ s) = (a == c) || has_byte c s

-- The guard of `Save`. A name with a separator is refused by the last test, whatever the second says.
unfoldable pub bad_name : Text → Bool
unfolding text_eq is_local has_byte
bad_name name =
    text_eq name (codes ".") || (not (is_local name) || (has_byte b'/' name || has_byte b'\\' name))

abbrev pub has_parts : Message → Bool
has_parts m = elim m.parts [ [] ↦ false | p ∷ ps ↦ true ]

-- What a session's JSON reads as: the content of a message with parts is written as an array, which
-- does not parse as the string that it is read into. `read_back` is what `json.Unmarshal` makes of the
-- JSON of any other session, in which bytes that are no UTF-8 are replaced.
unfoldable pub encode : (Session → Session) → Session → Entry
encode read_back s = if any has_parts s.messages then malformed else holds (read_back s)

-- Where writing the temporary file stops.
pub data Fault : Type 0 where
  create write chmod sync close rename : Fault

pub data SaveError : Type 0 where
  invalid : SaveError
  failed : Fault → SaveError

-- The file operations at the end of `Save`: a temporary file under a fresh name, renamed over the
-- session's file, or removed after a fault (`gone` says whether the removal succeeds).
unfoldable pub write_file :
    Option Fault → Bool → Text → Text → Entry → Directory → Directory × Option SaveError
unfolding insert delete
write_file none gone tmp path content dir =
    (insert path content (delete tmp (insert tmp content dir)), none)
write_file (some create) gone tmp path content dir = (dir, some (failed create))
write_file (some f) gone tmp path content dir =
    (if gone then delete tmp (insert tmp content dir) else insert tmp content dir, some (failed f))

-- `Save`; `stored` says whether the manager has a storage directory.
unfoldable pub save :
    (Session → Session)
    → Bool
    → Option Fault
    → Bool
    → Text
    → Text
    → Sessions
    → Directory
    → Directory × Option SaveError
unfolding sanitize_filename bad_name encode write_file
save read_back false fault gone tmp key sm dir = (dir, none)
save read_back true fault gone tmp key sm dir =
    if bad_name (sanitize_filename key) then (dir, some invalid) else elim (lookup key sm) [
      | none ↦ (dir, none)
      | some s ↦ write_file fault gone tmp (file_name key) (encode read_back s) dir
    ]

-- One round of the loop of `CleanupOldSessions`, on the sessions that are left to visit.
unfoldable pub cleanup_old_sessions :
    Bool → (Text → Bool) → ℕ → Sessions → Directory → Sessions × Directory × ℕ
unfolding sanitize_filename delete
cleanup_old_sessions stored gone cutoff [] dir = ([], dir, 0)
cleanup_old_sessions stored gone cutoff ((key, s) ∷ sm) dir =
    let old = ltb s.updated cutoff in
    let dir' =
      if old && (stored && gone (file_name key)) then delete (file_name key) dir else dir in
    let (sm', dir'', removed) = cleanup_old_sessions stored gone cutoff sm dir' in
    if old then (sm', dir'', suc removed) else ((key, s) ∷ sm', dir'', removed)

-- `filepath.Ext(name) == ".json"`: the last dot is that of the suffix.
unfoldable pub is_json : Text → Bool
unfolding has_prefix
is_json name = has_prefix (reverse name) (codes "nosj.")

abbrev pub load_entry : Bool → Entry → Sessions → Sessions
load_entry false e sm = sm
load_entry true directory sm = sm
load_entry true unreadable sm = sm
load_entry true malformed sm = sm
load_entry true (holds s) sm = insert s.key s sm

-- The loop of `loadSessions` over the directory.
unfoldable pub load_sessions : Directory → Sessions → Sessions
unfolding insert is_json
load_sessions [] sm = sm
load_sessions ((name, e) ∷ dir) sm = load_sessions dir (load_entry (is_json name) e sm)

-- `NewSessionManager`, before the first cleanup, which is `cleanup_old_sessions` again.
unfoldable pub new_session_manager : Bool → Directory → Sessions
unfolding load_sessions
new_session_manager stored dir = if stored then load_sessions dir [] else []
