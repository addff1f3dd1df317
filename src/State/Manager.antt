-- ===== src/State/Manager.antt =====
-- pkg/state/state.go. The directory is the three files that the manager touches; JSON is a parameter:
-- `encode` prints a state, `decode` reads one over another and says whether it could.
use chango_assistant.Base.{
  Bool, List, Option, Text, [], codes, false, if◌then◌else◌, insert, lookup, none, some, true, ℕ,
  ◌++◌,
}

pub record State : Type 0 where
  pub last_channel : Text
  pub last_chat_id : Text
  pub timestamp : ℕ
  pub welcomed_users : List (Text × Bool)

abbrev pub empty_state : State
empty_state = record { last_channel = []; last_chat_id = []; timestamp = 0; welcomed_users = [] }

pub data File : Type 0 where
  missing : File
  unreadable : File
  content : Text → File

-- `state/state.json`, its temporary file, and `state.json` of old.
pub record Files : Type 0 where
  pub state_file : File
  pub temp_file : File
  pub old_file : File

-- Where a save fails: in the writing, which leaves something of the temporary file, or in the renaming.
pub data Fault : Type 0 where
  write : File → Fault
  rename : Fault

pub record Manager : Type 0 where
  pub state : State
  pub files : Files

module _ (encode : State → Text) where
  -- `saveAtomic`, its errors by their texts in front of the system's.
  unfoldable pub save_atomic : Option Fault → Manager → Manager × Option Text
  save_atomic none sm = (
    record sm {
      files = record sm.files { state_file = content (encode sm.state); temp_file = missing };
    },
    none,
  )
  save_atomic (some (write left)) sm = (
    record sm { files = record sm.files { temp_file = left } },
    some (codes "failed to write temp file: "),
  )
  save_atomic (some rename) sm = (
    record sm { files = record sm.files { temp_file = missing } },
    some (codes "failed to rename temp file: "),
  )

  abbrev pub wrap_error : Option Text → Option Text
  wrap_error none = none
  wrap_error (some e) = some (codes "failed to save state atomically: " ++ e)

  -- `SetLastChannel`.
  unfoldable pub set_last_channel : Text → ℕ → Option Fault → Manager → Manager × Option Text
  unfolding save_atomic
  set_last_channel channel now fault sm =
      let (sm', err) =
        save_atomic fault
          (record sm { state = record sm.state { last_channel = channel; timestamp = now } }) in
      (sm', wrap_error err)

  -- `SetLastChatID`.
  unfoldable pub set_last_chat_id : Text → ℕ → Option Fault → Manager → Manager × Option Text
  unfolding save_atomic
  set_last_chat_id chat_id now fault sm =
      let (sm', err) =
        save_atomic fault
          (record sm { state = record sm.state { last_chat_id = chat_id; timestamp = now } }) in
      (sm', wrap_error err)

  -- `MarkWelcomed`.
  unfoldable pub mark_welcomed : Text → ℕ → Option Fault → Manager → Manager × Option Text
  unfolding save_atomic insert
  mark_welcomed user now fault sm = save_atomic fault (record sm {
    state = record sm.state {
      welcomed_users = insert user true sm.state.welcomed_users;
      timestamp = now;
    };
  })

-- `GetLastChannel`.
unfoldable pub get_last_channel : Manager → Text
get_last_channel sm = sm.state.last_channel

-- `GetLastChatID`.
unfoldable pub get_last_chat_id : Manager → Text
get_last_chat_id sm = sm.state.last_chat_id

-- `GetTimestamp`.
unfoldable pub get_timestamp : Manager → ℕ
get_timestamp sm = sm.state.timestamp

abbrev pub is_set : Option Bool → Bool
is_set none = false
is_set (some b) = b

-- `HasBeenWelcomed`.
unfoldable pub has_been_welcomed : Text → Manager → Bool
has_been_welcomed user sm = is_set (lookup user sm.state.welcomed_users)

module _ (encode : State → Text) (decode : Text → State → State × Bool) where
  -- `load`, and whether it succeeds.
  unfoldable pub load : Files → State → State × Bool
  load files s = elim files.state_file [
    | missing ↦ (s, true)
    | unreadable ↦ (s, false)
    | content bytes ↦ decode bytes s
  ]

  abbrev pub migrate : Option Fault → File → Files → Manager
  unfolding save_atomic
  migrate fault missing files = record { state = empty_state; files = files }
  migrate fault unreadable files = record { state = empty_state; files = files }
  migrate fault (content bytes) files =
      let (s, ok) = decode bytes empty_state in
      if ok
      then (save_atomic encode fault (record { state = s; files = files })).0
      else record { state = s; files = files }

  abbrev pub open_state : Option Fault → File → Files → Manager
  unfolding load
  open_state fault missing files = migrate fault files.old_file files
  open_state fault unreadable files = record { state = (load files empty_state).0; files = files }
  open_state fault (content bytes) files = record {
    state = (load files empty_state).0;
    files = files;
  }

  -- `NewManager`.
  unfoldable pub new_manager : Option Fault → Files → Manager
  new_manager fault files = open_state fault files.state_file files
