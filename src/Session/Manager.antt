-- ===== src/Session/Manager.antt =====
-- The conversations in memory: pkg/session/manager.go, lines 14 to 176. A moment is a number of
-- nanoseconds, read from the clock by the caller and passed in.
use chango_assistant.Base.{
  Bool, List, Option, Text, [], codes, drop, if◌then◌else◌, insert, leb, length, lookup, none, some,
  suc, text_eq, zero, ℕ, ◌++◌, ◌-◌, ◌∷◌,
}
use chango_assistant.Base.Int64.{negsuc, pos, ℤ}
use chango_assistant.Providers.Types.{Message, plain}

pub record Session : Type 0 where
  pub key : Text
  pub messages : List Message
  pub summary : Text
  pub created : ℕ
  pub updated : ℕ

abbrev pub Sessions : Type 0
Sessions = List (Text × Session)

abbrev pub tool_role : Text
tool_role = codes "tool"

abbrev pub is_tool : Message → Bool
is_tool m = text_eq m.role tool_role

-- A session as `GetOrCreate` makes it.
abbrev pub new_session : Text → ℕ → Session
new_session key now = record {
  key = key;
  messages = [];
  summary = [];
  created = now;
  updated = now;
}

abbrev pub or_new : Text → ℕ → Option Session → Session
or_new key now none = new_session key now
or_new key now (some s) = s

-- `GetOrCreate`.
unfoldable pub get_or_create : Text → ℕ → Sessions → Session × Sessions
unfolding insert
get_or_create key now sm = elim (lookup key sm) [
  | some s ↦ (s, sm)
  | none ↦ (new_session key now, insert key (new_session key now) sm)
]

-- `AddFullMessage`; the clock is read once for a new session and once at the end. The zero time that
-- a new session has in between is written over.
unfoldable pub add_full_message : Text → Message → ℕ → ℕ → Sessions → Sessions
unfolding insert
add_full_message key msg now now' sm =
    let s = or_new key now (lookup key sm) in
    insert key (record s { messages = s.messages ++ msg ∷ []; updated = now' }) sm

-- `AddMessage`.
unfoldable pub add_message : Text → Text → Text → ℕ → ℕ → Sessions → Sessions
unfolding add_full_message
add_message key role content now now' sm = add_full_message key (plain role content) now now' sm

abbrev pub messages_of : Option Session → List Message
messages_of none = []
messages_of (some s) = s.messages

-- `GetHistory`, a copy.
unfoldable pub get_history : Text → Sessions → List Message
get_history key sm = messages_of (lookup key sm)

abbrev pub summary_of : Option Session → Text
summary_of none = []
summary_of (some s) = s.summary

-- `GetSummary`.
unfoldable pub get_summary : Text → Sessions → Text
get_summary key sm = summary_of (lookup key sm)

-- `SetSummary`.
unfoldable pub set_summary : Text → Text → ℕ → Sessions → Sessions
unfolding insert
set_summary key summary now sm = elim (lookup key sm) [
  | none ↦ sm
  | some s ↦ insert key (record s { summary = summary; updated = now }) sm
]

-- The loop of `TruncateHistory` that moves the cut past tool messages, on the messages from the cut.
unfoldable pub skip_tools : List Message → List Message
skip_tools [] = []
skip_tools (m ∷ ms) = if is_tool m then skip_tools ms else m ∷ ms

-- What `TruncateHistory` keeps of a history, `none` if it leaves the session alone.
unfoldable pub cut_history : ℤ → List Message → Option (List Message)
unfolding skip_tools
cut_history (negsuc n) ms = some []
cut_history (pos zero) ms = some []
cut_history (pos (suc n)) ms =
    if leb (length ms) (suc n) then none else some (skip_tools (drop (length ms - suc n) ms))

abbrev pub put_history : Text → Session → ℕ → Sessions → Option (List Message) → Sessions
put_history key s now sm none = sm
put_history key s now sm (some ms) = insert key (record s { messages = ms; updated = now }) sm

-- `TruncateHistory`.
unfoldable pub truncate_history : Text → ℤ → ℕ → Sessions → Sessions
unfolding cut_history insert
truncate_history key keep_last now sm = elim (lookup key sm) [
  | none ↦ sm
  | some s ↦ put_history key s now sm (cut_history keep_last s.messages)
]
