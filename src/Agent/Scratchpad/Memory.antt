-- ===== src/Agent/Scratchpad/Memory.antt =====
-- The sessions of pkg/agent/scratchpad.go and the operations on them. `Get` is modelled by what it
-- returns; times are numbers.
use chango_assistant.Base.{
  Bool, List, Option, Text, [], any, codes, contains, delete, drop, if◌then◌else◌, insert, is_nil,
  join_texts, keep, length, lookup, ltb, none, not, some, text_eq, trim_space, utf8, ℕ, ◌&&◌, ◌++◌,
  ◌+◌, ◌||◌, ◌∷◌,
}
use chango_assistant.Agent.Scratchpad.Hints.{
  HintEnv, append_capped, detect_contradiction, detect_emotion, detect_pattern, extract_topic,
  split_sentences,
}

-- `ScratchpadState`.
pub record ScratchpadState : Type 0 where
  pub hypotheses : List Text
  pub contradictions : List Text
  pub open_questions : List Text
  pub patterns : List Text
  pub emotional_read : Text
  pub topic_trail : List Text
  pub updated_at : ℕ

-- `sessions`.
abbrev pub Scratchpad : Type 0
Scratchpad = List (Text × ScratchpadState)

abbrev pub empty_state : ScratchpadState
empty_state = record {
  hypotheses = [];
  contradictions = [];
  open_questions = [];
  patterns = [];
  emotional_read = [];
  topic_trail = [];
  updated_at = 0;
}

abbrev pub or_new : Option ScratchpadState → ScratchpadState
or_new none = empty_state
or_new (some state) = state

-- `NewScratchpad`.
abbrev pub new_scratchpad : Scratchpad
new_scratchpad = []

-- `Get`.
unfoldable pub get_state : Text → Scratchpad → ScratchpadState
get_state key pad = or_new (lookup key pad)

-- `maxScratchpadItems` and `maxTopicTrail`.
abbrev pub max_items : ℕ
max_items = 5

abbrev pub max_topics : ℕ
max_topics = 10

abbrev pub question_mark : Text
question_mark = codes "?"

-- Step 1 of `Update`.
unfoldable pub note_topic : HintEnv → Text → ScratchpadState → ScratchpadState
unfolding extract_topic append_capped
note_topic env msg state =
    let topic = extract_topic env msg in
    if is_nil topic
    then state
    else record state { topic_trail = append_capped state.topic_trail topic max_topics }

-- The loop of step 2.
unfoldable pub add_questions : List Text → List Text → List Text
unfolding contains trim_space append_capped
add_questions [] questions = questions
add_questions (sentence ∷ rest) questions =
    let q = trim_space sentence in
    add_questions rest (
      if contains sentence question_mark && ltb 10 (length q)
      then append_capped questions q max_items
      else questions)

-- Step 2.
unfoldable pub note_questions : Text → ScratchpadState → ScratchpadState
unfolding add_questions contains split_sentences
note_questions msg state =
    if contains msg question_mark
    then record state {
      open_questions = add_questions (split_sentences [] msg) state.open_questions;
    }
    else state

-- Step 3.
unfoldable pub note_emotion : HintEnv → Text → ScratchpadState → ScratchpadState
unfolding detect_emotion
note_emotion env msg state =
    let emotional = detect_emotion env msg in
    if is_nil emotional then state else record state { emotional_read = emotional }

-- Step 4.
unfoldable pub note_contradiction : HintEnv → Text → ScratchpadState → ScratchpadState
unfolding detect_contradiction append_capped
note_contradiction env msg state =
    let contradiction = detect_contradiction env msg state.topic_trail in
    if is_nil contradiction then state else record state {
      contradictions = append_capped state.contradictions contradiction max_items;
    }

-- Step 5.
unfoldable pub note_pattern : HintEnv → ScratchpadState → ScratchpadState
unfolding detect_pattern append_capped text_eq
note_pattern env state =
    let pattern = detect_pattern env state.topic_trail in
    if is_nil pattern || any (λ p. text_eq p pattern) state.patterns
    then state
    else record state { patterns = append_capped state.patterns pattern max_items }

-- Step 6.
unfoldable pub note_answer : Text → ScratchpadState → ScratchpadState
unfolding contains
note_answer response state =
    if ltb 50 (length response)
      && (not (contains response question_mark) && not (is_nil state.open_questions))
    then record state { open_questions = drop 1 state.open_questions }
    else state

-- The steps of `Update` on one state.
unfoldable pub update_state : HintEnv → ℕ → Text → Text → ScratchpadState → ScratchpadState
unfolding note_topic note_questions note_emotion note_contradiction note_pattern note_answer
update_state env now msg response state = note_answer response (
    note_pattern env (
      note_contradiction env msg (
        note_emotion env msg
          (note_questions msg (note_topic env msg (record state { updated_at = now }))))))

-- `Update`.
unfoldable pub update : HintEnv → ℕ → Text → Text → Text → Scratchpad → Scratchpad
unfolding update_state get_state insert
update env now key msg response pad =
    insert key (update_state env now msg response (get_state key pad)) pad

abbrev pub part : Text → Text → List Text → List Text
part label sep [] = []
part label sep (x ∷ xs) = (label ++ join_texts sep (x ∷ xs)) ∷ []

abbrev pub lines : List Text → Text
lines [] = []
lines (p ∷ ps) =
    codes "## Working Memory (active thoughts for this conversation)"
    ++ 10 ∷ join_texts (10 ∷ []) (p ∷ ps)

abbrev pub one_if_any : Text → List Text
one_if_any [] = []
one_if_any (c ∷ s) = (c ∷ s) ∷ []

-- `Format`.
unfoldable pub format : Text → Scratchpad → Text
unfolding get_state utf8
format key pad =
    let state = get_state key pad in
    lines (
      part (codes "- Topics: ") (utf8 " → ") state.topic_trail
      ++ part (codes "- Emotional read: ") [] (one_if_any state.emotional_read)
      ++ part (codes "- Open questions: ") (codes "; ") state.open_questions
      ++ part (codes "- Patterns: ") (codes "; ") state.patterns
      ++ part (codes "- Contradictions: ") (codes "; ") state.contradictions)

-- `Clear`.
unfoldable pub clear : Text → Scratchpad → Scratchpad
unfolding delete
clear key pad = delete key pad

-- `state.UpdatedAt.Before(cutoff)` for the cutoff `now - max_age`.
unfoldable pub is_stale : ℕ → ℕ → Text × ScratchpadState → Bool
is_stale now max_age (key, state) = ltb (state.updated_at + max_age) now

-- `CleanupStale`: the sessions that stay, and how many were removed.
unfoldable pub cleanup_stale : ℕ → ℕ → Scratchpad → Scratchpad × ℕ
unfolding is_stale
cleanup_stale now max_age pad =
    (keep (λ e. not (is_stale now max_age e)) pad, length (keep (is_stale now max_age) pad))
