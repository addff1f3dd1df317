-- ===== src/Agent/Scratchpad/Bounds.antt =====
-- The lists of pkg/agent/scratchpad.go stay short, and sessions do not touch each other.
use chango_assistant.Base.{
  All, All-keep, List, Text, [], any, arith, contains, delete, if_both, insert, is_nil, length,
  length-drop, lookup, ltb, not, refl, some, text_eq, trim_space, ℕ, ◌&&◌, ◌++◌, ◌-◌, ◌||◌, ◌∷◌,
  ◌≡◌, ◌≤◌,
}
use chango_assistant.Agent.Scratchpad.Hints.{
  HintEnv, append_capped, detect_contradiction, detect_emotion, detect_pattern, extract_topic,
  split_sentences,
}
use chango_assistant.Agent.Scratchpad.Memory.{
  Scratchpad, ScratchpadState, add_questions, cleanup_stale, clear, empty_state, get_state,
  is_stale, max_items, max_topics, new_scratchpad, note_answer, note_contradiction, note_emotion,
  note_pattern, note_questions, note_topic, or_new, question_mark, update, update_state,
}

-- No list is longer than its limit.
abbrev pub IsBounded : ScratchpadState → Type 0
IsBounded state =
    (length state.topic_trail ≤ max_topics)
    × ((length state.open_questions ≤ max_items)
        × ((length state.contradictions ≤ max_items)
            × ((length state.patterns ≤ max_items) × (state.hypotheses ≡ []))))

append_capped-le :
    (slice : List Text) (item : Text) (max_len : ℕ)
    → length (append_capped slice item max_len) ≤ max_len
unfolding append_capped
append_capped-le slice item max_len =
    ground (arith, length-drop (length (slice ++ item ∷ []) - max_len) (slice ++ item ∷ []))

add_questions-le :
    (sentences questions : List Text)
    → length questions ≤ max_items
    → length (add_questions sentences questions) ≤ max_items
unfolding add_questions
add_questions-le [] questions h = h
add_questions-le (s ∷ ss) questions h = add_questions-le ss _ (
    if_both (λ qs. length qs ≤ max_items)
      (contains s question_mark && ltb 10 (length (trim_space s)))
      (append_capped questions (trim_space s) max_items) questions
      (append_capped-le questions (trim_space s) max_items) h)

module _ (env : HintEnv) (msg : Text) where
  note_topic-IsBounded : (s : ScratchpadState) → IsBounded s → IsBounded (note_topic env msg s)
  unfolding note_topic
  note_topic-IsBounded s b =
      if_both IsBounded (is_nil (extract_topic env msg)) _ _ b
        (append_capped-le s.topic_trail (extract_topic env msg) max_topics, b.1)

  note_questions-IsBounded : (s : ScratchpadState) → IsBounded s → IsBounded (note_questions msg s)
  unfolding note_questions
  note_questions-IsBounded s b =
      if_both IsBounded (contains msg question_mark) _ _
        (b.0, (add_questions-le (split_sentences [] msg) s.open_questions b.1.0, b.1.1)) b

  note_emotion-IsBounded : (s : ScratchpadState) → IsBounded s → IsBounded (note_emotion env msg s)
  unfolding note_emotion
  note_emotion-IsBounded s b = if_both IsBounded (is_nil (detect_emotion env msg)) _ _ b b

  note_contradiction-IsBounded :
      (s : ScratchpadState) → IsBounded s → IsBounded (note_contradiction env msg s)
  unfolding note_contradiction
  note_contradiction-IsBounded s b =
      if_both IsBounded (is_nil (detect_contradiction env msg s.topic_trail)) _ _ b (
        b.0,
        (
          b.1.0,
          (
            append_capped-le s.contradictions (detect_contradiction env msg s.topic_trail)
                max_items,
            b.1.1.1,
          ),
        ),
      )

note_pattern-IsBounded :
    (env : HintEnv) (s : ScratchpadState) → IsBounded s → IsBounded (note_pattern env s)
unfolding note_pattern
note_pattern-IsBounded env s b =
    let pattern = detect_pattern env s.topic_trail in
    if_both IsBounded (is_nil pattern || any (λ p. text_eq p pattern) s.patterns) _ _ b
      (b.0, (b.1.0, (b.1.1.0, (append_capped-le s.patterns pattern max_items, b.1.1.1.1))))

note_answer-IsBounded :
    (response : Text) (s : ScratchpadState) → IsBounded s → IsBounded (note_answer response s)
unfolding note_answer
note_answer-IsBounded response s b =
    if_both IsBounded
      (ltb 50 (length response)
        && (not (contains response question_mark) && not (is_nil s.open_questions)))
      _ _ (b.0, (omega (arith, b.1.0, length-drop 1 s.open_questions), b.1.1)) b

update_state-IsBounded :
    (env : HintEnv) (now : ℕ) (msg response : Text) (s : ScratchpadState)
    → IsBounded s
    → IsBounded (update_state env now msg response s)
unfolding update_state
update_state-IsBounded env now msg response s b = note_answer-IsBounded response _ (
    note_pattern-IsBounded env _ (
      note_contradiction-IsBounded env msg _ (
        note_emotion-IsBounded env msg _ (
          note_questions-IsBounded env msg _
            (note_topic-IsBounded env msg (record s { updated_at = now }) b)))))

-- Every session is bounded.
abbrev AllBounded : Scratchpad → Type 0
AllBounded pad = All (λ e. IsBounded e.1) pad

-- A call of the scratchpad.
pub data Call : Type 0 where
  updates : HintEnv → ℕ → Text → Text → Text → Call
  clears : Text → Call
  cleans : ℕ → ℕ → Call

unfoldable pub call : Call → Scratchpad → Scratchpad
unfolding update clear cleanup_stale
call (updates env now key msg response) pad = update env now key msg response pad
call (clears key) pad = clear key pad
call (cleans now max_age) pad = (cleanup_stale now max_age pad).0

unfoldable pub calls : List Call → Scratchpad → Scratchpad
unfolding call
calls [] pad = pad
calls (c ∷ cs) pad = calls cs (call c pad)

empty-IsBounded : IsBounded empty_state
empty-IsBounded = (omega arith, (omega arith, (omega arith, (omega arith, refl))))

get_state-IsBounded :
    (key : Text) (pad : Scratchpad) → AllBounded pad → IsBounded (get_state key pad)
unfolding get_state
get_state-IsBounded key [] h = empty-IsBounded
get_state-IsBounded key ((k, s) ∷ pad) h =
    if_both (λ o. IsBounded (or_new o)) (text_eq k key) (some s) (lookup key pad) h.0
      (get_state-IsBounded key pad h.1)

insert-AllBounded :
    (key : Text) (s : ScratchpadState) (pad : Scratchpad)
    → IsBounded s
    → AllBounded pad
    → AllBounded (insert key s pad)
unfolding insert
insert-AllBounded key s [] b h = (b, tt)
insert-AllBounded key s ((k, t) ∷ pad) b h =
    if_both AllBounded (text_eq k key) ((key, s) ∷ pad) ((k, t) ∷ insert key s pad) (b, h.1)
      (h.0, insert-AllBounded key s pad b h.1)

delete-AllBounded : (key : Text) (pad : Scratchpad) → AllBounded pad → AllBounded (delete key pad)
unfolding delete
delete-AllBounded key [] h = tt
delete-AllBounded key ((k, t) ∷ pad) h =
    if_both AllBounded (text_eq k key) (delete key pad) ((k, t) ∷ delete key pad)
      (delete-AllBounded key pad h.1) (h.0, delete-AllBounded key pad h.1)

call-AllBounded : (c : Call) (pad : Scratchpad) → AllBounded pad → AllBounded (call c pad)
unfolding call update clear cleanup_stale
call-AllBounded (updates env now key msg response) pad h =
    insert-AllBounded key (update_state env now msg response (get_state key pad)) pad
      (update_state-IsBounded env now msg response (get_state key pad)
        (get_state-IsBounded key pad h))
      h
call-AllBounded (clears key) pad h = delete-AllBounded key pad h
call-AllBounded (cleans now max_age) pad h =
    All-keep (λ e. IsBounded e.1) (λ e. not (is_stale now max_age e)) pad h

calls-AllBounded : (cs : List Call) (pad : Scratchpad) → AllBounded pad → AllBounded (calls cs pad)
unfolding calls
calls-AllBounded [] pad h = h
calls-AllBounded (c ∷ cs) pad h = calls-AllBounded cs (call c pad) (call-AllBounded c pad h)

-- After any updates, clears and cleanups of a new scratchpad, in any order and with any messages, the
-- state of every session has at most 10 topics, 5 open questions, 5 contradictions and 5 patterns, and
-- no hypothesis.
pub calls-IsBounded :
    (cs : List Call) (key : Text) → IsBounded (get_state key (calls cs new_scratchpad))
calls-IsBounded cs key =
    get_state-IsBounded key (calls cs new_scratchpad) (calls-AllBounded cs new_scratchpad tt)
