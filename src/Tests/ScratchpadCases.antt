-- ===== src/Tests/ScratchpadCases.antt =====
-- The working memory on one message.
use chango_assistant.Base.{
  List, Text, [], codes, contains, has_prefix, insert, refl, text_eq, utf8, ◌∷◌, ◌≡◌,
}
use chango_assistant.Agent.Scratchpad.Bounds.{
  Call, IsBounded, call, calls, calls-IsBounded, cleans, updates,
}
use chango_assistant.Agent.Scratchpad.Hints.{
  HintEnv, append_capped, conflict, detect_contradiction, detect_emotion, detect_pattern,
  emotion_signals, extract_topic, first_conflict, first_signal, negation_pairs, stop_words,
  tokenize, words_of,
}
use chango_assistant.Agent.Scratchpad.Memory.{
  cleanup_stale, clear, get_state, is_stale, new_scratchpad, note_answer, note_contradiction,
  note_emotion, note_pattern, note_questions, note_topic, update_state,
}
use chango_assistant.Tools.Tasks.{update}

abbrev env : HintEnv
env = record {
  lower = λ t. t;
  fields = λ t. t ∷ [];
  signal_order = λ signals. signals;
  count_order = λ counts. counts;
}

abbrev key : Text
key = codes "cli:direct"

abbrev two_calls : List Call
two_calls = updates env 7 key (codes "no necesito ayuda") (codes "bien") ∷ cleans 20 30 ∷ []

-- The first message of a conversation is held against its own topic.
first_message_contradicts :
    (get_state key (calls two_calls new_scratchpad)).contradictions
    ≡ conflict (codes "no necesito") (codes "necesito") ∷ []
unfolding get_state calls call update clear cleanup_stale is_stale update_state note_topic
    note_questions note_emotion note_contradiction note_pattern note_answer extract_topic tokenize
    words_of stop_words append_capped detect_contradiction first_conflict negation_pairs contains
    has_prefix detect_emotion first_signal emotion_signals utf8 text_eq insert detect_pattern
first_message_contradicts = refl

calls-IsBounded_example : IsBounded (get_state key (calls two_calls new_scratchpad))
calls-IsBounded_example = calls-IsBounded two_calls key
