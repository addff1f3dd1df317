-- ===== src/Agent/Scratchpad/Hints.antt =====
-- The heuristics of pkg/agent/scratchpad.go: topics, emotions, contradictions, patterns and sentences.
use chango_assistant.Base.{
  Bool, List, Option, Text, [], any, codes, contains, drop, if◌then◌else◌, insert, is_nil,
  join_texts, keep, leb, length, lookup, ltb, none, not, reverse, some, take, text_eq, trim_space,
  utf8, ℕ, ◌&&◌, ◌++◌, ◌+◌, ◌-◌, ◌==◌, ◌||◌, ◌∷◌,
}

-- What the heuristics use: the change of case, `strings.Fields`, and the orders in which the maps of
-- signals and of word counts are read.
pub record HintEnv : Type 0 where
  pub lower : Text → Text
  pub fields : Text → List Text
  pub signal_order : List (Text × Text) → List (Text × Text)
  pub count_order : List (Text × ℕ) → List (Text × ℕ)

-- `appendCapped`.
unfoldable pub append_capped : List Text → Text → ℕ → List Text
append_capped slice item max_len =
    let longer = slice ++ item ∷ [] in
    if ltb max_len (length longer) then drop (length longer - max_len) longer else longer

-- The bytes that belong to a word: lower case letters, digits, and those of other characters.
abbrev pub in_word : ℕ → Bool
in_word c = (leb 97 c && leb c 122) || ((leb 48 c && leb c 57) || leb 128 c)

abbrev pub unless_nil : Text → List Text → List Text
unless_nil [] ws = ws
unless_nil (c ∷ w) ws = reverse (c ∷ w) ∷ ws

-- `strings.FieldsFunc`, with the bytes of the current word in reverse.
unfoldable pub words_of : Text → Text → List Text
words_of word [] = unless_nil word []
words_of word (c ∷ s) =
    let longer = words_of (c ∷ word) s in
    let rest = words_of [] s in if in_word c then longer else unless_nil word rest

-- `scratchpadStopWords`.
unfoldable pub stop_words : List Text
unfolding utf8
stop_words =
    codes "que"
    ∷ codes "los"
    ∷ codes "las"
    ∷ codes "del"
    ∷ codes "una"
    ∷ codes "con"
    ∷ codes "por"
    ∷ codes "para"
    ∷ codes "como"
    ∷ codes "pero"
    ∷ utf8 "más"
    ∷ codes "mas"
    ∷ codes "este"
    ∷ codes "esta"
    ∷ codes "esto"
    ∷ codes "eso"
    ∷ codes "ese"
    ∷ codes "esa"
    ∷ codes "son"
    ∷ codes "ser"
    ∷ codes "hay"
    ∷ utf8 "está"
    ∷ codes "tiene"
    ∷ codes "todo"
    ∷ utf8 "también"
    ∷ codes "muy"
    ∷ codes "puede"
    ∷ codes "hacer"
    ∷ codes "quiero"
    ∷ codes "tengo"
    ∷ codes "estoy"
    ∷ codes "algo"
    ∷ utf8 "cómo"
    ∷ codes "cuando"
    ∷ codes "donde"
    ∷ utf8 "qué"
    ∷ codes "solo"
    ∷ codes "bien"
    ∷ codes "ahora"
    ∷ codes "the"
    ∷ codes "and"
    ∷ codes "for"
    ∷ codes "are"
    ∷ codes "but"
    ∷ codes "not"
    ∷ codes "you"
    ∷ codes "all"
    ∷ codes "can"
    ∷ codes "had"
    ∷ codes "her"
    ∷ codes "was"
    ∷ codes "one"
    ∷ codes "our"
    ∷ codes "out"
    ∷ codes "has"
    ∷ codes "have"
    ∷ codes "been"
    ∷ codes "some"
    ∷ codes "them"
    ∷ codes "than"
    ∷ codes "its"
    ∷ codes "over"
    ∷ codes "such"
    ∷ codes "that"
    ∷ codes "with"
    ∷ codes "this"
    ∷ codes "will"
    ∷ codes "each"
    ∷ codes "from"
    ∷ codes "they"
    ∷ codes "what"
    ∷ codes "about"
    ∷ codes "would"
    ∷ codes "there"
    ∷ codes "their"
    ∷ codes "just"
    ∷ codes "into"
    ∷ codes "also"
    ∷ codes "could"
    ∷ codes "which"
    ∷ codes "then"
    ∷ []

-- `scratchpadTokenize`.
unfoldable pub tokenize : HintEnv → Text → List Text
unfolding words_of stop_words text_eq
tokenize env msg =
    keep (λ w. not (ltb (length w) 3) && not (any (λ stop. text_eq stop w) stop_words))
      (words_of [] (env.lower msg))

-- `extractTopic`, with `topicWordCount` words.
unfoldable pub extract_topic : HintEnv → Text → Text
unfolding tokenize
extract_topic env msg = join_texts (codes " ") (take 4 (tokenize env msg))

-- `emotionSignals`.
unfoldable pub emotion_signals : List (Text × Text)
unfolding utf8
emotion_signals =
    (codes "frustrado", codes "frustrated")
    ∷ (codes "frustrada", codes "frustrated")
    ∷ (codes "no funciona", codes "frustrated")
    ∷ (codes "no anda", codes "frustrated")
    ∷ (utf8 "no entendés", codes "frustrated")
    ∷ (codes "harto", codes "frustrated")
    ∷ (codes "cansado", codes "frustrated")
    ∷ (codes "genial", codes "positive, engaged")
    ∷ (codes "perfecto", codes "positive, satisfied")
    ∷ (codes "excelente", codes "positive, satisfied")
    ∷ (utf8 "buenísimo", codes "positive, excited")
    ∷ (codes "gracias", codes "appreciative")
    ∷ (codes "joya", codes "positive, satisfied")
    ∷ (codes "crack", codes "positive, appreciative")
    ∷ (codes "urgente", codes "urgent")
    ∷ (codes "apurado", codes "urgent, time-pressured")
    ∷ (utf8 "rápido", codes "urgent")
    ∷ (codes "ya mismo", codes "urgent, immediate")
    ∷ (codes "necesito", codes "focused, determined")
    ∷ (codes "no entiendo", codes "confused")
    ∷ (codes "confundido", codes "confused")
    ∷ (codes "confundida", codes "confused")
    ∷ (codes "perdido", codes "confused, lost")
    ∷ (codes "interesante", codes "curious, engaged")
    ∷ (codes "contame", codes "curious, interested")
    ∷ (codes "explicame", codes "curious, wants depth")
    ∷ []

-- The loop of `detectEmotion`.
unfoldable pub first_signal : Text → List (Text × Text) → Text
unfolding contains
first_signal lower [] = []
first_signal lower ((signal, emotion) ∷ rest) =
    if contains lower signal then emotion else first_signal lower rest

-- `detectEmotion`.
unfoldable pub detect_emotion : HintEnv → Text → Text
unfolding first_signal emotion_signals
detect_emotion env msg = first_signal (env.lower msg) (env.signal_order emotion_signals)

-- `negationPairs`.
unfoldable pub negation_pairs : List (Text × Text)
unfolding utf8
negation_pairs =
    (codes "quiero", codes "no quiero")
    ∷ (codes "necesito", codes "no necesito")
    ∷ (codes "vamos", codes "no vamos")
    ∷ (utf8 "sí", codes "no")
    ∷ (codes "acepto", codes "no acepto")
    ∷ (codes "me gusta", codes "no me gusta")
    ∷ (codes "funciona", codes "no funciona")
    ∷ []

abbrev pub conflict : Text → Text → Text
conflict now earlier =
    codes "said '" ++ now ++ codes "' now but earlier context suggested '" ++ earlier ++ codes "'"

-- The loop of `detectContradiction`.
unfoldable pub first_conflict : Text → Text → List (Text × Text) → Text
unfolding contains
first_conflict lower trail [] = []
first_conflict lower trail ((affirm, negate) ∷ rest) =
    if contains lower negate && contains trail affirm
    then conflict negate affirm
    else if contains lower affirm && contains trail negate
    then conflict affirm negate
    else first_conflict lower trail rest

-- `detectContradiction`; it does not read the hypotheses.
unfoldable pub detect_contradiction : HintEnv → Text → List Text → Text
unfolding first_conflict negation_pairs
detect_contradiction env msg topic_trail =
    first_conflict (env.lower msg) (env.lower (join_texts (codes " ") topic_trail)) negation_pairs

-- `freq[w]++` for each word that the topic has not shown yet.
unfoldable pub count_words : HintEnv → List Text → List Text → List (Text × ℕ) → List (Text × ℕ)
unfolding text_eq insert
count_words env seen [] freq = freq
count_words env seen (word ∷ ws) freq =
    let w = env.lower word in
    let skipped = count_words env seen ws freq in
    let counted = count_words env (w ∷ seen) ws (insert w (count_of (lookup w freq) + 1) freq) in
    if any (λ s. text_eq s w) seen then skipped else counted
  where
    count_of : Option ℕ → ℕ
    count_of none = 0
    count_of (some n) = n

-- The loop over the topics.
unfoldable pub count_topics : HintEnv → List Text → List (Text × ℕ) → List (Text × ℕ)
unfolding count_words
count_topics env [] freq = freq
count_topics env (topic ∷ topics) freq =
    count_topics env topics (count_words env [] (env.fields topic) freq)

-- The loop over the counts.
unfoldable pub first_recurring : List (Text × ℕ) → Text
first_recurring [] = []
first_recurring ((word, count) ∷ rest) =
    if leb 3 count && leb 3 (length word)
    then codes "keeps coming back to '" ++ word ++ codes "' topic"
    else first_recurring rest

-- `detectPattern`.
unfoldable pub detect_pattern : HintEnv → List Text → Text
unfolding count_topics first_recurring
detect_pattern env topic_trail =
    if ltb (length topic_trail) 3
    then []
    else first_recurring (env.count_order (count_topics env topic_trail []))

abbrev pub ends_sentence : ℕ → Bool
ends_sentence c = (c == 46) || ((c == 63) || ((c == 33) || (c == 10)))

-- `if s != ""`, in front of the other sentences.
unfoldable pub with_sentence : Text → List Text → List Text
unfolding trim_space
with_sentence s rest = if is_nil (trim_space s) then rest else trim_space s ∷ rest

-- `splitSentences`, with the bytes of the current one in reverse.
unfoldable pub split_sentences : Text → Text → List Text
unfolding with_sentence
split_sentences current [] = with_sentence (reverse current) []
split_sentences current (c ∷ s) =
    let longer = split_sentences (c ∷ current) s in
    let rest = split_sentences [] s in
    if ends_sentence c then with_sentence (reverse (c ∷ current)) rest else longer
