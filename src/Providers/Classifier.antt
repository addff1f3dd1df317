-- ===== src/Providers/Classifier.antt =====
-- pkg/providers/privacy_classifier.go. A weight or a score is a number of tenths. The regular
-- expressions are functions; so is the text analysis of the keyword search: lower case, fields and
-- the stripping of punctuation, which give the words of a text.
use chango_assistant.Base.{
  Bool, List, Option, Text, [], any, codes, false, if◌then◌else◌, is_some, leb, ltb, none, some,
  text_eq, true, ℕ, ◌&&◌, ◌++◌, ◌∷◌,
}
use chango_assistant.Providers.Types.{ContentPart, Message}

pub record PrivacyPattern : Type 0 where
  pub regex : Text → Bool
  pub reason : Text
  pub weight : ℕ

pub record ClassifyResult : Type 0 where
  pub sensitive : Bool
  pub reason : Text
  pub score : ℕ

-- `words` is the text analysis, `keywords` the configured ones in lower case.
pub record PrivacyClassifier : Type 0 where
  pub patterns : List PrivacyPattern
  pub keywords : List Text
  pub words : Text → List Text
  pub always_private_media : Bool
  pub fail_closed : Bool

abbrev pub user_role : Text
user_role = codes "user"

abbrev pub or_else : Option Message → Message → Option Message
or_else (some m) x = some m
or_else none x = if text_eq x.role user_role then some x else none

-- The search for the last user message, from the end.
unfoldable pub last_user : List Message → Option Message
last_user [] = none
last_user (m ∷ ms) = or_else (last_user ms) m

abbrev pub is_image : ContentPart → Bool
is_image p = text_eq p.kind (codes "image_url") && is_some p.image_url

-- The loop over the patterns: the score and the reason so far, and whether it returned early.
unfoldable pub match_patterns : Text → List PrivacyPattern → ℕ → Text → ℕ × Text × Bool
match_patterns content [] score reason = (score, reason, false)
match_patterns content (p ∷ ps) score reason =
    let better = p.regex content && ltb score p.weight in
    let score' = if better then p.weight else score in
    let reason' = if better then p.reason else reason in
    let rest = match_patterns content ps score' reason' in
    if p.regex content && leb 10 score' then (score', reason', true) else rest

abbrev pub is_keyword : List Text → Text → Bool
is_keyword ks w = any (λ k. text_eq k w) ks

-- The loop over the words.
unfoldable pub match_words : List Text → List Text → ℕ → Text → ℕ × Text
match_words ks [] score reason = (score, reason)
match_words ks (w ∷ ws) score reason =
    let hit = is_keyword ks w && ltb score 8 in
    match_words ks ws (if hit then 8 else score) (if hit then codes "keyword_" ++ w else reason)

abbrev pub then_words : PrivacyClassifier → Text → ℕ × Text × Bool → ℕ × Text
then_words pc content (score, reason, true) = (score, reason)
then_words pc content (score, reason, false) =
    match_words pc.keywords (pc.words content) score reason

abbrev is_empty : Text → Bool
is_empty [] = true
is_empty (c ∷ s) = false

-- `tier1`.
unfoldable pub tier1 : PrivacyClassifier → Text → ℕ × Text
unfolding match_patterns match_words
tier1 pc content =
    if is_empty content
    then (0, [])
    else then_words pc content (match_patterns content pc.patterns 0 [])

abbrev pub result : Bool → Text → ℕ → ClassifyResult
result sensitive reason score = record { sensitive = sensitive; reason = reason; score = score }

-- The end of `Classify`, on the score and the reason of the first tier.
unfoldable pub judge : PrivacyClassifier → ℕ × Text → ClassifyResult
judge pc (score, reason) =
    if leb 10 score
    then result true reason score
    else if leb 8 score && pc.fail_closed
    then result true (reason ++ codes "_fail_closed") score
    else result false (codes "clean") score

unfoldable pub classify_message : PrivacyClassifier → Option Message → ClassifyResult
unfolding tier1 judge
classify_message pc none = result false (codes "no_user_message") 0
classify_message pc (some m) =
    if pc.always_private_media && any is_image m.parts
    then result true (codes "image_detected") 10
    else judge pc (tier1 pc m.content)

-- `Classify`.
unfoldable pub classify : PrivacyClassifier → List Message → ClassifyResult
unfolding last_user classify_message
classify pc ms = classify_message pc (last_user ms)
