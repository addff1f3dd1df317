-- ===== src/Providers/Score.antt =====
-- The score of pkg/providers/privacy_classifier.go, and an independent description of it.
use chango_assistant.Base.{
  All, Bool, List, Text, [], any, arith, codes, false, if◌then◌else◌, leb, ltb, max, refl, some,
  true, ℕ, ◌&&◌, ◌++◌, ◌<◌, ◌∷◌, ◌≡◌, ◌≢◌, ◌≤◌,
}
use chango_assistant.Providers.Classifier.{
  PrivacyClassifier, PrivacyPattern, classify, classify_message, is_image, is_keyword, judge,
  last_user, match_patterns, match_words, result, then_words, tier1,
}
use chango_assistant.Providers.Types.{Message}

-- The largest weight of the patterns that match.
abbrev pub top_weight : Text → List PrivacyPattern → ℕ
top_weight content [] = 0
top_weight content (p ∷ ps) =
    if p.regex content then max p.weight (top_weight content ps) else top_weight content ps

abbrev pub keyword_weight : List Text → List Text → ℕ
keyword_weight ks [] = 0
keyword_weight ks (w ∷ ws) = if is_keyword ks w then 8 else keyword_weight ks ws

keyword_weight-le : (ks ws : List Text) → keyword_weight ks ws ≤ 8
keyword_weight-le ks [] = omega arith
keyword_weight-le ks (w ∷ ws) = ground (arith, keyword_weight-le ks ws)

match_words-score :
    (ks ws : List Text) (score : ℕ) (reason : Text)
    → (match_words ks ws score reason).0 ≡ max score (keyword_weight ks ws)
unfolding match_words
match_words-score ks [] score reason = omega arith
match_words-score ks (w ∷ ws) score reason =
    let hit = is_keyword ks w && ltb score 8 in
    ground (
      arith,
      match_words-score ks ws (if hit then 8 else score)
          (if hit then codes "keyword_" ++ w else reason),
      keyword_weight-le ks ws,
    )

top_weight-le :
    (content : Text) (ps : List PrivacyPattern)
    → All (λ p. p.weight ≤ 10) ps
    → top_weight content ps ≤ 10
top_weight-le content [] h = omega arith
top_weight-le content (p ∷ ps) h = ground (arith, h.0, top_weight-le content ps h.1)

-- The loop finds the largest weight, and returns early exactly if that is a full score.
abbrev IsTop : Text → List PrivacyPattern → ℕ → ℕ × Text × Bool → Type 0
IsTop content ps score (score', reason', early) =
    (score' ≡ max score (top_weight content ps)) × (early ≡ leb 10 score')

match_patterns-IsTop :
    (content : Text) (ps : List PrivacyPattern) (score : ℕ) (reason : Text)
    → All (λ p. p.weight ≤ 10) ps
    → score < 10
    → IsTop content ps score (match_patterns content ps score reason)
unfolding match_patterns
match_patterns-IsTop content [] score reason h lt = (omega arith, ground arith)
match_patterns-IsTop content (p ∷ ps) score reason h lt =
    let better = p.regex content && ltb score p.weight in
    ground (
      arith,
      match_patterns-IsTop content ps (if better then p.weight else score)
          (if better then p.reason else reason) h.1,
      top_weight-le content ps h.1,
      h.0,
    )

then_words-score :
    (pc : PrivacyClassifier) (content : Text) (x : ℕ × Text × Bool)
    → IsTop content pc.patterns 0 x
    → (then_words pc content x).0
      ≡ max (top_weight content pc.patterns) (keyword_weight pc.keywords (pc.words content))
then_words-score pc content (score, reason, true) h =
    ground (arith, keyword_weight-le pc.keywords (pc.words content), h.0, h.1)
then_words-score pc content (score, reason, false) h =
    omega (arith, match_words-score pc.keywords (pc.words content) score reason, h.0)

-- With weights of at most 1.0 the score is the largest weight that applies: of the matching patterns,
-- or 0.8 for a keyword. The early returns of the loop do not change it.
tier1-score :
    (pc : PrivacyClassifier) (content : Text)
    → All (λ p. p.weight ≤ 10) pc.patterns
    → content ≢ []
    → (tier1 pc content).0
      ≡ max (top_weight content pc.patterns) (keyword_weight pc.keywords (pc.words content))
unfolding tier1
tier1-score pc [] h ne = absurd (ne refl)
tier1-score pc (b ∷ s) h ne =
    then_words-score pc (b ∷ s) (match_patterns (b ∷ s) pc.patterns 0 [])
      (match_patterns-IsTop (b ∷ s) pc.patterns 0 [] h (omega arith))

tier1-score-lt :
    (pc : PrivacyClassifier) (content : Text)
    → All (λ p. p.weight ≤ 10) pc.patterns
    → top_weight content pc.patterns < 8
    → keyword_weight pc.keywords (pc.words content) ≡ 0
    → (tier1 pc content).0 < 8
tier1-score-lt pc [] h light none_found = unfold tier1 in omega arith
tier1-score-lt pc (b ∷ s) h light none_found = omega (arith, tier1-score pc (b ∷ s) h (λ e. cc))

judge-light : (pc : PrivacyClassifier) (x : ℕ × Text) → x.0 < 8 → (judge pc x).sensitive ≡ false
unfolding judge
judge-light pc (score, reason) lt = ground arith

-- A text without media whose patterns all weigh less than 0.8, such as an identity number at 0.7, is
-- classified as safe under every configuration, if it has no keyword.
classify-light :
    (pc : PrivacyClassifier) (ms : List Message) (m : Message)
    → last_user ms ≡ some m
    → any is_image m.parts ≡ false
    → All (λ p. p.weight ≤ 10) pc.patterns
    → top_weight m.content pc.patterns < 8
    → keyword_weight pc.keywords (pc.words m.content) ≡ 0
    → (classify pc ms).sensitive ≡ false
unfolding classify
classify-light pc ms m last media h light none_found =
    rw (last, classify_message, media)
      (both (pc.always_private_media)
        (judge-light pc (tier1 pc m.content) (tier1-score-lt pc m.content h light none_found)))
  where
    both :
        (b : Bool)
        → (judge pc (tier1 pc m.content)).sensitive ≡ false
        → (if b && false
            then result true (codes "image_detected") 10
            else judge pc (tier1 pc m.content)).sensitive
          ≡ false
    both true k = k
    both false k = k
