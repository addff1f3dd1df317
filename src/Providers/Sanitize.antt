-- ===== src/Providers/Sanitize.antt =====
-- What reaches the local model.
use chango_assistant.Base.{
  All, All-drop, Bool, Bool-cases, List, Text, [], ap, arith, drop, false, if_both, if◌then◌else◌,
  inl, inr, keep, length, length-append, length-drop, length-take-le, ltb, map, not, refl, suc,
  take, text_eq, true, ℕ, ◌&&◌, ◌+◌, ◌-◌, ◌∷◌, ◌≡◌, ◌≤◌,
}
use chango_assistant.Providers.Inputs.{
  cut_content, is_text_part, last_messages, local_placeholder, max_content, max_messages, no_parts,
  sanitize_for_local, sanitize_message, truncated_note,
}
use chango_assistant.Providers.Types.{Message}

-- A message as the local model may see it: only text parts, and a bounded content.
abbrev pub IsLocalMessage : Message → Type 0
IsLocalMessage m =
    (All (λ p. is_text_part p ≡ true) m.parts)
    × (length m.content ≤ max_content + length truncated_note)

All-keep_self {ℓ} : {A : Type ℓ} (p : A → Bool) (xs : List A) → All (λ x. p x ≡ true) (keep p xs)
All-keep_self p [] = tt
All-keep_self p (x ∷ xs) = ground (arith, All-keep_self p xs)

length-cut_content : (s : Text) → length (cut_content s) ≤ max_content + length truncated_note
length-cut_content s = elim (Bool-cases (ltb max_content (length s))) [
  | inl e ↦ rw e (
      omega
        (arith, length-append (take max_content s) truncated_note, length-take-le max_content s))
  | inr e ↦ rw e (ground arith)
]

sanitize_message-IsLocalMessage : (m : Message) → IsLocalMessage (sanitize_message m)
unfolding sanitize_message
sanitize_message-IsLocalMessage m = (
  All-keep_self is_text_part m.parts,
  length-cut_content (
      if not (no_parts m.parts) && (no_parts (keep is_text_part m.parts) && text_eq m.content [])
      then local_placeholder
      else m.content),
)

All-sanitized : (ms : List Message) → All IsLocalMessage (map sanitize_message ms)
All-sanitized [] = tt
All-sanitized (m ∷ ms) = (sanitize_message-IsLocalMessage m, All-sanitized ms)

length-last_messages : (ms : List Message) → length (last_messages ms) ≤ max_messages + 1
unfolding last_messages
length-last_messages [] = omega arith
length-last_messages (m ∷ ms) = elim (Bool-cases (ltb (max_messages + 1) (length (m ∷ ms)))) [
  | inl e ↦ rw e (omega (arith, length-drop (length (m ∷ ms) - max_messages) (m ∷ ms)))
  | inr e ↦ rw e (ground arith)
]

All-last_messages :
    (ms : List Message) → All IsLocalMessage ms → All IsLocalMessage (last_messages ms)
unfolding last_messages
All-last_messages [] h = h
All-last_messages (m ∷ ms) h =
    if_both (All IsLocalMessage) (ltb (max_messages + 1) (length (m ∷ ms))) _ _
      (h.0, All-drop IsLocalMessage (length (m ∷ ms) - max_messages) (m ∷ ms) h) h

-- The first message, and the last ten of the others.
abbrev pub first_and_recent : List Message → List Message
first_and_recent [] = []
first_and_recent (m ∷ ms) = m ∷ drop (length ms - max_messages) ms

last_messages-recent : (ms : List Message) → last_messages ms ≡ first_and_recent ms
unfolding last_messages
last_messages-recent [] = refl
last_messages-recent (m ∷ ms) = elim (Bool-cases (ltb (max_messages + 1) (length (m ∷ ms)))) [
  | inl e ↦ rw e (ap (λ k. m ∷ drop k (m ∷ ms)) (one_more (length ms) e))
  | inr e ↦ rw e (ap (λ k. m ∷ drop k ms) (none_over (length ms) e))
]
  where
    one_more :
        (n : ℕ)
        → ltb (max_messages + 1) (suc n) ≡ true
        → suc n - max_messages ≡ suc (n - max_messages)
    one_more n h = ground arith

    none_over : (n : ℕ) → ltb (max_messages + 1) (suc n) ≡ false → 0 ≡ n - max_messages
    none_over n h = ground arith

-- The local model gets the first message and the last ten of the others, at most eleven, none with an
-- image and each with a bounded content.
sanitize_for_local_lem :
    (ms : List Message)
    → (sanitize_for_local ms ≡ first_and_recent (map sanitize_message ms))
      × (length (sanitize_for_local ms) ≤ max_messages + 1)
      × All IsLocalMessage (sanitize_for_local ms)
unfolding sanitize_for_local
sanitize_for_local_lem ms = (
  last_messages-recent (map sanitize_message ms),
  length-last_messages (map sanitize_message ms),
  All-last_messages (map sanitize_message ms) (All-sanitized ms),
)
