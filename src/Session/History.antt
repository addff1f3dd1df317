-- ===== src/Session/History.antt =====
-- What the operations on a conversation do to its history, and to those of the others.
use chango_assistant.Base.{
  All, Bool, Bool-cases, List, Option, Option-cases, Text, [], ap, arith, drop, if◌then◌else◌, inl,
  inr, is_some, leb, leb→le, length, length-drop, lookup, lookup-insert, none, not, refl, some,
  subst, suc, text_eq, text_eq_refl, text_eq→eq, true, zero, ℕ, ◌++◌, ◌-◌, ◌||◌, ◌∙◌, ◌∷◌, ◌≡◌, ◌≤◌,
}
use chango_assistant.Base.Int64.{leb_ℤ, negsuc, pos, ℤ}
use chango_assistant.Providers.Types.{Message}
use chango_assistant.Session.Manager.{
  Session, Sessions, add_full_message, cut_history, get_history, get_summary, is_tool, messages_of,
  or_new, put_history, skip_tools, summary_of, truncate_history,
}

or_new-messages :
    (key : Text) (now : ℕ) (o : Option Session) → (or_new key now o).messages ≡ messages_of o
or_new-messages key now none = refl
or_new-messages key now (some s) = refl

or_new-summary :
    (key : Text) (now : ℕ) (o : Option Session) → (or_new key now o).summary ≡ summary_of o
or_new-summary key now none = refl
or_new-summary key now (some s) = refl

-- A message goes to the end of its own session's history; every other history and every summary
-- stays as it was.
pub add_full_message_lem :
    (key j : Text) (msg : Message) (now now' : ℕ) (sm : Sessions)
    → let sm' = add_full_message key msg now now' sm in
      (get_history j sm'
        ≡ (if text_eq key j then get_history j sm ++ msg ∷ [] else get_history j sm))
      × (get_summary j sm' ≡ get_summary j sm)
unfolding add_full_message get_history get_summary
add_full_message_lem key j msg now now' sm = elim (Bool-cases (text_eq key j)) [
  | inl e ↦
      rw (lookup-insert key j _ sm, e, text_eq→eq key j e)
        (
          ap (λ t. t ++ msg ∷ []) (or_new-messages j now (lookup j sm)),
          or_new-summary j now (lookup j sm),
        )
  | inr e ↦ rw (lookup-insert key j _ sm, e) (refl, refl)
]

-- No tool message stands at the front.
abbrev pub starts_whole : List Message → Bool
starts_whole [] = true
starts_whole (m ∷ ms) = not (is_tool m)

skip_tools-starts_whole : (ms : List Message) → starts_whole (skip_tools ms) ≡ true
unfolding skip_tools
skip_tools-starts_whole [] = refl
skip_tools-starts_whole (m ∷ ms) = ground (arith, skip_tools-starts_whole ms)

-- A list of tool messages, and then what is left.
abbrev pub SkipsTools : List Message → List Message → Type 0
SkipsTools ms rest =
    (tools : List Message) × (ms ≡ tools ++ rest) × All (λ m. is_tool m ≡ true) tools

skip_tools-SkipsTools : (ms : List Message) → SkipsTools ms (skip_tools ms)
unfolding skip_tools
skip_tools-SkipsTools [] = ([], refl, tt)
skip_tools-SkipsTools (m ∷ ms) = elim (Bool-cases (is_tool m)) [
  | inl e ↦
      let (tools, split, all) = skip_tools-SkipsTools ms in
      (m ∷ tools, rw e (ap (λ t. m ∷ t) split), (e, all))
  | inr e ↦ ([], rw e, tt)
]

length-skip_tools-le : (ms : List Message) → length (skip_tools ms) ≤ length ms
unfolding skip_tools
length-skip_tools-le [] = omega arith
length-skip_tools-le (m ∷ ms) = ground (arith, length-skip_tools-le ms)

-- What the cut to the last `n + 1` messages leaves of a history.
pub record IsCut (n : ℕ) (old new : List Message) : Type 0 where
  pub bounded : length new ≤ suc n
  pub suffix : SkipsTools (drop (length old - suc n) old) new
  pub whole : (leb (length old) (suc n) || starts_whole new) ≡ true

abbrev cut_or : List Message → Option (List Message) → List Message
cut_or ms none = ms
cut_or ms (some ks) = ks

cut_history-IsCut :
    (n : ℕ) (ms : List Message) → IsCut n ms (cut_or ms (cut_history (pos (suc n)) ms))
unfolding cut_history
cut_history-IsCut n ms = elim (Bool-cases (leb (length ms) (suc n))) [
  | inl e ↦ rw e (untouched (leb→le _ _ e))
  | inr e ↦ rw e (record {
    bounded = omega (
      arith,
      length-skip_tools-le (drop (length ms - suc n) ms),
      length-drop (length ms - suc n) ms,
    );
    suffix = skip_tools-SkipsTools (drop (length ms - suc n) ms);
    whole = rw e (skip_tools-starts_whole (drop (length ms - suc n) ms));
  })
]
  where
    untouched : length ms ≤ suc n → IsCut n ms ms
    untouched h = record {
      bounded = h;
      suffix = ([], ap (λ k. drop k ms) (let e : length ms - suc n ≡ 0 = omega arith in e), tt);
      whole = ground arith;
    }

get_history-put_history :
    (key j : Text) (s : Session) (now : ℕ) (sm : Sessions) (o : Option (List Message))
    → lookup key sm ≡ some s
    → get_history j (put_history key s now sm o)
      ≡ (if text_eq key j then cut_or s.messages o else get_history j sm)
unfolding get_history
get_history-put_history key j s now sm none h = elim (Bool-cases (text_eq key j)) [
  | inl e ↦ rw (e, ← text_eq→eq key j e) (ap messages_of h)
  | inr e ↦ rw e
]
get_history-put_history key j s now sm (some ms) h = elim (Bool-cases (text_eq key j)) [
  | inl e ↦ rw (lookup-insert key j _ sm, e)
  | inr e ↦ rw (lookup-insert key j _ sm, e)
]

get_history-truncate_history :
    (key j : Text) (last : ℤ) (now : ℕ) (sm : Sessions) (s : Session)
    → lookup key sm ≡ some s
    → get_history j (truncate_history key last now sm) ≡ (
        if text_eq key j then cut_or s.messages (cut_history last s.messages) else get_history j sm)
unfolding truncate_history
get_history-truncate_history key j last now sm s h =
    rw (h, truncate_history)
      (get_history-put_history key j s now sm (cut_history last s.messages) h)

-- Truncating the history of a session that exists to a positive number of messages keeps at most
-- that many, drops what comes before the last of them and then only tool messages, and leaves no
-- tool message at the front if the history was too long. The histories of other sessions stay as
-- they were.
pub truncate_history_lem :
    (key j : Text) (n now : ℕ) (sm : Sessions)
    → is_some (lookup key sm) ≡ true
    → let sm' = truncate_history key (pos (suc n)) now sm in
      IsCut n (get_history key sm) (get_history key sm')
      × (get_history j sm' ≡ (if text_eq key j then get_history key sm' else get_history j sm))
truncate_history_lem key j n now sm h = elim (Option-cases (lookup key sm)) [
  | inl e ↦ absurd (cc)
  | inr (s, e) ↦
      let same = λ (k : Text). get_history-truncate_history key k (pos (suc n)) now sm s e in
      (
        rw (same key, text_eq_refl key, history_of e) (cut_history-IsCut n s.messages),
        rw (same j, same key, text_eq_refl key) refl,
      )
]
  where
    history_of : {s : Session} → lookup key sm ≡ some s → get_history key sm ≡ s.messages
    history_of e = unfold get_history in ap messages_of e

-- Truncating to no message, or to a negative number of them, clears the history and no other.
truncate_history_clears :
    (key j : Text) (last : ℤ) (now : ℕ) (sm : Sessions)
    → leb_ℤ last (pos 0) ≡ true
    → get_history j (truncate_history key last now sm)
      ≡ (if text_eq key j then [] else get_history j sm)
truncate_history_clears key j last now sm h = elim (Option-cases (lookup key sm)) [
  | inl e ↦ nothing e
  | inr (s, e) ↦
      get_history-truncate_history key j last now sm s e
      ∙ ap (λ t. if text_eq key j then t else get_history j sm) (cleared last h s.messages)
]
  where
    cleared :
        (l : ℤ) → leb_ℤ l (pos 0) ≡ true → (ms : List Message) → cut_or ms (cut_history l ms) ≡ []
    cleared (pos zero) z ms = unfold cut_history in refl
    cleared (pos (suc n)) z ms = ground arith
    cleared (negsuc n) z ms = unfold cut_history in refl

    nothing :
        lookup key sm ≡ none
        → get_history j (truncate_history key last now sm)
          ≡ (if text_eq key j then [] else get_history j sm)
    nothing e = elim (Bool-cases (text_eq key j)) [
      | inl z ↦
          unfold truncate_history get_history in
          rw (e, truncate_history, z)
            (ap messages_of (subst (λ k. lookup k sm ≡ none) (text_eq→eq key j z) e))
      | inr z ↦ unfold truncate_history in rw (e, truncate_history, z)
    ]
