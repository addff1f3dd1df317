-- ===== src/Agent/Blocks.antt =====
-- What the blocks of `trimHistoryForPrompt` of pkg/agent/loop.go are.
use chango_assistant.Base.{
  All, Bool, Bool-cases, List, [], ap, arith, codes, false, if_cases, inl, inr, is_nil, length, not,
  refl, subst, suc, sym, text_eq_iff, text_eq→eq, text_ne, true, zero, ℕ, ◌++◌, ◌∷◌, ◌≡◌, ◌≢◌, ◌≤◌,
  ◌⊎◌,
}
use chango_assistant.Agent.Trim.{
  Block, after_tools, blocks, concat_blocks, content_chars, has_calls, is_tool_message, tools_first,
}
use chango_assistant.Providers.Types.{Message}
use chango_assistant.Tools.Loop.{assistant_role, tool_role}

tools-after : (ms : List Message) → tools_first ms ++ after_tools ms ≡ ms
tools-after [] = refl
tools-after (m ∷ ms) = elim (Bool-cases (is_tool_message m)) [
  | inl e ↦ rw e (ap (λ t. m ∷ t) (tools-after ms))
  | inr e ↦ rw e refl
]

length-after_tools-le : (ms : List Message) → length (after_tools ms) ≤ length ms
length-after_tools-le [] = omega arith
length-after_tools-le (m ∷ ms) = ground (arith, length-after_tools-le ms)

-- With enough fuel the blocks make up the history.
pub concat-blocks : (n : ℕ) (ms : List Message) → length ms ≤ n → concat_blocks (blocks n ms) ≡ ms
unfolding blocks
concat-blocks zero [] h = refl
concat-blocks zero (m ∷ ms) h = absurd (omega arith)
concat-blocks (suc n) [] h = refl
concat-blocks (suc n) (m ∷ ms) h = elim (Bool-cases (has_calls m)) [
  | inl e ↦
      rw (e, concat-blocks n (after_tools ms) (omega (arith, length-after_tools-le ms)))
        (ap (λ t. m ∷ t) (tools-after ms))
  | inr e ↦ rw (e, concat-blocks n ms (omega arith)) refl
]

-- The messages do not begin with a tool's answer.
abbrev pub NoToolFirst : List Message → Type 0
NoToolFirst [] = Unit
NoToolFirst (m ∷ ms) = m.role ≢ codes "tool"

-- A message of the assistant with tool calls.
abbrev pub Calls : Message → Type 0
Calls m = (m.role ≡ codes "assistant") × (m.tool_calls ≢ [])

-- Each block is an assistant message with tool calls and all the tool messages that follow it, or one
-- other message; and it counts the characters of its messages.
abbrev pub AreWhole : List Block → Type 0
AreWhole [] = Unit
AreWhole (b ∷ bs) =
    ((m : Message) × (answers : List Message) × (b.messages ≡ m ∷ answers)
      × ((Calls m × All (λ a. a.role ≡ codes "tool") answers × NoToolFirst (concat_blocks bs))
          ⊎ ((Calls m → ⊥) × (answers ≡ []))))
    × (b.chars ≡ content_chars b.messages)
    × AreWhole bs

has_calls-Calls : (m : Message) → has_calls m ≡ true → Calls m
has_calls-Calls m h = (
  text_eq→eq m.role assistant_role (ground (arith, h)),
  λ e. absurd (some_calls (ap is_nil e) (ground (arith, h))),
)
  where
    some_calls : {b : Bool} → b ≡ true → not b ≡ true → ⊥
    some_calls {b = b} p q = ground (arith, p, q)

is_nil-ne {ℓ} : {A : Type ℓ} (xs : List A) → xs ≢ [] → is_nil xs ≡ false
is_nil-ne [] h = absurd (h refl)
is_nil-ne (x ∷ xs) h = refl

has_calls-no : (m : Message) → has_calls m ≡ false → Calls m → ⊥
has_calls-no m h (role, calls) =
    ground (arith, h, (text_eq_iff m.role assistant_role).1 role, is_nil-ne m.tool_calls calls)

tools_first-All : (ms : List Message) → All (λ a. a.role ≡ codes "tool") (tools_first ms)
tools_first-All [] = tt
tools_first-All (m ∷ ms) =
    if_cases (All (λ a. a.role ≡ codes "tool")) (is_tool_message m) (m ∷ tools_first ms) []
      (λ h. (text_eq→eq m.role tool_role h, tools_first-All ms)) (λ h. tt)

after_tools-NoToolFirst : (ms : List Message) → NoToolFirst (after_tools ms)
after_tools-NoToolFirst [] = tt
after_tools-NoToolFirst (m ∷ ms) =
    if_cases NoToolFirst (is_tool_message m) (after_tools ms) (m ∷ ms)
      (λ h. after_tools-NoToolFirst ms) (λ h. text_ne m.role tool_role h)

pub blocks-AreWhole : (n : ℕ) (ms : List Message) → length ms ≤ n → AreWhole (blocks n ms)
unfolding blocks
blocks-AreWhole zero ms h = tt
blocks-AreWhole (suc n) [] h = tt
blocks-AreWhole (suc n) (m ∷ ms) h = elim (Bool-cases (has_calls m)) [
  | inl e ↦
      let le : length (after_tools ms) ≤ n = omega (arith, h, length-after_tools-le ms) in
      rw e (
        (
          m,
          tools_first ms,
          refl,
          inl (
            has_calls-Calls m e,
            tools_first-All ms,
            subst NoToolFirst (sym (concat-blocks n (after_tools ms) le))
                (after_tools-NoToolFirst ms),
          ),
        ),
        refl,
        blocks-AreWhole n (after_tools ms) le,
      )
  | inr e ↦
      rw e
        ((m, [], refl, inr (has_calls-no m e, refl)), refl, blocks-AreWhole n ms (omega (arith, h)))
]
