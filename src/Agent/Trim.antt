-- ===== src/Agent/Trim.antt =====
-- `trimHistoryForPrompt` of pkg/agent/loop.go: the blocks of a history, and the last of them that fit
-- a prompt. A limit of 0 stands for every limit that is not positive.
use chango_assistant.Base.{
  Bool, List, [], if◌then◌else◌, is_nil, leb, length, ltb, not, reverse, suc, text_eq, zero, ℕ,
  ◌&&◌, ◌++◌, ◌+◌, ◌==◌, ◌||◌, ◌∷◌,
}
use chango_assistant.Providers.Types.{Message}
use chango_assistant.Tools.Loop.{assistant_role, tool_role}

pub record Block : Type 0 where
  pub messages : List Message
  pub chars : ℕ

-- An assistant message with tool calls, which its answers follow.
abbrev pub has_calls : Message → Bool
has_calls m = text_eq m.role assistant_role && not (is_nil m.tool_calls)

abbrev pub is_tool_message : Message → Bool
is_tool_message m = text_eq m.role tool_role

-- The inner loop: the tool messages at the front, and what follows them.
abbrev pub tools_first : List Message → List Message
tools_first [] = []
tools_first (m ∷ ms) = if is_tool_message m then m ∷ tools_first ms else []

abbrev pub after_tools : List Message → List Message
after_tools [] = []
after_tools (m ∷ ms) = if is_tool_message m then after_tools ms else m ∷ ms

abbrev pub content_chars : List Message → ℕ
content_chars [] = 0
content_chars (m ∷ ms) = length m.content + content_chars ms

abbrev pub block_of : List Message → Block
block_of ms = record { messages = ms; chars = content_chars ms }

-- The outer loop. The fuel is the number of messages.
unfoldable pub blocks : ℕ → List Message → List Block
unfolding text_eq
blocks zero ms = []
blocks (suc fuel) [] = []
blocks (suc fuel) (m ∷ ms) =
    let call = block_of (m ∷ tools_first ms) ∷ blocks fuel (after_tools ms) in
    let single = block_of (m ∷ []) ∷ blocks fuel ms in if has_calls m then call else single

-- Whether a total passes a limit that is set.
abbrev pub over : ℕ → ℕ → Bool
over limit total = ltb 0 limit && ltb limit total

-- The loop over the blocks from the last one: what is selected so far, and its two totals.
unfoldable pub select : ℕ → ℕ → List Block → ℕ → ℕ → List Block → List Block
select max_messages max_chars selected total_messages total_chars [] = selected
select max_messages max_chars selected total_messages total_chars (b ∷ bs) =
    let next_messages = total_messages + length b.messages in
    let next_chars = total_chars + b.chars in
    let rest = select max_messages max_chars (b ∷ selected) next_messages next_chars bs in
    if not (is_nil selected) && (over max_messages next_messages || over max_chars next_chars)
    then selected
    else rest

abbrev pub concat_blocks : List Block → List Message
concat_blocks [] = []
concat_blocks (b ∷ bs) = b.messages ++ concat_blocks bs

abbrev pub selected_blocks : List Message → ℕ → ℕ → List Block
selected_blocks history max_messages max_chars =
    select max_messages max_chars [] 0 0 (reverse (blocks (length history) history))

-- `trimHistoryForPrompt`.
unfoldable pub trim_history_for_prompt : List Message → ℕ → ℕ → List Message
unfolding blocks select
trim_history_for_prompt history max_messages max_chars =
    let selected = selected_blocks history max_messages max_chars in
    if leb (length history) 1 || ((max_messages == 0) && (max_chars == 0))
    then history
    else if length selected == length (blocks (length history) history)
    then history
    else concat_blocks selected
