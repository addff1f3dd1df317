-- ===== src/Channels/Base.antt =====
-- pkg/channels/base.go. A channel is its name, its allow list and its running flag; what it publishes
-- on the bus is a list of messages, the latest last.
use chango_assistant.Base.{
  Bool, List, Option, Text, [], any, drop, false, if◌then◌else◌, index_byte, is_some, none, not,
  some, suc, take, text_eq, true, zero, ℕ, ◌&&◌, ◌++◌, ◌==◌, ◌||◌, ◌∷◌,
}

pub record InboundMessage : Type 0 where
  pub channel : Text
  pub sender_id : Text
  pub chat_id : Text
  pub content : Text
  pub media : List Text
  pub session_key : Text
  pub metadata : List (Text × Text)

pub record BaseChannel : Type 0 where
  pub running : Bool
  pub name : Text
  pub allow_list : List Text

-- `NewBaseChannel`.
unfoldable pub new_base_channel : Text → List Text → BaseChannel
new_base_channel name allow_list = record { running = false; name = name; allow_list = allow_list }

unfoldable pub set_running : Bool → BaseChannel → BaseChannel
set_running running c = record c { running = running }

-- A text split at its first `|`, if that is not in front: `id|user` is `(id, user)`.
abbrev pub split_at : Text → Option ℕ → Option (Text × Text)
split_at s none = none
split_at s (some zero) = none
split_at s (some (suc i)) = some (take (suc i) s, drop (suc (suc i)) s)

unfoldable pub compound : Text → Option (Text × Text)
unfolding index_byte
compound s = split_at s (index_byte s b'|')

abbrev pub id_part : Text → Option (Text × Text) → Text
id_part s none = s
id_part s (some (id, user)) = id

abbrev pub user_part : Option (Text × Text) → Text
user_part none = []
user_part (some (id, user)) = user

-- `strings.TrimPrefix(allowed, "@")`.
abbrev pub trim_at : Text → Text
trim_at [] = []
trim_at (a ∷ s) = if a == b'@' then s else a ∷ s

abbrev pub same_user : Text → Text → Bool
same_user u v = not (text_eq u []) && (not (text_eq v []) && text_eq u v)

-- The last test of the loop, on the parts of the allowed entry.
abbrev pub match_compound : Text → Text → Option (Text × Text) → Bool
match_compound id user none = false
match_compound id user (some (i, u)) = text_eq id i || same_user user u

-- One round of the loop of `IsAllowed`.
unfoldable pub entry_allows : Text → Text → Text → Text → Bool
unfolding compound text_eq index_byte
entry_allows sender id user allowed =
    let trimmed = trim_at allowed in
    let is_plain = not (is_some (index_byte trimmed b'|')) in
    text_eq sender trimmed
    || ((is_plain && text_eq id trimmed)
        || ((not (text_eq user []) && (is_plain && text_eq user trimmed))
            || match_compound id user (compound trimmed)))

abbrev pub no_entries : List Text → Bool
no_entries [] = true
no_entries (a ∷ l) = false

-- `IsAllowed`.
unfoldable pub is_allowed : Text → List Text → Bool
unfolding compound entry_allows
is_allowed sender l =
    if no_entries l
    then true
    else any (entry_allows sender (id_part sender (compound sender)) (user_part (compound sender)))
        l

-- `IsAllowedChat`.
unfoldable pub is_allowed_chat : Text → List Text → Bool
unfolding text_eq
is_allowed_chat chat l = any (λ a. text_eq chat a) l

-- `AddToAllowList`.
unfoldable pub add_to_allow_list : Text → List Text → List Text
unfolding text_eq
add_to_allow_list id l = if any (λ a. text_eq a id) l then l else l ++ id ∷ []

-- `RemoveFromAllowList`: the first entry that is equal.
unfoldable pub remove_from_allow_list : Text → List Text → List Text × Bool
unfolding text_eq
remove_from_allow_list id [] = ([], false)
remove_from_allow_list id (a ∷ l) =
    let (l', removed) = remove_from_allow_list id l in
    if text_eq a id then (l, true) else (a ∷ l', removed)

-- `HandleMessage`: what it publishes on the bus.
unfoldable pub handle_message :
    Text → Text → Text → List Text → List (Text × Text) → BaseChannel → List InboundMessage
unfolding is_allowed
handle_message sender chat content media metadata c =
    if is_allowed sender c.allow_list
    then record {
      channel = c.name;
      sender_id = sender;
      chat_id = chat;
      content = content;
      media = media;
      session_key = c.name ++ (b':' ∷ chat);
      metadata = metadata;
    }
      ∷ []
    else []
