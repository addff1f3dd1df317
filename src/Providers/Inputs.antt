-- ===== src/Providers/Inputs.antt =====
-- What a model is given: the messages that pkg/providers/privacy_router.go prepares for the local
-- model, and `HasVisionInput` and `VisionUnsupportedNotice` of pkg/providers/capabilities.go.
use chango_assistant.Base.{
  Bool, List, Option, Text, [], any, codes, drop, false, if◌then◌else◌, keep, length, ltb, map,
  none, not, some, take, text_eq, trim_space, true, ℕ, ◌&&◌, ◌++◌, ◌+◌, ◌-◌, ◌∷◌,
}
use chango_assistant.Providers.Types.{ContentPart, ImageUrl, Message}

abbrev has_url : Option ImageUrl → Bool
has_url none = false
has_url (some u) = not (text_eq u.url [])

abbrev pub is_vision_part : ContentPart → Bool
is_vision_part p = text_eq p.kind (codes "image_url") && has_url p.image_url

-- `HasVisionInput`.
unfoldable pub has_vision_input : List Message → Bool
has_vision_input ms = any (λ m. any is_vision_part m.parts) ms

-- `VisionUnsupportedNotice`.
unfoldable pub vision_unsupported_notice : Text → Text
unfolding trim_space text_eq
vision_unsupported_notice model =
    let name = trim_space model in
    if text_eq name []
    then codes
        "Recibi una imagen, pero el modelo actual no soporta vision. Cambia a un modelo con vision o desactiva la ruta local para media."
    else codes "Recibi una imagen, pero el modelo actual ("
      ++ (name
          ++ codes
              ") no soporta vision. Cambia a un modelo con vision o desactiva la ruta local para media.")

abbrev pub local_placeholder : Text
local_placeholder =
    codes "[Image/document content "
    ++ (0xe2 ∷ 0x80 ∷ 0x94 ∷ codes " processed locally for privacy]")

abbrev pub truncated_note : Text
truncated_note = 10 ∷ codes "[...truncated for local model context]"

abbrev pub is_text_part : ContentPart → Bool
is_text_part p = text_eq p.kind (codes "text")

abbrev pub max_content : ℕ
max_content = 4000

abbrev pub cut_content : Text → Text
cut_content s = if ltb max_content (length s) then take max_content s ++ truncated_note else s

abbrev pub no_parts {ℓ} : {A : Type ℓ} → List A → Bool
no_parts [] = true
no_parts (p ∷ ps) = false

-- The body of the loop of `sanitizeForLocal`.
unfoldable pub sanitize_message : Message → Message
unfolding text_eq
sanitize_message m =
    let texts = keep is_text_part m.parts in
    let hidden = not (no_parts m.parts) && (no_parts texts && text_eq m.content []) in
    record m {
      content = cut_content (if hidden then local_placeholder else m.content);
      parts = texts;
    }

abbrev pub max_messages : ℕ
max_messages = 10

-- The end of `sanitizeForLocal`: the first message and the last ten.
unfoldable pub last_messages : List Message → List Message
last_messages [] = []
last_messages (m ∷ ms) =
    let n = length (m ∷ ms) in
    if ltb (max_messages + 1) n then m ∷ drop (n - max_messages) (m ∷ ms) else m ∷ ms

-- `sanitizeForLocal`.
unfoldable pub sanitize_for_local : List Message → List Message
unfolding sanitize_message last_messages
sanitize_for_local ms = last_messages (map sanitize_message ms)
