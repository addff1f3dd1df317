-- ===== src/Tests/ChannelsCases.antt =====
-- Senders and an allow list.
use chango_assistant.Base.{Text, [], codes, false, index_byte, refl, text_eq, true, ◌∷◌, ◌≡◌}
use chango_assistant.Channels.Base.{is_allowed, remove_from_allow_list}

abbrev ana : Text
ana = codes "12|ana"

-- An entry by number and one by user name let the sender in; others stay out.
allow_run :
    (is_allowed ana (codes "12" ∷ []) ≡ true)
    × (is_allowed ana (codes "@ana" ∷ []) ≡ true)
    × (is_allowed ana (codes "13|ana" ∷ []) ≡ true)
    × (is_allowed ana (codes "13" ∷ []) ≡ false)
unfolding is_allowed text_eq index_byte
allow_run = (refl, refl, refl, refl)

-- The list without its last entry lets everybody in.
empty_opens : is_allowed ana (remove_from_allow_list (codes "13") (codes "13" ∷ [])).0 ≡ true
unfolding is_allowed remove_from_allow_list text_eq
empty_opens = refl
