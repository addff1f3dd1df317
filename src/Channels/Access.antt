-- ===== src/Channels/Access.antt =====
-- What the allow list promises.
use chango_assistant.Base.{
  Bool, Bool-cases, List, Text, [], any, ap, arith, false, if_both, if◌then◌else◌, inl, inr, refl,
  subst, text_eq, text_eq-ne, text_eq_comm, text_eq_iff, text_eq_refl, text_eq→eq, true, ◌++◌, ◌∙◌,
  ◌∷◌, ◌≡◌, ◌≢◌,
}
use chango_assistant.Channels.Base.{
  add_to_allow_list, compound, entry_allows, id_part, is_allowed, is_allowed_chat, no_entries,
  remove_from_allow_list, trim_at, user_part,
}

any-snoc {ℓ} :
    {A : Type ℓ} (p : A → Bool) (xs : List A) (x : A) → p x ≡ true → any p (xs ++ x ∷ []) ≡ true
any-snoc p [] x h = rw h
any-snoc p (y ∷ xs) x h = ground (arith, any-snoc p xs x h)

any-append {ℓ} :
    {A : Type ℓ} (p : A → Bool) (xs ys : List A) → any p xs ≡ true → any p (xs ++ ys) ≡ true
any-append p [] ys h = absurd (cc)
any-append p (y ∷ xs) ys h = ground (arith, any-append p xs ys)

any-text_eq :
    (p : Text → Bool) (id : Text) (l : List Text)
    → p id ≡ true
    → any (λ a. text_eq a id) l ≡ true
    → any p l ≡ true
any-text_eq p id [] h k = absurd (cc)
any-text_eq p id (a ∷ l) h k = ground (arith, any-text_eq p id l h, text_eq_iff a id)

entry_allows_self : (id user s : Text) → trim_at s ≡ s → entry_allows s id user s ≡ true
unfolding entry_allows
entry_allows_self id user s h = rw (h, text_eq_refl s)

abbrev allowed_by : Text → Text → Bool
allowed_by sender =
    entry_allows sender (id_part sender (compound sender)) (user_part (compound sender))

no_entries-add : (id : Text) (l : List Text) → no_entries (add_to_allow_list id l) ≡ false
unfolding add_to_allow_list
no_entries-add id [] = refl
no_entries-add id (a ∷ l) = ground arith

any-add_self :
    (p : Text → Bool) (id : Text) (l : List Text)
    → p id ≡ true
    → any p (add_to_allow_list id l) ≡ true
unfolding add_to_allow_list
any-add_self p id l h = elim (Bool-cases (any (λ a. text_eq a id) l)) [
  | inl e ↦ rw e (any-text_eq p id l h e)
  | inr e ↦ rw e (any-snoc p l id h)
]

any-add_old :
    (p : Text → Bool) (id : Text) (l : List Text)
    → any p l ≡ true
    → any p (add_to_allow_list id l) ≡ true
unfolding add_to_allow_list
any-add_old p id l h =
    if_both {A = List Text} (λ k. any p k ≡ true) (any (λ a. text_eq a id) l) _ _ h
      (any-append p l (id ∷ []) h)

-- Whoever is added to the list may write, if the identifier does not begin with an @, which marks a
-- user name.
add-is_allowed :
    (id : Text) (l : List Text) → trim_at id ≡ id → is_allowed id (add_to_allow_list id l) ≡ true
unfolding is_allowed
add-is_allowed id l h =
    rw (no_entries-add id l) (any-add_self (allowed_by id) id l (entry_allows_self _ _ id h))

-- Whoever an entry of the list let in may still write after another is added.
add-keeps_allowed :
    (id sender : Text) (l : List Text)
    → no_entries l ≡ false
    → is_allowed sender l ≡ true
    → is_allowed sender (add_to_allow_list id l) ≡ true
unfolding is_allowed
add-keeps_allowed id sender l some_entry old =
    rw (no_entries-add id l) (any-add_old (allowed_by sender) id l (rw some_entry at old))

-- Each identifier stands once in the list.
abbrev pub Once : List Text → Type 0
Once [] = Unit
Once (a ∷ l) = (any (λ b. text_eq b a) l ≡ false) × Once l

any-flip : (id : Text) (l : List Text) → any (λ b. text_eq id b) l ≡ any (λ b. text_eq b id) l
any-flip id [] = refl
any-flip id (a ∷ l) = ground (arith, text_eq_comm id a, any-flip id l)

any-remove :
    (p : Text → Bool) (id : Text) (l : List Text)
    → any p l ≡ false
    → any p (remove_from_allow_list id l).0 ≡ false
unfolding remove_from_allow_list
any-remove p id [] h = refl
any-remove p id (a ∷ l) h = ground (arith, any-remove p id l)

-- In a list where each entry stands once, removing one says whether it was there; afterwards it is not,
-- every other entry is there as before, and each still stands once.
remove_from_allow_list_lem :
    (id : Text) (l : List Text)
    → Once l
    → let (l', removed) = remove_from_allow_list id l in
      (removed ≡ is_allowed_chat id l)
      × (is_allowed_chat id l' ≡ false)
      × ((other : Text) → other ≢ id → is_allowed_chat other l' ≡ is_allowed_chat other l)
      × Once l'
unfolding remove_from_allow_list is_allowed_chat
remove_from_allow_list_lem id [] o = (refl, refl, (λ other ne. refl), tt)
remove_from_allow_list_lem id (a ∷ l) o = elim (Bool-cases (text_eq a id)) [
  | inl e ↦
      rw (e, text_eq_comm id a, e)
        (
          refl,
          any-flip id l ∙ subst (λ k. any (λ b. text_eq b k) l ≡ false) (text_eq→eq a id e) o.0,
          (λ other ne. rw (text_eq-ne other a (λ same. ne (same ∙ text_eq→eq a id e))) refl),
          o.1,
        )
  | inr e ↦
      let (told, gone, others, once) = remove_from_allow_list_lem id l o.1 in
      rw (e, text_eq_comm id a, e)
        (
          told,
          gone,
          (λ other ne. ap (λ b. if text_eq other a then true else b) (others other ne)),
          (any-remove (λ b. text_eq b a) id l o.0, once),
        )
]
