-- ===== src/Agent/Recent.antt =====
-- What `trimHistoryForPrompt` of pkg/agent/loop.go keeps of a history.
use chango_assistant.Base.{
  Bool, Bool-cases, List, [], ap, append-nil, append_assoc, arith, false, if_both, inl, inr, is_nil,
  leb, leb→le, length, length-append, not, refl, reverse, reverse-append, reverse-reverse, subst,
  suc, sym, true, zero, ℕ, ◌&&◌, ◌++◌, ◌+◌, ◌<◌, ◌==◌, ◌||◌, ◌∙◌, ◌∷◌, ◌≡◌, ◌≤◌, ◌⊎◌,
}
use chango_assistant.Agent.Blocks.{AreWhole, blocks-AreWhole, concat-blocks}
use chango_assistant.Agent.Trim.{
  Block, after_tools, blocks, concat_blocks, has_calls, over, select, selected_blocks,
  trim_history_for_prompt,
}
use chango_assistant.Providers.Types.{Message}

concat_blocks-append :
    (xs ys : List Block) → concat_blocks (xs ++ ys) ≡ concat_blocks xs ++ concat_blocks ys
concat_blocks-append [] ys = refl
concat_blocks-append (b ∷ bs) ys =
    rw (concat_blocks-append bs ys) (sym (append_assoc b.messages _ _))

-- The totals that the loop keeps.
abbrev pub total_length : List Block → ℕ
total_length [] = 0
total_length (b ∷ bs) = length b.messages + total_length bs

abbrev pub total_chars : List Block → ℕ
total_chars [] = 0
total_chars (b ∷ bs) = b.chars + total_chars bs

-- A total is within a limit, of which 0 is none.
abbrev pub Within : ℕ → ℕ → Type 0
Within limit total = (limit ≡ 0) ⊎ (total ≤ limit)

abbrev pub Exceeds : ℕ → ℕ → Type 0
Exceeds limit total = (0 < limit) × (limit < total)

abbrev pub Fits : ℕ → ℕ → List Block → Type 0
Fits max_messages max_chars bs =
    Within max_messages (total_length bs) × Within max_chars (total_chars bs)

over-Within : (limit total : ℕ) → over limit total ≡ false → Within limit total
over-Within zero total h = inl refl
over-Within (suc n) total h = inr (ground (arith, h))

over-Exceeds : (limit total : ℕ) → over limit total ≡ true → Exceeds limit total
over-Exceeds limit total h = (ground (arith, h), ground (arith, h))

-- The last of the blocks that are dropped would exceed a limit.
abbrev pub Stops : ℕ → ℕ → List Block → List Block → Type 0
Stops max_messages max_chars dropped kept =
    (dropped ≡ [])
    ⊎ ((earlier : List Block) × (b : Block) × (dropped ≡ earlier ++ b ∷ [])
        × (Exceeds max_messages (total_length kept + length b.messages)
            ⊎ Exceeds max_chars (total_chars kept + b.chars)))

-- One block, or blocks within the limits.
abbrev pub IsRecent : ℕ → ℕ → List Block → Type 0
IsRecent max_messages max_chars bs = (length bs ≤ 1) ⊎ Fits max_messages max_chars bs

or_false-left : (a b : Bool) → a || b ≡ false → a ≡ false
or_false-left a b h = ground arith

or_false-right : (a b : Bool) → a || b ≡ false → b ≡ false
or_false-right a b h = ground arith

-- A block that the loop takes keeps the limits, unless it is the first one.
taken-IsRecent :
    (mm mc tm tc : ℕ) (b : Block) (selected : List Block)
    → total_length selected ≡ tm
    → total_chars selected ≡ tc
    → not (is_nil selected) && (over mm (tm + length b.messages) || over mc (tc + b.chars)) ≡ false
    → IsRecent mm mc (b ∷ selected)
taken-IsRecent mm mc tm tc b [] hm hc h = inl (omega arith)
taken-IsRecent mm mc tm tc b (s ∷ ss) hm hc h =
    let em : length b.messages + total_length (s ∷ ss) ≡ tm + length b.messages =
      omega (arith, hm) in
    let ec : b.chars + total_chars (s ∷ ss) ≡ tc + b.chars = omega (arith, hc) in
    inr (
      over-Within mm _ (ap (over mm) em ∙ or_false-left (over mm (tm + length b.messages)) _ h),
      over-Within mc _ (ap (over mc) ec ∙ or_false-right (over mm (tm + length b.messages)) _ h),
    )

-- The test of the loop stops it only where a limit is exceeded.
test-Exceeds :
    (mm mc tm tc : ℕ) (b : Block) (selected : List Block)
    → total_length selected ≡ tm
    → total_chars selected ≡ tc
    → not (is_nil selected) && (over mm (tm + length b.messages) || over mc (tc + b.chars)) ≡ true
    → Exceeds mm (total_length selected + length b.messages)
      ⊎ Exceeds mc (total_chars selected + b.chars)
test-Exceeds mm mc tm tc b selected hm hc h =
    rw (hm, hc)
      (elim (Bool-cases (over mm (tm + length b.messages))) [
        | inl e ↦ inl (over-Exceeds mm _ e)
        | inr e ↦ inr (over-Exceeds mc _ (ground (arith, e, h)))
      ])

-- What the loop selects is a suffix of the blocks, within the limits.
select_lem :
    (mm mc tm tc : ℕ) (selected rest : List Block)
    → total_length selected ≡ tm
    → total_chars selected ≡ tc
    → IsRecent mm mc selected
    → let found = select mm mc selected tm tc rest in
      ((dropped : List Block) × (dropped ++ found ≡ reverse rest ++ selected)
        × Stops mm mc dropped found)
      × IsRecent mm mc found
unfolding select
select_lem mm mc tm tc selected [] hm hc h = (([], refl, inl refl), h)
select_lem mm mc tm tc selected (b ∷ bs) hm hc h = elim (Bool-cases test) [
  | inl e ↦ rw e (
    (
      reverse (b ∷ bs),
      refl,
      inr (reverse bs, b, reverse-append (b ∷ []) bs, test-Exceeds mm mc tm tc b selected hm hc e),
    ),
    h,
  )
  | inr e ↦
      let ((dropped, same, stops), recent) =
        select_lem mm mc (tm + length b.messages) (tc + b.chars) (b ∷ selected) bs
          (omega (arith, hm)) (omega (arith, hc)) (taken-IsRecent mm mc tm tc b selected hm hc e) in
      rw e (
        (
          dropped,
          same
              ∙ sym (append_assoc (reverse bs) (b ∷ []) selected)
              ∙ ap (λ l. l ++ selected) (sym (reverse-append (b ∷ []) bs)),
          stops,
        ),
        recent,
      )
]
  where
    test : Bool
    test = not (is_nil selected) && (over mm (tm + length b.messages) || over mc (tc + b.chars))

select-ne :
    (mm mc tm tc : ℕ) (selected rest : List Block)
    → is_nil (selected ++ rest) ≡ false
    → is_nil (select mm mc selected tm tc rest) ≡ false
unfolding select
select-ne mm mc tm tc [] [] h = absurd (cc)
select-ne mm mc tm tc [] (b ∷ bs) h =
    select-ne mm mc (tm + length b.messages) (tc + b.chars) (b ∷ []) bs refl
select-ne mm mc tm tc (s ∷ ss) [] h = refl
select-ne mm mc tm tc (s ∷ ss) (b ∷ bs) h =
    if_both {A = List Block} (λ l. is_nil l ≡ false)
      (over mm (tm + length b.messages) || over mc (tc + b.chars)) _ _ refl
      (select-ne mm mc (tm + length b.messages) (tc + b.chars) (b ∷ s ∷ ss) bs refl)

length-blocks-le : (n : ℕ) (ms : List Message) → length (blocks n ms) ≤ n
unfolding blocks
length-blocks-le zero ms = omega arith
length-blocks-le (suc n) [] = omega arith
length-blocks-le (suc n) (m ∷ ms) = elim (Bool-cases (has_calls m)) [
  | inl e ↦ rw e (omega (arith, length-blocks-le n (after_tools ms)))
  | inr e ↦ rw e (omega (arith, length-blocks-le n ms))
]

is_nil-blocks : (ms : List Message) → is_nil (blocks (length ms) ms) ≡ is_nil ms
unfolding blocks
is_nil-blocks [] = refl
is_nil-blocks (m ∷ ms) = elim (Bool-cases (has_calls m)) [ inl e ↦ rw e refl | inr e ↦ rw e refl ]

reverse-is_nil {ℓ} : {A : Type ℓ} (xs : List A) → is_nil xs ≡ false → is_nil (reverse xs) ≡ false
reverse-is_nil [] h = h
reverse-is_nil (x ∷ xs) h = rw (reverse-append (x ∷ []) xs) (snoc (reverse xs))
  where
    snoc : (ys : List _) → is_nil (ys ++ x ∷ []) ≡ false
    snoc [] = refl
    snoc (y ∷ ys) = refl

no_more {ℓ} : {A : Type ℓ} (xs ys zs : List A) → xs ++ ys ≡ zs → length ys ≡ length zs → ys ≡ zs
no_more [] ys zs e h = e
no_more (x ∷ xs) ys zs e h = absurd (omega (arith, ap length e, length-append xs ys, h))

-- The blocks at the end of a history that make up a part of it, within the limits.
pub record Recent (history : List Message) (mm mc : ℕ) (kept : List Message) : Type 0 where
  pub dropped : List Block
  pub blocks_kept : List Block
  pub covers : concat_blocks (dropped ++ blocks_kept) ≡ history
  pub whole : AreWhole (dropped ++ blocks_kept)
  pub same : kept ≡ concat_blocks blocks_kept
  pub within : IsRecent mm mc blocks_kept
  pub stops : Stops mm mc dropped blocks_kept
  pub some_kept : is_nil history ≡ false → is_nil blocks_kept ≡ false

all-Recent :
    (history : List Message) (mm mc : ℕ)
    → IsRecent mm mc (blocks (length history) history)
    → Recent history mm mc history
all-Recent history mm mc h = record {
  dropped = [];
  blocks_kept = blocks (length history) history;
  covers = concat-blocks (length history) history (omega arith);
  whole = blocks-AreWhole (length history) history (omega arith);
  same = sym (concat-blocks (length history) history (omega arith));
  within = h;
  stops = inl refl;
  some_kept = λ ne. is_nil-blocks history ∙ ne;
}

-- The history falls into blocks, each an assistant message with tool calls and all the tool messages
-- right after it, or one other message. The prompt gets the last ones of them, so that none of these
-- answers is parted from its call: no more messages and characters than the limits allow, or the last
-- block alone if that is already too large; a history that is not empty gives at least one block; and the
-- last block that is left out would, with those kept, exceed a limit that is set.
pub trim_history_for_prompt_lem :
    (history : List Message) (mm mc : ℕ)
    → Recent history mm mc (trim_history_for_prompt history mm mc)
unfolding trim_history_for_prompt
trim_history_for_prompt_lem history mm mc = elim (Bool-cases small) [
  | inl e ↦ rw e (all-Recent history mm mc (small-IsRecent e))
  | inr e ↦ rw e (elim (Bool-cases (length selected == length bs)) [
    | inl f ↦ rw f (
        all-Recent history mm mc
          (subst (IsRecent mm mc) (no_more dropped selected bs whole (==→eq f)) recent))
    | inr f ↦ rw f (record {
      dropped = dropped;
      blocks_kept = selected;
      covers = ap concat_blocks whole ∙ concat-blocks (length history) history (omega arith);
      whole = subst AreWhole (sym whole) (blocks-AreWhole (length history) history (omega arith));
      same = refl;
      within = recent;
      stops = found.0.2;
      some_kept = λ ne.
          select-ne mm mc 0 0 [] (reverse bs) (reverse-is_nil bs (is_nil-blocks history ∙ ne));
    })
  ])
]
  where
    bs : List Block
    bs = blocks (length history) history

    small : Bool
    small = leb (length history) 1 || ((mm == 0) && (mc == 0))

    selected : List Block
    selected = selected_blocks history mm mc

    found :
        ((dropped : List Block) × (dropped ++ selected ≡ reverse (reverse bs) ++ [])
          × Stops mm mc dropped selected)
        × IsRecent mm mc selected
    found = select_lem mm mc 0 0 [] (reverse bs) refl refl (inl (omega arith))

    dropped : List Block
    dropped = found.0.0

    whole : dropped ++ selected ≡ bs
    whole = found.0.1 ∙ append-nil (reverse (reverse bs)) ∙ reverse-reverse bs

    recent : IsRecent mm mc selected
    recent = found.1

    ==→eq : length selected == length bs ≡ true → length selected ≡ length bs
    ==→eq f = ground arith

    unlimited : (limit : ℕ) → limit == 0 ≡ true → (total : ℕ) → Within limit total
    unlimited limit z total = inl (ground arith)

    small-IsRecent : small ≡ true → IsRecent mm mc bs
    small-IsRecent e = elim (Bool-cases (leb (length history) 1)) [
      | inl short ↦ inl (
          omega (arith, leb→le (length history) 1 short, length-blocks-le (length history) history))
      | inr long ↦ inr (unlimited mm (ground arith) _, unlimited mc (ground arith) _)
    ]
