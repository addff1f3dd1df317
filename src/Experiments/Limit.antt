-- ===== src/Experiments/Limit.antt =====
-- The limit on active experiments, and how they end.
use chango_assistant.Base.{
  All, Bool, Bool-cases, List, Option, Option-cases, Text, [], ap, arith, false, if_both,
  if◌then◌else◌, inl, inr, leb, ltb, none, refl, some, subst, sym, text_eq, text_eq_refl, true, ℕ,
  ◌++◌, ◌+◌, ◌∙◌, ◌∷◌, ◌≡◌, ◌≢◌, ◌≤◌,
}
use chango_assistant.Base.Int64.{ℤ}
use chango_assistant.Experiments.Store.{
  Hypothesis, Store, active_status, add, count_active, expire, expire_old, expired_status,
  is_active, is_over, max_active_hypotheses, not_found, save, set_fields, update, update_first,
  with_defaults,
}

save-hypotheses : (ok : Bool) (s : Store) → (save ok s).0.hypotheses ≡ s.hypotheses
unfolding save
save-hypotheses true s = refl
save-hypotheses false s = refl

count_active-snoc-le :
    (hs : List Hypothesis) (h : Hypothesis) → count_active (hs ++ h ∷ []) ≤ count_active hs + 1
unfolding count_active
count_active-snoc-le [] h = ground arith
count_active-snoc-le (x ∷ hs) h = ground (arith, count_active-snoc-le hs h)

-- Adding keeps the number of active hypotheses at three or fewer.
add-bounded :
    (now : Text) (ok : Bool) (h : Hypothesis) (s : Store)
    → count_active s.hypotheses ≤ max_active_hypotheses
    → count_active (add now ok h s).0.hypotheses ≤ max_active_hypotheses
unfolding add
add-bounded now ok h s le =
    elim (Bool-cases (leb max_active_hypotheses (count_active s.hypotheses))) [
      | inl e ↦ rw e le
      | inr e ↦
          rw
            (
              e,
              save-hypotheses ok
                  (record s { hypotheses = s.hypotheses ++ with_defaults now h ∷ [] }),
            )
            (ground (arith, count_active-snoc-le s.hypotheses (with_defaults now h)))
    ]

abbrev count_or : Option (List Hypothesis) → ℕ
count_or none = 0
count_or (some hs) = count_active hs

-- A hypothesis that is not active and is updated to be so adds to the active ones, however many
-- there are already.
update_first-count :
    (id evaluated_at : Text) (cycles : ℤ) (hs ks : List Hypothesis)
    → All (λ h. text_eq h.id id ≡ true → is_active h ≡ false) hs
    → update_first id (set_fields active_status evaluated_at cycles) hs ≡ some ks
    → count_active ks ≡ count_active hs + 1
unfolding update_first count_active
update_first-count id ev cycles [] ks off h = absurd (cc)
update_first-count id ev cycles (x ∷ hs) ks off h = elim (Bool-cases (text_eq x.id id)) [
  | inl e ↦
      let same : some (set_fields active_status ev cycles x ∷ hs) ≡ some ks = rw e at h in
      subst (λ o. count_or o ≡ count_active (x ∷ hs) + 1) same
        (rw (off.0 e) (ground (arith, text_eq_refl active_status)))
  | inr e ↦ elim (Option-cases (update_first id (set_fields active_status ev cycles) hs)) [
    | inl z ↦ absurd (cc (rw (e, z) at h))
    | inr (js, z) ↦
        let same : some (x ∷ js) ≡ some ks = rw (e, z) at h in
        subst (λ o. count_or o ≡ count_active (x ∷ hs) + 1) same
          (ground (arith, update_first-count id ev cycles hs js off.1 z))
  ]
]

-- `Update` does not look at the limit: making an inactive hypothesis active adds to the active ones,
-- however many there are.
update-exceeds :
    (id evaluated_at : Text) (cycles : ℤ) (ok : Bool) (s : Store)
    → All (λ h. text_eq h.id id ≡ true → is_active h ≡ false) s.hypotheses
    → (update id active_status evaluated_at cycles ok s).1 ≢ some not_found
    → count_active (update id active_status evaluated_at cycles ok s).0.hypotheses
      ≡ count_active s.hypotheses + 1
unfolding update
update-exceeds id ev cycles ok s off found =
    elim (Option-cases (update_first id (set_fields active_status ev cycles) s.hypotheses)) [
      | inl e ↦ absurd (found (rw (e, update)))
      | inr (ks, e) ↦
          rw (e, update)
            (ap count_active (save-hypotheses ok (record s { hypotheses = ks }))
              ∙ update_first-count id ev cycles s.hypotheses ks off e)
    ]

expired-off : text_eq expired_status active_status ≡ false
unfolding text_eq
expired-off = refl

expired-over :
    (now : Text) (h : Hypothesis)
    → is_over (record h { status = expired_status; evaluated_at = now }) ≡ false
expired-over now h = rw expired-off

expire-lem :
    (now : Text) (hs : List Hypothesis)
    → All (λ h. is_over h ≡ false) (expire now hs).0
      × (count_active (expire now hs).0 + (expire now hs).1 ≡ count_active hs)
unfolding expire count_active
expire-lem now [] = (tt, omega arith)
expire-lem now (h ∷ hs) =
    let (none_over, fewer) = expire-lem now hs in
    elim (Bool-cases (is_over h)) [
      | inl e ↦ rw e ((expired-over now h, none_over), ground (arith, expired-off))
      | inr e ↦ rw e ((e, none_over), ground arith)
    ]

-- After `ExpireOld` no active hypothesis has used up its cycles; the number that it returns is that by
-- which the active ones have become fewer.
expire_old_lem :
    (now : Text) (ok : Bool) (s : Store)
    → let (s', n) = expire_old now ok s in
      All (λ h. is_over h ≡ false) s'.hypotheses
      × (count_active s'.hypotheses + n ≡ count_active s.hypotheses)
unfolding expire_old
expire_old_lem now ok s =
    let (hs, n) = expire now s.hypotheses in
    let s' = record s { hypotheses = hs } in
    let same : (if ltb 0 n then (save ok s').0 else s').hypotheses ≡ hs =
      if_both {A = Store} (λ t. t.hypotheses ≡ hs) (ltb 0 n) _ _ (save-hypotheses ok s') refl in
    (
      subst (All (λ h. is_over h ≡ false)) (sym same) (expire-lem now s.hypotheses).0,
      ap (λ ks. count_active ks + n) same ∙ (expire-lem now s.hypotheses).1,
    )
