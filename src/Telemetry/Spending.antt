-- ===== src/Telemetry/Spending.antt =====
-- What the budget lets through, over a day and over a restart.
use chango_assistant.Base.{
  All, Bool, Bool-cases, List, Text, [], ap, arith, false, if◌then◌else◌, inl, inr, refl, sym,
  text_eq, text_eq-ne, text_eq_refl, text_eq→eq, true, ℕ, ◌∙◌, ◌∷◌, ◌≡◌, ◌≢◌, ◌⊎◌,
}
use chango_assistant.Base.Int64.{IsInt64, add_int64, add_int64-zero, pos, ℤ, ◌≤ℤ◌}
use chango_assistant.Telemetry.Budget.{
  Moment, TokenBudget, can_spend, maybe_reset, new_token_budget, record_usage, save, spend,
}

module _ (date : ℕ → Text) where
  save-counters :
      (now : ℕ) (ok : Bool) (tb : TokenBudget)
      → ((save date now ok tb).today_used ≡ tb.today_used)
        × ((save date now ok tb).bg_used ≡ tb.bg_used)
        × ((save date now ok tb).daily_limit ≡ tb.daily_limit)
        × ((save date now ok tb).background_max ≡ tb.background_max)
        × ((save date now ok tb).last_reset ≡ tb.last_reset)
  unfolding save
  save-counters now true tb = (refl, refl, refl, refl, refl)
  save-counters now false tb = (refl, refl, refl, refl, refl)

  -- After the check of the date, the last reset is of today.
  maybe_reset-today :
      (m : Moment) (tb : TokenBudget) → date (maybe_reset date m tb).last_reset ≡ date m.now
  unfolding maybe_reset
  maybe_reset-today m tb = elim (Bool-cases (text_eq (date tb.last_reset) (date m.now))) [
    | inl e ↦ rw e (text_eq→eq _ _ e)
    | inr e ↦ rw e (ap date (save-counters m.reset_saved m.reset_ok _).4)
  ]

  maybe_reset-same_day :
      (m : Moment) (tb : TokenBudget) → date tb.last_reset ≡ date m.now → maybe_reset date m tb ≡ tb
  unfolding maybe_reset
  maybe_reset-same_day m tb h = rw (h, text_eq_refl (date m.now))

  maybe_reset-new_day :
      (m : Moment) (tb : TokenBudget)
      → date tb.last_reset ≢ date m.now
      → ((maybe_reset date m tb).today_used ≡ pos 0) × ((maybe_reset date m tb).bg_used ≡ pos 0)
  unfolding maybe_reset
  maybe_reset-new_day m tb h =
      let (used, bg, _, _, _) =
        save-counters m.reset_saved m.reset_ok
          (record tb { today_used = pos 0; bg_used = pos 0; last_reset = m.now }) in
      rw (text_eq-ne _ _ h) (used, bg)

  -- The budget after checks that other processes make.
  abbrev pub checks : List (Moment × ℤ × Bool) → TokenBudget → TokenBudget
  unfolding can_spend
  checks [] tb = tb
  checks ((m, tokens, background) ∷ others) tb =
      checks others (can_spend date m tokens background tb).1

  checks-same_day :
      (day : Text) (others : List (Moment × ℤ × Bool)) (tb : TokenBudget)
      → All (λ c. date c.0.now ≡ day) others
      → date tb.last_reset ≡ day
      → checks others tb ≡ tb
  unfolding can_spend
  checks-same_day day [] tb h today = refl
  checks-same_day day ((m, tokens, background) ∷ others) tb h today =
      ap (checks others) (maybe_reset-same_day m tb (today ∙ sym h.0))
      ∙ checks-same_day day others tb h.1 today

  -- If a check allows a number of tokens and as many are recorded on the same day, and what other
  -- processes do on the budget in between is to check, then what is used stays within the daily limit,
  -- and within the limit of the background processes if the spending is theirs.
  pub can_spend-record_usage :
      (m m' : Moment) (tokens : ℤ) (background : Bool) (others : List (Moment × ℤ × Bool))
      (tb : TokenBudget)
      → All (λ c. date c.0.now ≡ date m.now) others
      → date m'.now ≡ date m.now
      → (can_spend date m tokens background tb).0 ≡ true
      → let tb' =
          record_usage date m' tokens background
            (checks others (can_spend date m tokens background tb).1) in
        (tb'.today_used ≤ℤ tb'.daily_limit)
        × ((background ≡ false) ⊎ (tb'.bg_used ≤ℤ tb'.background_max))
  unfolding can_spend record_usage
  can_spend-record_usage m m' tokens background others tb same day h =
      rw
        (
          checks-same_day (date m.now) others tb' same (maybe_reset-today m tb),
          maybe_reset-same_day m' tb' (maybe_reset-today m tb ∙ sym day),
        )
        (let (used, bg, limit, max_bg, _) =
            save-counters m'.saved m'.ok (spend date tokens background tb') in
          rw (used, bg, limit, max_bg) (ground arith, ground arith))
    where
      tb' : TokenBudget
      tb' = maybe_reset date m tb

  -- The first record of a new day starts from nothing.
  record_usage-new_day :
      (m : Moment) (tokens : ℤ) (background : Bool) (tb : TokenBudget)
      → date tb.last_reset ≢ date m.now
      → IsInt64 tokens
      → let tb' = record_usage date m tokens background tb in
        (tb'.today_used ≡ tokens)
        × (tb'.bg_used ≡ (if background then tokens else pos 0))
        × (date tb'.last_reset ≡ date m.now)
  unfolding record_usage
  record_usage-new_day m tokens background tb day h =
      let (used, bg, _, _, last) =
        save-counters m.saved m.ok (spend date tokens background (maybe_reset date m tb)) in
      let (none_used, none_bg) = maybe_reset-new_day m tb day in
      (
        used ∙ (ap (λ u. add_int64 u tokens) none_used ∙ add_int64-zero tokens h),
        bg ∙ ground (arith, none_bg, ap (λ u. add_int64 u tokens) none_bg, add_int64-zero tokens h),
        ap date last ∙ maybe_reset-today m tb,
      )

  -- A budget that is recorded and written comes back with its counters when the process restarts on
  -- the same day, and with none on another day.
  record_usage-restart :
      (m : Moment) (tokens : ℤ) (background : Bool) (tb : TokenBudget) (now now' : ℕ)
      (limit max_bg : ℤ)
      → m.ok ≡ true
      → let tb' = record_usage date m tokens background tb in
        let restarted = new_token_budget date now now' tb'.file limit max_bg in
        (restarted.today_used
          ≡ (if text_eq (date m.saved) (date now') then tb'.today_used else pos 0))
        × (restarted.bg_used ≡ (if text_eq (date m.saved) (date now') then tb'.bg_used else pos 0))
  unfolding record_usage new_token_budget
  record_usage-restart m tokens background tb now now' limit max_bg h =
      unfold save in
      elim (Bool-cases (text_eq (date m.saved) (date now'))) [
        | inl e ↦ rw (h, e) (refl, refl)
        | inr e ↦ rw (h, e) (refl, refl)
      ]
