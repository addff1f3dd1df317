-- ===== src/Telemetry/Budget.antt =====
-- pkg/telemetry/budget.go. A moment is a number, read from the clock; `date` gives its date in Buenos
-- Aires, which is the time zone data's.
use chango_assistant.Base.{Bool, Text, if◌then◌else◌, not, text_eq, ℕ, ◌&&◌}
use chango_assistant.Base.Int64.{add_int64, ltb_ℤ, pos, ℤ}

pub record BudgetState : Type 0 where
  pub date : Text
  pub today_used : ℤ
  pub bg_used : ℤ

pub data BudgetFile : Type 0 where
  missing malformed : BudgetFile
  holds : BudgetState → BudgetFile

pub record TokenBudget : Type 0 where
  pub daily_limit : ℤ
  pub background_max : ℤ
  pub today_used : ℤ
  pub bg_used : ℤ
  pub last_reset : ℕ
  pub file : BudgetFile

-- The clock of one call: at its start, and when it writes the file after a reset and at its end; with
-- the outcomes of the two writes.
pub record Moment : Type 0 where
  pub now : ℕ
  pub reset_saved : ℕ
  pub saved : ℕ
  pub reset_ok : Bool
  pub ok : Bool

module _ (date : ℕ → Text) where
  -- `save`.
  unfoldable pub save : ℕ → Bool → TokenBudget → TokenBudget
  save now ok tb =
      if ok
      then record tb {
        file = holds (record { date = date now; today_used = tb.today_used; bg_used = tb.bg_used });
      }
      else tb

  abbrev pub restore : Text → BudgetFile → TokenBudget → TokenBudget
  restore today missing tb = tb
  restore today malformed tb = tb
  restore today (holds s) tb =
      if text_eq s.date today
      then record tb { today_used = s.today_used; bg_used = s.bg_used }
      else tb

  -- `load`.
  unfoldable pub load : ℕ → TokenBudget → TokenBudget
  load now tb = restore (date now) tb.file tb

  -- `NewTokenBudget`; the clock is read twice.
  unfoldable pub new_token_budget : ℕ → ℕ → BudgetFile → ℤ → ℤ → TokenBudget
  unfolding load
  new_token_budget now now' file daily_limit background_max = load now' (record {
    daily_limit = daily_limit;
    background_max = background_max;
    today_used = pos 0;
    bg_used = pos 0;
    last_reset = now;
    file = file;
  })

  -- `maybeReset`.
  unfoldable pub maybe_reset : Moment → TokenBudget → TokenBudget
  unfolding save
  maybe_reset m tb =
      if text_eq (date tb.last_reset) (date m.now)
      then tb
      else save m.reset_saved m.reset_ok
          (record tb { today_used = pos 0; bg_used = pos 0; last_reset = m.now })

  -- The tests of `CanSpend`.
  abbrev pub fits : ℤ → Bool → TokenBudget → Bool
  fits tokens background tb =
      not (ltb_ℤ tb.daily_limit (add_int64 tb.today_used tokens))
      && not (background && ltb_ℤ tb.background_max (add_int64 tb.bg_used tokens))

  -- `CanSpend`.
  unfoldable pub can_spend : Moment → ℤ → Bool → TokenBudget → Bool × TokenBudget
  unfolding maybe_reset add_int64
  can_spend m tokens background tb = let tb' = maybe_reset m tb in (fits tokens background tb', tb')

  abbrev pub spend : ℤ → Bool → TokenBudget → TokenBudget
  spend tokens background tb = record tb {
    today_used = add_int64 tb.today_used tokens;
    bg_used = if background then add_int64 tb.bg_used tokens else tb.bg_used;
  }

  -- `Record`.
  unfoldable pub record_usage : Moment → ℤ → Bool → TokenBudget → TokenBudget
  unfolding maybe_reset save add_int64
  record_usage m tokens background tb =
      save m.saved m.ok (spend tokens background (maybe_reset m tb))

  -- `GetStatus`.
  unfoldable pub get_status : Moment → TokenBudget → (ℤ × ℤ × ℤ × ℤ) × TokenBudget
  unfolding maybe_reset
  get_status m tb =
      let tb' = maybe_reset m tb in
      ((tb'.today_used, tb'.bg_used, tb'.daily_limit, tb'.background_max), tb')
