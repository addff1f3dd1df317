-- ===== src/State/Reload.antt =====
-- pkg/state/state.go across a restart.
use chango_assistant.Base.{
  Bool, Bool-cases, List, Option, Text, inl, inr, insert, is_some, lookup, lookup-insert, none,
  refl, some, text_eq, true, ℕ, ◌||◌, ◌≡◌, ◌⊎◌,
}
use chango_assistant.State.Manager.{
  Fault, Files, Manager, State, content, empty_state, get_last_channel, get_last_chat_id,
  get_timestamp, has_been_welcomed, is_set, load, mark_welcomed, missing, new_manager, rename,
  save_atomic, set_last_channel, set_last_chat_id, wrap_error, write,
}

-- The three operations that change the state.
pub data Op : Type 0 where
  channel : Text → Op
  chat_id : Text → Op
  welcome : Text → Op

welcomed :
    (w u : Text) (m : List (Text × Bool))
    → is_set (lookup u (insert w true m)) ≡ text_eq w u || is_set (lookup u m)
welcomed w u m = elim (Bool-cases (text_eq w u)) [
  | inl e ↦ rw (lookup-insert w u true m, e) refl
  | inr e ↦ rw (lookup-insert w u true m, e) refl
]

module _ (encode : State → Text) (decode : Text → State → State × Bool) where
  unfoldable pub apply : Op → ℕ → Option Fault → Manager → Manager × Option Text
  unfolding set_last_channel set_last_chat_id mark_welcomed
  apply (channel c) now fault sm = set_last_channel encode c now fault sm
  apply (chat_id c) now fault sm = set_last_chat_id encode c now fault sm
  apply (welcome u) now fault sm = mark_welcomed encode u now fault sm

  -- What an operation makes the manager remember.
  abbrev pub Remembers : Op → ℕ → Manager → Manager → Type 0
  Remembers (channel c) now sm sm' =
      (get_last_channel sm' ≡ c)
      × (get_last_chat_id sm' ≡ get_last_chat_id sm)
      × (get_timestamp sm' ≡ now)
      × ((u : Text) → has_been_welcomed u sm' ≡ has_been_welcomed u sm)
  Remembers (chat_id c) now sm sm' =
      (get_last_chat_id sm' ≡ c)
      × (get_last_channel sm' ≡ get_last_channel sm)
      × (get_timestamp sm' ≡ now)
      × ((u : Text) → has_been_welcomed u sm' ≡ has_been_welcomed u sm)
  Remembers (welcome w) now sm sm' =
      (get_last_channel sm' ≡ get_last_channel sm)
      × (get_last_chat_id sm' ≡ get_last_chat_id sm)
      × (get_timestamp sm' ≡ now)
      × ((u : Text) → has_been_welcomed u sm' ≡ text_eq w u || has_been_welcomed u sm)

  apply-Remembers :
      (op : Op) (now : ℕ) (fault : Option Fault) (sm : Manager)
      → Remembers op now sm (apply op now fault sm).0
  unfolding apply set_last_channel set_last_chat_id mark_welcomed save_atomic has_been_welcomed
      get_last_channel get_last_chat_id get_timestamp
  apply-Remembers (channel c) now none sm = (refl, refl, refl, λ u. refl)
  apply-Remembers (channel c) now (some (write f)) sm = (refl, refl, refl, λ u. refl)
  apply-Remembers (channel c) now (some rename) sm = (refl, refl, refl, λ u. refl)
  apply-Remembers (chat_id c) now none sm = (refl, refl, refl, λ u. refl)
  apply-Remembers (chat_id c) now (some (write f)) sm = (refl, refl, refl, λ u. refl)
  apply-Remembers (chat_id c) now (some rename) sm = (refl, refl, refl, λ u. refl)
  apply-Remembers (welcome w) now none sm =
      (refl, refl, refl, λ u. welcomed w u sm.state.welcomed_users)
  apply-Remembers (welcome w) now (some (write f)) sm =
      (refl, refl, refl, λ u. welcomed w u sm.state.welcomed_users)
  apply-Remembers (welcome w) now (some rename) sm =
      (refl, refl, refl, λ u. welcomed w u sm.state.welcomed_users)

  -- What the files hold after a save with this error.
  abbrev Kept : Files → Manager → Option Text → Type 0
  Kept files sm err =
      ((err ≡ none) × ((later : Option Fault) → new_manager encode decode later sm.files ≡ sm))
      ⊎ ((is_some err ≡ true) × (sm.files.state_file ≡ files.state_file))

  reload :
      (bytes : Text) (s : State) (later : Option Fault) (files : Files)
      → decode bytes empty_state ≡ (s, true)
      → let saved = record files { state_file = content bytes } in
        new_manager encode decode later saved ≡ record { state = s; files = saved }
  unfolding new_manager load
  reload bytes s later files h = rw h refl

  save_atomic-Kept :
      (fault : Option Fault) (sm : Manager)
      → let (sm', err) = save_atomic encode fault sm in
        decode (encode sm'.state) empty_state ≡ (sm'.state, true)
        → Kept sm.files sm' err × Kept sm.files sm' (wrap_error encode err)
  unfolding save_atomic
  save_atomic-Kept none sm h =
      let again = λ (later : Option Fault).
        reload (encode sm.state) sm.state later (record sm.files { temp_file = missing }) h in
      (inl (refl, again), inl (refl, again))
  save_atomic-Kept (some (write f)) sm h = (inr (refl, refl), inr (refl, refl))
  save_atomic-Kept (some rename) sm h = (inr (refl, refl), inr (refl, refl))

  apply-Kept :
      (op : Op) (now : ℕ) (fault : Option Fault) (sm : Manager)
      → let (sm', err) = apply op now fault sm in
        decode (encode sm'.state) empty_state ≡ (sm'.state, true) → Kept sm.files sm' err
  unfolding apply set_last_channel set_last_chat_id mark_welcomed
  apply-Kept (channel c) now fault sm h = (save_atomic-Kept fault _ h).1
  apply-Kept (chat_id c) now fault sm h = (save_atomic-Kept fault _ h).1
  apply-Kept (welcome w) now fault sm h = (save_atomic-Kept fault _ h).0

  -- Every change is remembered at once. Where the save reports no error, a manager that is started on
  -- the files then has exactly this state, if JSON reads back what it printed; where it reports one,
  -- the file of the state is the one before.
  pub apply-restart :
      (op : Op) (now : ℕ) (fault : Option Fault) (sm : Manager)
      → let (sm', err) = apply op now fault sm in
        decode (encode sm'.state) empty_state ≡ (sm'.state, true)
        → Remembers op now sm sm'
          × (((err ≡ none)
                × ((later : Option Fault) → new_manager encode decode later sm'.files ≡ sm'))
              ⊎ ((is_some err ≡ true) × (sm'.files.state_file ≡ sm.files.state_file)))
  apply-restart op now fault sm h = (apply-Remembers op now fault sm, apply-Kept op now fault sm h)
