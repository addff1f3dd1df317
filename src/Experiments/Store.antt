-- ===== src/Experiments/Store.antt =====
-- pkg/experiments/store.go, without the text of the prompt. An `int` is an integer in its range; a
-- time stamp is the text that the clock gives.
use chango_assistant.Base.{
  Bool, List, Option, Text, [], codes, false, if◌then◌else◌, keep, leb, ltb, none, some, suc,
  text_eq, true, ℕ, ◌&&◌, ◌++◌, ◌∷◌,
}
use chango_assistant.Base.Int64.{leb_ℤ, pos, ℤ}

pub record Hypothesis : Type 0 where
  pub id : Text
  pub title : Text
  pub description : Text
  pub category : Text
  pub adjustment : Text
  pub criteria : Text
  pub status : Text
  pub created_at : Text
  pub evaluated_at : Text
  pub cycle_count : ℤ
  pub max_cycles : ℤ

pub data ExperimentsFile : Type 0 where
  missing malformed : ExperimentsFile
  holds : List Hypothesis → ExperimentsFile

pub record Store : Type 0 where
  pub hypotheses : List Hypothesis
  pub file : ExperimentsFile

pub data StoreError : Type 0 where
  max_active not_found save_failed : StoreError

abbrev pub max_active_hypotheses : ℕ
max_active_hypotheses = 3

abbrev pub active_status : Text
active_status = codes "active"

abbrev pub expired_status : Text
expired_status = codes "expired"

abbrev pub is_active : Hypothesis → Bool
is_active h = text_eq h.status active_status

-- `load`.
unfoldable pub load : ExperimentsFile → List Hypothesis
load missing = []
load malformed = []
load (holds hs) = hs

-- `NewStore`.
unfoldable pub new_store : ExperimentsFile → Store
unfolding load
new_store file = record { hypotheses = load file; file = file }

-- `save`: the file is replaced whole, or stays.
unfoldable pub save : Bool → Store → Store × Option StoreError
save true s = (record s { file = holds s.hypotheses }, none)
save false s = (s, some save_failed)

-- `GetActive`.
unfoldable pub get_active : Store → List Hypothesis
get_active s = keep is_active s.hypotheses

-- `GetAll`.
unfoldable pub get_all : Store → List Hypothesis
get_all s = s.hypotheses

-- The counting loop of `Add`.
unfoldable pub count_active : List Hypothesis → ℕ
count_active [] = 0
count_active (h ∷ hs) = if is_active h then suc (count_active hs) else count_active hs

abbrev or_default : Text → Text → Text
or_default [] d = d
or_default (c ∷ s) d = c ∷ s

abbrev pub with_defaults : Text → Hypothesis → Hypothesis
with_defaults now h = record h {
  max_cycles = if leb_ℤ h.max_cycles (pos 0) then pos 4 else h.max_cycles;
  status = or_default h.status active_status;
  created_at = or_default h.created_at now;
}

-- `Add`.
unfoldable pub add : Text → Bool → Hypothesis → Store → Store × Option StoreError
unfolding count_active save
add now ok h s =
    if leb max_active_hypotheses (count_active s.hypotheses)
    then (s, some max_active)
    else save ok (record s { hypotheses = s.hypotheses ++ with_defaults now h ∷ [] })

abbrev pub set_fields : Text → Text → ℤ → Hypothesis → Hypothesis
set_fields status evaluated_at cycle_count h = record h {
  status = or_default status h.status;
  evaluated_at = or_default evaluated_at h.evaluated_at;
  cycle_count = if leb_ℤ (pos 0) cycle_count then cycle_count else h.cycle_count;
}

-- The loop of `Update`: `none` if no hypothesis has the identifier.
unfoldable pub update_first :
    Text → (Hypothesis → Hypothesis) → List Hypothesis → Option (List Hypothesis)
update_first id f [] = none
update_first id f (h ∷ hs) =
    let rest = update_first id f hs in
    if text_eq h.id id then some (f h ∷ hs) else elim rest [ none ↦ none | some ks ↦ some (h ∷ ks) ]

-- `Update`.
unfoldable pub update : Text → Text → Text → ℤ → Bool → Store → Store × Option StoreError
unfolding update_first save
update id status evaluated_at cycle_count ok s =
    elim (update_first id (set_fields status evaluated_at cycle_count) s.hypotheses) [
      | none ↦ (s, some not_found)
      | some hs ↦ save ok (record s { hypotheses = hs })
    ]

abbrev pub is_over : Hypothesis → Bool
is_over h = is_active h && leb_ℤ h.max_cycles h.cycle_count

-- The loop of `ExpireOld`, with the number of the expired.
unfoldable pub expire : Text → List Hypothesis → List Hypothesis × ℕ
expire now [] = ([], 0)
expire now (h ∷ hs) =
    let (ks, n) = expire now hs in
    if is_over h
    then (record h { status = expired_status; evaluated_at = now } ∷ ks, suc n)
    else (h ∷ ks, n)

-- `ExpireOld`.
unfoldable pub expire_old : Text → Bool → Store → Store × ℕ
unfolding expire save
expire_old now ok s =
    let (hs, n) = expire now s.hypotheses in
    let s' = record s { hypotheses = hs } in (if ltb 0 n then (save ok s').0 else s', n)
