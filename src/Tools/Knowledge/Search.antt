-- ===== src/Tools/Knowledge/Search.antt =====
-- The search of `findPath` of pkg/tools/knowledge_graph.go, and what it should find.
use chango_assistant.Base.{
  Bool, List, Text, [], any, false, if◌then◌else◌, length, suc, text_eq, true, zero, ℕ, ◌*◌, ◌++◌,
  ◌∷◌, ◌≡◌, ◌⊎◌,
}
use chango_assistant.Tools.Knowledge.Graph.{KnowledgeEdge}

-- `bfsState`.
pub record BfsState : Type 0 where
  pub node_id : Text
  pub path : List Text
  pub labels : List Text

-- `visited` and `queue`.
pub record Search : Type 0 where
  pub visited : List Text
  pub queue : List BfsState

pub data Outcome : Type 0 where
  found : BfsState → Outcome
  exhausted out_of_fuel : Outcome

-- `visited[id]`.
unfoldable pub seen : Text → List Text → Bool
unfolding text_eq
seen id visited = any (λ v. text_eq v id) visited

-- `adj[id]`: an edge is followed both ways.
unfoldable pub adjacent : Text → List KnowledgeEdge → List (Text × Text)
unfolding text_eq
adjacent id [] = []
adjacent id (e ∷ es) =
    (if text_eq e.from id then (e.to, e.relation) ∷ [] else [])
    ++ ((if text_eq e.to id then (e.from, e.relation) ∷ [] else []) ++ adjacent id es)

-- One step further.
unfoldable pub extend : BfsState → Text → Text → BfsState
extend current id relation = record {
  node_id = id;
  path = current.path ++ id ∷ [];
  labels = current.labels ++ relation ∷ [];
}

-- The body of the loop over the neighbours.
unfoldable pub offer : BfsState → Text → Text → Search → Search
unfolding seen extend
offer current id relation s =
    if seen id s.visited
    then s
    else record { visited = id ∷ s.visited; queue = s.queue ++ extend current id relation ∷ [] }

-- The loop over the neighbours.
unfoldable pub scan : BfsState → List (Text × Text) → Search → Search
unfolding offer
scan current [] s = s
scan current ((id, relation) ∷ ns) s = scan current ns (offer current id relation s)

module _ (edges : List KnowledgeEdge) (to : Text) where
  -- One round of the outer loop, after `current` left the queue.
  unfoldable pub expand : BfsState → List BfsState → Search → Search
  unfolding scan adjacent
  expand current rest s = scan current (adjacent current.node_id edges) (record s { queue = rest })

  -- The outer loop.
  unfoldable pub loop : ℕ → Search → Outcome
  unfolding expand text_eq
  loop zero s = elim s.queue [ [] ↦ exhausted | _ ∷ _ ↦ out_of_fuel ]
  loop (suc fuel) s = elim s.queue [
    | [] ↦ exhausted
    | current ∷ rest ↦ elim (text_eq current.node_id to) [
      | true ↦ found current
      | false ↦ loop fuel (expand current rest s)
    ]
  ]

-- The search before the loop.
unfoldable pub begin : Text → Search
begin from = record {
  visited = from ∷ [];
  queue = record { node_id = from; path = from ∷ []; labels = [] } ∷ [];
}

-- One round for each of the nodes that the edges name, and one for `from`.
unfoldable pub search_path : List KnowledgeEdge → Text → Text → Outcome
unfolding loop begin
search_path edges from to = loop edges to (suc (2 * length edges)) (begin from)

-- An edge with this relation joins the two, one way or the other.
pub data Joins (a b relation : Text) : List KnowledgeEdge → Type 0 where
  first_edge :
      {e : KnowledgeEdge} {es : List KnowledgeEdge}
      → e.relation ≡ relation
      → ((e.from ≡ a) × (e.to ≡ b)) ⊎ ((e.from ≡ b) × (e.to ≡ a))
      → Joins a b relation (e ∷ es)
  later_edge :
      {e : KnowledgeEdge} {es : List KnowledgeEdge}
      → Joins a b relation es
      → Joins a b relation (e ∷ es)

-- A walk along edges, with the nodes on it and the relations between them.
pub data Walk (edges : List KnowledgeEdge) (from : Text)
    : Text → List Text → List Text → Type 0 where
  start : Walk edges from from (from ∷ []) []
  onward :
      {a b relation : Text} {path labels : List Text}
      → Walk edges from a path labels
      → Joins a b relation edges
      → Walk edges from b (path ++ b ∷ []) (labels ++ relation ∷ [])
