-- ===== src/Tools/Knowledge/Store.antt =====
-- The calls of the knowledge graph tool as a whole, and what other code asks of it.
use chango_assistant.Base.{
  Bool, List, Option, Text, [], any, codes, contains, if◌then◌else◌, inl, inr, is_nil, keep, leb,
  length, none, some, switch, text_eq, ℕ, ◌++◌, ◌∷◌,
}
use chango_assistant.Providers.Types.{Fields}
use chango_assistant.Tools.Args.{text_arg}
use chango_assistant.Tools.Knowledge.Changes.{add_edge, add_node, remove_edge, remove_node}
use chango_assistant.Tools.Knowledge.Graph.{
  GraphEnv, GraphFile, KnowledgeEdge, KnowledgeNode, find_node, load, touches,
}
use chango_assistant.Tools.Knowledge.Paths.{find_path, name_or}
use chango_assistant.Tools.Knowledge.Views.{query_node, search_for, visualize}
use chango_assistant.Tools.Result.{ToolResult, error_result}

-- The cases of the switch in `Execute`.
unfoldable pub actions : GraphEnv → Fields → GraphFile → List (Text × (ToolResult × GraphFile))
unfolding add_node add_edge query_node search_for find_path visualize remove_node remove_edge
actions env args file =
    (codes "add_node", add_node env args file)
    ∷ (codes "add_edge", add_edge env args file)
    ∷ (codes "query", query_node env args file)
    ∷ (codes "search", search_for env args file)
    ∷ (codes "path", find_path args file)
    ∷ (codes "visualize", visualize env file)
    ∷ (codes "remove_node", remove_node env args file)
    ∷ (codes "remove_edge", remove_edge env args file)
    ∷ []

unfoldable pub unknown_action : Fields → ToolResult
unfolding text_arg error_result
unknown_action args = error_result (
    codes "Unknown action: "
    ++ text_arg (codes "action") args
    ++ codes
        ". Valid: add_node, add_edge, query, search, path, visualize, remove_node, remove_edge")

-- `Execute`.
unfoldable pub execute : GraphEnv → Fields → GraphFile → ToolResult × GraphFile
unfolding actions unknown_action text_arg text_eq
execute env args file =
    switch (text_arg (codes "action") args) (actions env args file) (unknown_action args, file)

-- The text that `SearchNodes` looks in.
unfoldable pub haystack : GraphEnv → KnowledgeNode → Text
haystack env n =
    env.lower (n.id ++ codes " " ++ n.name ++ codes " " ++ n.node_type) ++ values env n.properties
  where
    values : GraphEnv → List (Text × Text) → Text
    values env [] = []
    values env ((k, v) ∷ ps) = codes " " ++ env.lower v ++ values env ps

-- A token of the query occurs in it.
unfoldable pub has_token : GraphEnv → List Text → KnowledgeNode → Bool
unfolding haystack contains
has_token env tokens n = any (λ token. contains (haystack env n) token) tokens

-- The loop of `SearchNodes`, with the matches so far; it stops after the node that fills them.
unfoldable pub collect :
    (KnowledgeNode → Bool) → ℕ → List KnowledgeNode → List KnowledgeNode → List KnowledgeNode
collect hit max hits [] = hits
collect hit max hits (n ∷ ns) =
    let hits' = if hit n then hits ++ n ∷ [] else hits in
    let rest = collect hit max hits' ns in if leb max (length hits') then hits' else rest

-- `SearchNodes`.
unfoldable pub search_nodes : GraphEnv → Text → ℕ → GraphFile → List KnowledgeNode
unfolding load collect has_token
search_nodes env query max file = elim (load file) [
  | inl e ↦ []
  | inr g ↦
      let tokens = env.fields (env.lower query) in
      if is_nil tokens then [] else collect (has_token env tokens) max [] g.nodes
]

-- `QueryNode`.
unfoldable pub query_graph : Text → GraphFile → Option (KnowledgeNode × List KnowledgeEdge)
unfolding load find_node touches
query_graph id file = elim (load file) [
  | inl e ↦ none
  | inr g ↦ elim (find_node id g.nodes) [
    | none ↦ none
    | some n ↦ some (n, keep (touches id) g.edges)
  ]
]

-- `GetNodeName`.
unfoldable pub get_node_name : Text → GraphFile → Text
unfolding load find_node
get_node_name id file = elim (load file) [ inl e ↦ id | inr g ↦ name_or (find_node id g.nodes) id ]
