-- ===== src/Tools/Knowledge/Paths.antt =====
-- `findPath` of pkg/tools/knowledge_graph.go: the answer that is built from the search.
use chango_assistant.Base.{
  List, Option, Text, [], codes, decimal, if◌then◌else◌, length, none, some, text_eq, ◌++◌, ◌||◌,
  ◌∷◌,
}
use chango_assistant.Providers.Types.{Fields}
use chango_assistant.Tools.Args.{text_arg}
use chango_assistant.Tools.Knowledge.Graph.{
  GraphFile, KnowledgeGraph, KnowledgeNode, find_node, with_graph,
}
use chango_assistant.Tools.Knowledge.Search.{Outcome, exhausted, found, out_of_fuel, search_path}
use chango_assistant.Tools.Knowledge.Shortest.{Answers, search_path-Answers}
use chango_assistant.Tools.Result.{ToolResult, error_result, silent_result}

abbrev pub name_or : Option KnowledgeNode → Text → Text
name_or none id = id
name_or (some n) id = n.name

-- The loop over the path: each node by its name, with the relation that leads on from it.
unfoldable pub path_text : List KnowledgeNode → List Text → List Text → Text
unfolding find_node
path_text nodes [] labels = []
path_text nodes (id ∷ ids) [] =
    codes "  " ++ name_or (find_node id nodes) id ++ 10 ∷ path_text nodes ids []
path_text nodes (id ∷ ids) (relation ∷ labels) =
    codes "  "
    ++ name_or (find_node id nodes) id
    ++ codes " -["
    ++ relation
    ++ codes "]-> "
    ++ path_text nodes ids labels

-- The answer to a search, which does not run out of fuel.
unfoldable pub path_answer :
    (g : KnowledgeGraph) (from to : Text) (o : Outcome) → Answers g.edges from to o → ToolResult
unfolding path_text decimal silent_result
path_answer g from to (found st) a = silent_result (
    codes "Path from '"
    ++ from
    ++ codes "' to '"
    ++ to
    ++ codes "' ("
    ++ decimal (length st.labels)
    ++ codes " hops):"
    ++ 10 ∷ path_text g.nodes st.path st.labels)
path_answer g from to exhausted a =
    silent_result (codes "No path found between '" ++ from ++ codes "' and '" ++ to ++ codes "'")
path_answer g from to out_of_fuel a = absurd a

-- `findPath` on the graph that was read.
unfoldable pub path_in : Text → Text → KnowledgeGraph → ToolResult
unfolding path_answer search_path
path_in from to g =
    path_answer g from to (search_path g.edges from to) (search_path-Answers g.edges from to)

unfoldable pub find_path : Fields → GraphFile → ToolResult × GraphFile
unfolding with_graph path_in text_arg text_eq error_result
find_path args file =
    let from = text_arg (codes "from") args in
    let to = text_arg (codes "to") args in
    if text_eq from [] || text_eq to []
    then (error_result (codes "path requires from and to"), file)
    else with_graph file (λ g. (path_in from to g, file))
