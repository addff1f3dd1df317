-- ===== src/Tests/GraphCases.antt =====
-- The knowledge graph tool on a graph with three nodes and two edges.
use chango_assistant.Base.{
  List, Text, [], arith, codes, contains, has_prefix, keep, none, refl, take, text_eq, ◌∷◌, ◌≡◌,
}
use chango_assistant.Providers.Types.{Fields, end_fields, field, text}
use chango_assistant.Sentinel.Service.{collect}
use chango_assistant.Tools.Knowledge.Calls.{IsValidFile, execute-IsValid}
use chango_assistant.Tools.Knowledge.Graph.{
  GraphEnv, KnowledgeEdge, KnowledgeGraph, KnowledgeNode, has_edge, has_node, holds, is_edge, load,
}
use chango_assistant.Tools.Knowledge.Limit.{search_nodes-first}
use chango_assistant.Tools.Knowledge.Search.{
  adjacent, begin, expand, extend, found, loop, offer, scan, search_path, seen,
}
use chango_assistant.Tools.Knowledge.Shortest.{Answers, search_path-Answers}
use chango_assistant.Tools.Knowledge.Sound.{IsValid}
use chango_assistant.Tools.Knowledge.Store.{execute, has_token, haystack, search_nodes}

abbrev node : Text → Text → KnowledgeNode
node id name = record { id = id; node_type = codes "person"; name = name; properties = [] }

abbrev edge : Text → Text → KnowledgeEdge
edge from to = record {
  from = from;
  to = to;
  relation = codes "knows";
  weight = codes "1";
  source = [];
}

abbrev two_edges : List KnowledgeEdge
two_edges = edge (codes "a") (codes "b") ∷ edge (codes "c") (codes "b") ∷ []

abbrev small_graph : KnowledgeGraph
small_graph = record {
  nodes =
      node (codes "a") (codes "Ana")
      ∷ node (codes "b") (codes "Beto")
      ∷ node (codes "c") (codes "Caro")
      ∷ [];
  edges = two_edges;
}

abbrev env : GraphEnv
env = record {
  show_value = λ v. codes "value";
  two_decimals = λ w. w;
  percent = λ w. none;
  lower = λ t. t;
  upper = λ t. t;
  fields = λ t. t ∷ [];
  group_order = λ ts. ts;
  fault = none;
}

small_graph-IsValid : IsValid small_graph
unfolding has_node has_edge text_eq is_edge
small_graph-IsValid = record {
  ids = (refl, (refl, (refl, tt)));
  ends = ((refl, refl), ((refl, refl), tt));
  once = (refl, (refl, tt));
}

abbrev removes_b : Fields
removes_b =
    field (codes "action") (text (codes "remove_node"))
      (field (codes "id") (text (codes "b")) end_fields)

-- The path from a to c goes through b.
path_found :
    search_path two_edges (codes "a") (codes "c")
    ≡ found (record {
      node_id = codes "c";
      path = codes "a" ∷ codes "b" ∷ codes "c" ∷ [];
      labels = codes "knows" ∷ codes "knows" ∷ [];
    })
unfolding search_path loop begin expand scan adjacent offer extend seen text_eq
path_found = refl

-- A path from a node to itself is found, whether or not the graph has the node.
path_of_a_stranger :
    search_path two_edges (codes "x") (codes "x")
    ≡ found (record { node_id = codes "x"; path = codes "x" ∷ []; labels = [] })
unfolding search_path loop begin expand scan adjacent offer extend seen text_eq
path_of_a_stranger = refl

-- A search for at most 0 nodes returns one.
search_for_none :
    search_nodes env (codes "A") 0 (holds small_graph) ≡ node (codes "a") (codes "Ana") ∷ []
unfolding search_nodes load collect has_token haystack contains has_prefix
search_for_none = refl

search_path-Answers_example :
    Answers two_edges (codes "a") (codes "c") (search_path two_edges (codes "a") (codes "c"))
search_path-Answers_example = search_path-Answers two_edges (codes "a") (codes "c")

execute-IsValid_example : IsValidFile (execute env removes_b (holds small_graph)).1
execute-IsValid_example = execute-IsValid env removes_b (holds small_graph) small_graph-IsValid

search_nodes-first_example :
    search_nodes env (codes "e") 2 (holds small_graph)
    ≡ take 2 (keep (has_token env (env.fields (env.lower (codes "e")))) small_graph.nodes)
search_nodes-first_example = search_nodes-first env (codes "e") 2 small_graph (omega arith)
