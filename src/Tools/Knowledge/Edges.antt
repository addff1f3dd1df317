-- ===== src/Tools/Knowledge/Edges.antt =====
-- What `addEdge` of pkg/tools/knowledge_graph.go does to a valid graph.
use chango_assistant.Base.{
  All, All-append, List, Text, [], any-snoc_or, arith, false, if_both, if◌then◌else◌, refl, text_eq,
  text_eq_comm, true, ◌++◌, ◌||◌, ◌∙◌, ◌∷◌, ◌≡◌,
}
use chango_assistant.Tools.Knowledge.Changes.{set_edge}
use chango_assistant.Tools.Knowledge.Graph.{
  KnowledgeEdge, KnowledgeGraph, KnowledgeNode, has_edge, has_node, is_edge,
}
use chango_assistant.Tools.Knowledge.Sound.{Ends, IsValid, UniqueEdges}

has_edge-append :
    (a b relation : Text) (es : List KnowledgeEdge) (e : KnowledgeEdge)
    → has_edge a b relation (es ++ e ∷ []) ≡ has_edge a b relation es || is_edge a b relation e
unfolding has_edge
has_edge-append a b relation es e = any-snoc_or (is_edge a b relation) es e

is_edge_comm :
    (d e : KnowledgeEdge) → is_edge d.from d.to d.relation e ≡ is_edge e.from e.to e.relation d
unfolding is_edge
is_edge_comm d e =
    rw (text_eq_comm e.from d.from, text_eq_comm e.to d.to, text_eq_comm e.relation d.relation) refl

UniqueEdges-snoc :
    (es : List KnowledgeEdge) (e : KnowledgeEdge)
    → has_edge e.from e.to e.relation es ≡ false
    → UniqueEdges es
    → UniqueEdges (es ++ e ∷ [])
unfolding has_edge
UniqueEdges-snoc [] e h u = (refl, tt)
UniqueEdges-snoc (d ∷ ds) e h u = (
  has_edge-append d.from d.to d.relation ds e ∙ ground (arith, is_edge_comm d e, u.0),
  UniqueEdges-snoc ds e (ground arith) u.1,
)

pub add_edge-IsValid :
    (g : KnowledgeGraph) (e : KnowledgeEdge)
    → has_node e.from g.nodes ≡ true
    → has_node e.to g.nodes ≡ true
    → has_edge e.from e.to e.relation g.edges ≡ false
    → IsValid g
    → IsValid (record g { edges = g.edges ++ e ∷ [] })
add_edge-IsValid g e f t h v = record {
  ids = v.ids;
  ends = All-append (Ends g.nodes) g.edges (e ∷ []) v.ends ((f, t), tt);
  once = UniqueEdges-snoc g.edges e h v.once;
}

module _ (from to relation weight source : Text) where
  abbrev reweighed : KnowledgeEdge → KnowledgeEdge
  reweighed e = record e {
    weight = weight;
    source = if text_eq source [] then e.source else source;
  }

  has_edge-set_edge :
      (a b r : Text) (es : List KnowledgeEdge)
      → has_edge a b r (set_edge from to relation weight source es) ≡ has_edge a b r es
  unfolding has_edge set_edge is_edge
  has_edge-set_edge a b r [] = refl
  has_edge-set_edge a b r (e ∷ es) = ground (arith, has_edge-set_edge a b r es)

  UniqueEdges-set_edge :
      (es : List KnowledgeEdge)
      → UniqueEdges es
      → UniqueEdges (set_edge from to relation weight source es)
  unfolding set_edge
  UniqueEdges-set_edge [] u = tt
  UniqueEdges-set_edge (e ∷ es) u =
      if_both UniqueEdges (is_edge from to relation e) (reweighed e ∷ es)
        (e ∷ set_edge from to relation weight source es) (u.0, u.1)
        (has_edge-set_edge e.from e.to e.relation es ∙ u.0, UniqueEdges-set_edge es u.1)

  Ends-set_edge :
      (nodes : List KnowledgeNode) (es : List KnowledgeEdge)
      → All (Ends nodes) es
      → All (Ends nodes) (set_edge from to relation weight source es)
  unfolding set_edge
  Ends-set_edge nodes [] a = tt
  Ends-set_edge nodes (e ∷ es) a =
      if_both (All (Ends nodes)) (is_edge from to relation e) (reweighed e ∷ es)
        (e ∷ set_edge from to relation weight source es) (a.0, a.1)
        (a.0, Ends-set_edge nodes es a.1)

  pub set_edge-IsValid :
      (g : KnowledgeGraph)
      → IsValid g
      → IsValid (record g { edges = set_edge from to relation weight source g.edges })
  set_edge-IsValid g v = record {
    ids = v.ids;
    ends = Ends-set_edge g.nodes g.edges v.ends;
    once = UniqueEdges-set_edge g.edges v.once;
  }
