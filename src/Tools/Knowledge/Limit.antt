-- ===== src/Tools/Knowledge/Limit.antt =====
-- How many nodes `SearchNodes` of pkg/tools/knowledge_graph.go returns.
use chango_assistant.Base.{
  Bool, Bool-cases, List, List-cases, Text, [], ap, append-nil, append_assoc, arith, inl, inr, keep,
  leb, leb_false→lt, leb→le, length, length-append, refl, suc, sym, take, zero, ℕ, ◌++◌, ◌<◌, ◌∙◌,
  ◌∷◌, ◌≡◌, ◌≤◌,
}
use chango_assistant.Tools.Knowledge.Graph.{GraphEnv, KnowledgeGraph, KnowledgeNode, holds, load}
use chango_assistant.Tools.Knowledge.Store.{collect, has_token, search_nodes}

take-all : (n : ℕ) (xs ys : List KnowledgeNode) → n ≡ length xs → take n (xs ++ ys) ≡ xs
take-all zero [] ys e = refl
take-all zero (x ∷ xs) ys e = absurd (omega arith)
take-all (suc n) [] ys e = absurd (omega arith)
take-all (suc n) (x ∷ xs) ys e = ap (λ t. x ∷ t) (take-all n xs ys (omega arith))

take-short : (n : ℕ) (xs : List KnowledgeNode) → length xs ≤ n → take n xs ≡ xs
take-short zero [] h = refl
take-short zero (x ∷ xs) h = absurd (omega arith)
take-short (suc n) [] h = refl
take-short (suc n) (x ∷ xs) h = ap (λ t. x ∷ t) (take-short n xs (omega arith))

module _ (hit : KnowledgeNode → Bool) (max : ℕ) where
  collect_more :
      (hits ns : List KnowledgeNode)
      → length hits < max
      → collect hit max hits ns ≡ take max (hits ++ keep hit ns)
  unfolding collect
  collect_more hits [] h =
      sym (take-short max (hits ++ []) (omega (arith, length-append hits [])) ∙ append-nil hits)
  collect_more hits (n ∷ ns) h = elim (Bool-cases (hit n)) [
    | inr e ↦ ground (arith, collect_more hits ns h)
    | inl e ↦
        let more : length (hits ++ n ∷ []) ≡ suc (length hits) =
          omega (arith, length-append hits (n ∷ [])) in
        let shift : hits ++ (n ∷ keep hit ns) ≡ (hits ++ n ∷ []) ++ keep hit ns =
          sym (append_assoc hits (n ∷ []) (keep hit ns)) in
        elim (Bool-cases (leb max (length (hits ++ n ∷ [])))) [
          | inl full ↦
              rw (e, full, shift)
                (sym (
                  take-all max (hits ++ n ∷ []) (keep hit ns)
                    (omega (arith, leb→le max (length (hits ++ n ∷ [])) full))))
          | inr room ↦
              rw (e, room, shift)
                (collect_more (hits ++ n ∷ []) ns (leb_false→lt max (length (hits ++ n ∷ [])) room))
        ]
  ]

none_hit : (env : GraphEnv) (ns : List KnowledgeNode) → keep (has_token env []) ns ≡ []
unfolding has_token
none_hit env [] = refl
none_hit env (n ∷ ns) = none_hit env ns

take-nil : (n : ℕ) → take {A = KnowledgeNode} n [] ≡ []
take-nil zero = refl
take-nil (suc n) = refl

-- Where at least one node is asked for, SearchNodes returns the first nodes of the graph in which a
-- token of the query occurs, in the order of the graph and at most the number asked for.
pub search_nodes-first :
    (env : GraphEnv) (query : Text) (max : ℕ) (g : KnowledgeGraph)
    → 1 ≤ max
    → search_nodes env query max (holds g)
      ≡ take max (keep (has_token env (env.fields (env.lower query))) g.nodes)
unfolding search_nodes load
search_nodes-first env query max g h = elim (List-cases (env.fields (env.lower query))) [
  | inl e ↦ rw (e, none_hit env g.nodes, take-nil max) refl
  | inr (c, e) ↦ rw e (collect_more (has_token env (c.0 ∷ c.1)) max [] g.nodes h)
]
