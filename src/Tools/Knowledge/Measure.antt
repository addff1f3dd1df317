-- ===== src/Tools/Knowledge/Measure.antt =====
-- The search of `findPath` ends: each round takes one state off the queue, and a state is added only
-- with a node that is marked for the first time.
use chango_assistant.Base.{
  All, All-append, All-mono, Bool, Bool-cases, List, Text, [], any, ap, arith, false, if◌then◌else◌,
  inl, inr, length, length-append, refl, suc, text_eq, text_eq_iff, text_eq_refl, true, ℕ, ◌*◌,
  ◌++◌, ◌+◌, ◌∷◌, ◌≡◌, ◌≤◌,
}
use chango_assistant.Tools.Knowledge.Graph.{KnowledgeEdge}
use chango_assistant.Tools.Knowledge.Search.{
  BfsState, Search, adjacent, begin, expand, extend, offer, scan, seen,
}

-- The nodes of a list that are not marked.
abbrev pub unmarked : List Text → List Text → ℕ
unmarked [] visited = 0
unmarked (v ∷ vs) visited =
    if seen v visited then unmarked vs visited else suc (unmarked vs visited)

-- What is left to do.
abbrev pub work : List Text → Search → ℕ
work nodes s = unmarked nodes s.visited + length s.queue

unmarked-cons_le :
    (id : Text) (nodes visited : List Text) → unmarked nodes (id ∷ visited) ≤ unmarked nodes visited
unfolding seen
unmarked-cons_le id [] visited = omega arith
unmarked-cons_le id (v ∷ vs) visited = ground (arith, unmarked-cons_le id vs visited)

abbrev pub Named : Text → List Text → Type 0
Named id nodes = any (λ v. text_eq v id) nodes ≡ true

unmarked-cons_lt :
    (id : Text) (nodes visited : List Text)
    → Named id nodes
    → seen id visited ≡ false
    → suc (unmarked nodes (id ∷ visited)) ≤ unmarked nodes visited
unfolding seen
unmarked-cons_lt id [] visited n h = absurd (cc)
unmarked-cons_lt id (v ∷ vs) visited n h = ground (
  arith,
  unmarked-cons_le id vs visited,
  unmarked-cons_lt id vs visited,
  text_eq_iff id v,
  text_eq_iff v id,
)

offer-work :
    (nodes : List Text) (current : BfsState) (id relation : Text) (s : Search)
    → Named id nodes
    → work nodes (offer current id relation s) ≤ work nodes s
unfolding offer
offer-work nodes current id relation s n = elim (Bool-cases (seen id s.visited)) [
  | inl e ↦ rw e (omega arith)
  | inr e ↦ rw e (
      omega (
        arith,
        unmarked-cons_lt id nodes s.visited n e,
        length-append s.queue (extend current id relation ∷ []),
      ))
]

scan-work :
    (nodes : List Text) (current : BfsState) (ns : List (Text × Text)) (s : Search)
    → All (λ n. Named n.0 nodes) ns
    → work nodes (scan current ns s) ≤ work nodes s
unfolding scan
scan-work nodes current [] s a = omega arith
scan-work nodes current ((id, relation) ∷ ns) s a =
    let step = offer-work nodes current id relation s a.0 in
    let rest = scan-work nodes current ns (offer current id relation s) a.1 in
    omega (arith, step, rest)

-- The ends of the edges.
abbrev pub ends : List KnowledgeEdge → List Text
ends [] = []
ends (e ∷ es) = e.from ∷ e.to ∷ ends es

length-ends : (es : List KnowledgeEdge) → length (ends es) ≡ 2 * length es
length-ends [] = refl
length-ends (e ∷ es) = omega (arith, length-ends es)

one_if_Named :
    (b : Bool) (nodes : List Text) (n : Text × Text)
    → Named n.0 nodes
    → All (λ k. Named k.0 nodes) (if b then n ∷ [] else [])
one_if_Named true nodes n h = (h, tt)
one_if_Named false nodes n h = tt

adjacent-ends :
    (id : Text) (es : List KnowledgeEdge) → All (λ n. Named n.0 (ends es)) (adjacent id es)
unfolding adjacent
adjacent-ends id [] = tt
adjacent-ends id (e ∷ es) =
    let P : Text × Text → Type 0 = λ n. Named n.0 (ends (e ∷ es)) in
    All-append P (if text_eq e.from id then (e.to, e.relation) ∷ [] else [])
      ((if text_eq e.to id then (e.from, e.relation) ∷ [] else []) ++ adjacent id es)
      (one_if_Named (text_eq e.from id) (ends (e ∷ es)) (e.to, e.relation)
        (ground (arith, text_eq_refl e.to)))
      (All-append P (if text_eq e.to id then (e.from, e.relation) ∷ [] else []) (adjacent id es)
        (one_if_Named (text_eq e.to id) (ends (e ∷ es)) (e.from, e.relation)
          (ground (arith, text_eq_refl e.from)))
        (All-mono (λ n. Named n.0 (ends es)) P (adjacent id es) (λ n h. ground arith)
          (adjacent-ends id es)))

pub expand-work :
    (edges : List KnowledgeEdge) (to : Text) (current : BfsState) (rest : List BfsState)
    (s : Search)
    → s.queue ≡ current ∷ rest
    → suc (work (ends edges) (expand edges to current rest s)) ≤ work (ends edges) s
unfolding expand
expand-work edges to current rest s e =
    let step =
      scan-work (ends edges) current (adjacent current.node_id edges) (record s { queue = rest })
        (adjacent-ends current.node_id edges) in
    omega (arith, step, ap length e)

unmarked-le : (nodes visited : List Text) → unmarked nodes visited ≤ length nodes
unmarked-le [] visited = omega arith
unmarked-le (v ∷ vs) visited = ground (arith, unmarked-le vs visited)

pub begin-work :
    (edges : List KnowledgeEdge) (from : Text)
    → work (ends edges) (begin from) ≤ suc (2 * length edges)
unfolding begin
begin-work edges from = omega (arith, unmarked-le (ends edges) (from ∷ []), length-ends edges)
