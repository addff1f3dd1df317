-- ===== src/Tools/Knowledge/Neighbours.antt =====
-- The neighbours that `findPath` collects are those that an edge joins.
use chango_assistant.Base.{
  All, All-append, All-mono, Bool, List, Text, [], false, if_true, if◌then◌else◌, inl, inr, refl,
  subst, text_eq, text_eq_iff, text_eq→eq, true, ◌++◌, ◌∷◌, ◌≡◌,
}
use chango_assistant.Tools.Knowledge.Graph.{KnowledgeEdge}
use chango_assistant.Tools.Knowledge.Search.{Joins, adjacent, first_edge, later_edge}

All-append_split :
    {A : Type 0} (P : A → Type 0) (xs ys : List A) → All P (xs ++ ys) → All P xs × All P ys
All-append_split P [] ys h = (tt, h)
All-append_split P (x ∷ xs) ys h = let (a, b) = All-append_split P xs ys h.1 in ((h.0, a), b)

abbrev JoinsAll : Text → List KnowledgeEdge → List (Text × Text) → Type 0
JoinsAll id es ns = All (λ n. Joins id n.0 n.1 es) ns

one_if :
    (b : Bool) (id : Text) (es : List KnowledgeEdge) (n : Text × Text)
    → (b ≡ true → Joins id n.0 n.1 es)
    → JoinsAll id es (if b then n ∷ [] else [])
one_if true id es n f = (f refl, tt)
one_if false id es n f = tt

pub adjacent-Joins : (id : Text) (es : List KnowledgeEdge) → JoinsAll id es (adjacent id es)
unfolding adjacent
adjacent-Joins id [] = tt
adjacent-Joins id (e ∷ es) =
    All-append (λ n. Joins id n.0 n.1 (e ∷ es))
      (if text_eq e.from id then (e.to, e.relation) ∷ [] else [])
      ((if text_eq e.to id then (e.from, e.relation) ∷ [] else []) ++ adjacent id es)
      (one_if (text_eq e.from id) id (e ∷ es) (e.to, e.relation)
        (λ h. first_edge refl (inl (text_eq→eq e.from id h, refl))))
      (All-append (λ n. Joins id n.0 n.1 (e ∷ es))
        (if text_eq e.to id then (e.from, e.relation) ∷ [] else []) (adjacent id es)
        (one_if (text_eq e.to id) id (e ∷ es) (e.from, e.relation)
          (λ h. first_edge refl (inr (refl, text_eq→eq e.to id h))))
        (All-mono (λ n. Joins id n.0 n.1 es) (λ n. Joins id n.0 n.1 (e ∷ es)) (adjacent id es)
          (λ n j. later_edge j) (adjacent-Joins id es)))

head_of_if :
    (P : Text × Text → Type 0) (a b : Text) (n : Text × Text)
    → a ≡ b
    → All P (if text_eq a b then n ∷ [] else [])
    → P n
head_of_if P a b n e h =
    (subst (All P) (if_true (text_eq a b) (n ∷ []) [] ((text_eq_iff a b).1 e)) h).0

-- What holds of all the neighbours holds of a node that an edge joins.
pub adjacent_all :
    (P : Text → Type 0) (a b relation : Text) (es : List KnowledgeEdge)
    → Joins a b relation es
    → All (λ n. P n.0) (adjacent a es)
    → P b
unfolding adjacent
adjacent_all P a b relation [] j h = elim j [ ]
adjacent_all P a b relation (e ∷ es) (first_edge r (inl (p, q))) h = subst P q (
    head_of_if (λ n. P n.0) e.from a (e.to, e.relation) p
      (All-append_split (λ n. P n.0) (if text_eq e.from a then (e.to, e.relation) ∷ [] else [])
        ((if text_eq e.to a then (e.from, e.relation) ∷ [] else []) ++ adjacent a es) h).0)
adjacent_all P a b relation (e ∷ es) (first_edge r (inr (p, q))) h = subst P p (
    head_of_if (λ n. P n.0) e.to a (e.from, e.relation) q
      (All-append_split (λ n. P n.0) (if text_eq e.to a then (e.from, e.relation) ∷ [] else [])
        (adjacent a es)
        (All-append_split (λ n. P n.0) (if text_eq e.from a then (e.to, e.relation) ∷ [] else [])
          ((if text_eq e.to a then (e.from, e.relation) ∷ [] else []) ++ adjacent a es) h).1).0)
adjacent_all P a b relation (e ∷ es) (later_edge j) h =
    adjacent_all P a b relation es j
      (All-append_split (λ n. P n.0) (if text_eq e.to a then (e.from, e.relation) ∷ [] else [])
        (adjacent a es)
        (All-append_split (λ n. P n.0) (if text_eq e.from a then (e.to, e.relation) ∷ [] else [])
          ((if text_eq e.to a then (e.from, e.relation) ∷ [] else []) ++ adjacent a es) h).1).1
