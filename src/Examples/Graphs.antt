-- ===== src/Examples/Graphs.antt =====
-- Graphs whose numbers do not fall along the edges.
use finality_grandpa.Base.{nat_ord, ℕ, ◌+◌, Bool, ltb, List, [], ◌∷◌}
use finality_grandpa.Base.BTreeMap
use finality_grandpa.Base.BTreeMap.{BTreeMap}
use finality_grandpa.VoteGraph.{VoteGraph, VoteData, Entry}

instance abbrev weights : VoteData ℕ
weights = record { default = 0; add = λ a b. a + b }

abbrev node : ℕ → List ℕ → List ℕ → ℕ → Entry ℕ ℕ
node number ancestors descendents weight = record {
  number = number;
  ancestors = ancestors;
  descendents = descendents;
  cumulative_vote = weight;
}

-- Three vote-nodes of number 1, each the parent of the next.
abbrev flat : VoteGraph ℕ ℕ
flat = record {
  entries =
      (10, node 1 [] (11 ∷ []) 7)
      ∷ (11, node 1 (10 ∷ []) (12 ∷ []) 5)
      ∷ (12, node 1 (11 ∷ []) [] 2)
      ∷ [];
  heads = 12 ∷ [];
  base = 10;
  base_number = 1;
}

abbrev voted : BTreeMap ℕ (Entry ℕ ℕ)
voted =
    (10, node 1 [] (11 ∷ []) 8)
    ∷ (11, node 1 (10 ∷ []) (12 ∷ []) 6)
    ∷ (12, node 1 (11 ∷ []) [] 3)
    ∷ []

abbrev heavy : ℕ → Bool
heavy weight = ltb 4 weight
