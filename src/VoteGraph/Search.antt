-- ===== src/VoteGraph/Search.antt =====
-- `VoteGraph::find_containing_nodes`.
pub mod Terminates
pub mod Sound
pub mod Closed
pub mod Complete
use finality_grandpa.Base.{
  ℕ, zero, suc, true, false, Option, none, some, List, [], ◌∷◌, ◌++◌, length, Ord, Outcome, ok,
  panic, ◌>>=◌,
}
use finality_grandpa.Base.BTreeMap
use finality_grandpa.Base.BTreeMap.{BTreeMap}
use finality_grandpa.Base.BTreeSet
use finality_grandpa.Base.BTreeSet.{BTreeSet}
use finality_grandpa.VoteGraph.{VoteGraph, Entry, in_direct_ancestry, ancestor_node}

module _ {ℓ κ} {H : Type ℓ} {V : Type κ} ⦃o : Ord H⦄ where
  -- The inner loop: from one vote-node back along the ancestor edges. The keys found and the nodes
  -- visited so far are passed on.
  unfoldable pub walk :
      ℕ → BTreeMap H (Entry H V) → H → ℕ → H → List H → BTreeSet H → Outcome (List H × BTreeSet H)
  walk zero entries hash number head keys visited = panic
  walk (suc fuel) entries hash number head keys visited = elim (BTreeMap.get entries head) [
    | none ↦ ok (keys, visited)
    | some entry ↦ elim (BTreeSet.contains visited head) [
      | true ↦ ok (keys, visited)
      | false ↦ elim (in_direct_ancestry entry hash number) [
        | some contained ↦ elim contained [
          | true ↦ ok (keys ++ head ∷ [], BTreeSet.insert visited head)
          | false ↦ ok (keys, BTreeSet.insert visited head)
        ]
        | none ↦ elim (ancestor_node entry) [
          | some prev ↦ walk fuel entries hash number prev keys (BTreeSet.insert visited head)
          | none ↦ ok (keys, BTreeSet.insert visited head)
        ]
      ]
    ]
  ]

  -- The outer loop, over the heads.
  unfoldable pub walk_heads :
      List H → BTreeMap H (Entry H V) → H → ℕ → List H → BTreeSet H → Outcome (List H × BTreeSet H)
  unfolding walk
  walk_heads [] entries hash number keys visited = ok (keys, visited)
  walk_heads (head ∷ heads) entries hash number keys visited =
      walk (suc (length entries)) entries hash number head keys visited >>= λ r.
      walk_heads heads entries hash number r.0 r.1

  unfoldable pub find_containing_nodes : VoteGraph H V → H → ℕ → Outcome (Option (List H))
  unfolding walk_heads
  find_containing_nodes g hash number = elim (BTreeMap.contains_key g.entries hash) [
    | true ↦ ok none
    | false ↦ walk_heads g.heads g.entries hash number [] [] >>= λ r. ok (some r.0)
  ]
