-- ===== src/VoteGraph/Ghost.antt =====
-- `VoteGraph::find_ghost` with `ghost_find_merge_point`.
pub mod Merges
pub mod Settles
use finality_grandpa.Base.{
  ◌>>=◌, ℕ, zero, suc, ◌+◌, max, Bool, true, false, ◌&&◌, Option, none, some, List, [], ◌∷◌, ◌++◌,
  last, keep, length, Ord, Outcome, ok, err, panic, expect,
}
use finality_grandpa.Base.BTreeMap
use finality_grandpa.Base.BTreeMap.{BTreeMap}
use finality_grandpa.VoteGraph.{
  VoteGraph, VoteData, Entry, in_direct_ancestry, ancestor_block, ancestor_node,
}
use finality_grandpa.VoteGraph.Search.{find_containing_nodes}

-- `struct Subchain`
pub record Subchain {ℓ} (H : Type ℓ) : Type ℓ where
  pub hashes : List H
  pub best_number : ℕ

-- `Subchain::best`
unfoldable pub best {ℓ} : {H : Type ℓ} → Subchain H → Option (H × ℕ)
best s = elim (last s.hashes) [ none ↦ none | some h ↦ some (h, s.best_number) ]

module _ {ℓ κ} {H : Type ℓ} {V : Type κ} ⦃o : Ord H⦄ where
  -- `node.in_direct_ancestry(h, n).unwrap_or(false)` under a constraint, if there is one.
  unfoldable pub satisfies : Option (H × ℕ) → Entry H V → Bool
  satisfies none node = true
  satisfies (some (h, n)) node = elim (in_direct_ancestry node h n) [ none ↦ false | some b ↦ b ]

  -- `.map(|h| self.entries.get(h).expect(..))`
  unfoldable pub get_nodes : BTreeMap H (Entry H V) → List H → Outcome (List (Entry H V))
  get_nodes m [] = ok []
  get_nodes m (h ∷ hs) = do
    node ← expect (BTreeMap.get m h)
    nodes ← get_nodes m hs
    ok (node ∷ nodes)

  -- `next_descendent`: the first descendent under the constraint whose vote passes. The iterator is
  -- lazy, so no later descendent is looked up.
  unfoldable pub next_descendent :
      BTreeMap H (Entry H V)
      → Option (H × ℕ)
      → (V → Bool)
      → List H
      → Outcome (Option (H × Entry H V))
  unfolding satisfies
  next_descendent m constraint condition [] = ok none
  next_descendent m constraint condition (d ∷ ds) = elim (BTreeMap.get m d) [
    | none ↦ panic
    | some node ↦ elim (satisfies constraint node && condition node.cumulative_vote) [
      | true ↦ ok (some (d, node))
      | false ↦ next_descendent m constraint condition ds
    ]
  ]

  -- The search loop of `find_ghost`: the node where it ends, and the constraint that is left.
  unfoldable pub descend :
      ℕ
      → BTreeMap H (Entry H V)
      → Option (H × ℕ)
      → (V → Bool)
      → H
      → Entry H V
      → Outcome (H × Entry H V × Option (H × ℕ))
  unfolding next_descendent
  descend zero m constraint condition key node = panic
  descend (suc fuel) m constraint condition key node =
      elim (next_descendent m constraint condition node.descendents) [
        | ok next ↦ elim next [
          | none ↦ ok (key, node, constraint)
          | some (key', node') ↦ descend fuel m none condition key' node'
        ]
        | err e ↦ err e
        | panic ↦ panic
      ]

  -- `find_ghost`'s start: the node of the current best block, or the one below the edge with it.
  unfoldable pub ghost_start : VoteGraph H V → Option (H × ℕ) → Outcome (H × Option (H × ℕ))
  ghost_start g none = ok (g.base, none)
  ghost_start g (some (hash, number)) = do
    containing ← find_containing_nodes g hash number
    elim containing [
      | none ↦ ok (hash, none)
      | some nodes ↦ elim nodes [
        | [] ↦ ok (g.base, none)
        | x ∷ xs ↦ do
          node ← expect (BTreeMap.get g.entries x)
          ancestor ← expect (ancestor_node node)
          ok (ancestor, some (hash, number))
      ]
    ]

module _ {ℓ κ} {H : Type ℓ} {V : Type κ} ⦃o : Ord H⦄ ⦃d : VoteData V⦄ where
  -- The inner loop of `ghost_find_merge_point`: the votes of the nodes add up at their ancestor block
  -- of one number, kept sorted by hash, and the first block to pass on a second node is returned.
  unfoldable pub merge_round : (V → Bool) → ℕ → BTreeMap H V → List (Entry H V) → Option H
  merge_round condition number blocks [] = none
  merge_round condition number blocks (node ∷ nodes) = elim (ancestor_block node number) [
    | none ↦ merge_round condition number blocks nodes
    | some block ↦ elim (BTreeMap.get blocks block) [
      | none ↦
          merge_round condition number (BTreeMap.insert blocks block node.cumulative_vote) nodes
      | some v ↦ elim (condition (d.add v node.cumulative_vote)) [
        | true ↦ some block
        | false ↦
            merge_round condition number
              (BTreeMap.insert blocks block (d.add v node.cumulative_vote)) nodes
      ]
    ]
  ]

  -- The outer loop: `offset` is the one of the round before.
  unfoldable pub merge_from :
      ℕ → (V → Bool) → ℕ → ℕ → ℕ → List H → List (Entry H V) → Outcome (Subchain H)
  unfolding merge_round satisfies
  merge_from zero condition base_number offset best_number hashes nodes = panic
  merge_from (suc fuel) condition base_number offset best_number hashes nodes =
      elim (merge_round condition (base_number + suc offset) [] nodes) [
        | none ↦ ok (record { hashes = hashes; best_number = best_number })
        | some new_best ↦
            merge_from fuel condition base_number (suc offset) (suc best_number)
              (hashes ++ new_best ∷ []) (keep (satisfies (some (new_best, suc best_number))) nodes)
      ]

  -- The highest number among the nodes: no ancestor block has a higher one.
  unfoldable pub highest : List (Entry H V) → ℕ
  highest [] = 0
  highest (node ∷ nodes) = max node.number (highest nodes)

  -- `VoteGraph::ghost_find_merge_point`
  unfoldable pub ghost_find_merge_point :
      VoteGraph H V → H → Entry H V → Option (H × ℕ) → (V → Bool) → Outcome (Subchain H)
  unfolding get_nodes satisfies merge_from highest
  ghost_find_merge_point g node_key active_node constraint condition = do
    all_nodes ← get_nodes g.entries active_node.descendents
    let nodes = keep (satisfies constraint) all_nodes
    merge_from (suc (highest nodes)) condition active_node.number 0 active_node.number
        (node_key ∷ []) nodes

  -- `VoteGraph::find_ghost`
  unfoldable pub find_ghost : VoteGraph H V → Option (H × ℕ) → (V → Bool) → Outcome (Option (H × ℕ))
  unfolding ghost_start descend ghost_find_merge_point best
  find_ghost g current_best condition = do
    start ← ghost_start g current_best
    active_node ← expect (BTreeMap.get g.entries (start.0))
    elim (condition active_node.cumulative_vote) [
      | false ↦ ok none
      | true ↦ do
        found ←
            descend (suc (suc (length g.entries))) g.entries (start.1) condition (start.0)
              active_node
        subchain ← ghost_find_merge_point g (found.0) (found.1) (found.2) condition
        ok (best subchain)
    ]
