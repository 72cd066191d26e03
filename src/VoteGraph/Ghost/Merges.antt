-- ===== src/VoteGraph/Ghost/Merges.antt =====
-- The loop of `ghost_find_merge_point` has enough fuel: it ends at the highest number of the nodes.
use finality_grandpa.Base.{
  ℕ, zero, suc, ◌+◌, ◌≤◌, ◌≡◌, Bool, Option, none, some, List, [], ◌∷◌, ◌++◌, keep, Ord, Returns,
  Returns->>=, arith, refl, inl, inr, Option-cases,
}
use finality_grandpa.Base.BTreeMap.{BTreeMap}
use finality_grandpa.VoteGraph.{VoteGraph, VoteData, Entry, ancestor_block}
use finality_grandpa.VoteGraph.Ghost.{
  satisfies, get_nodes, merge_round, merge_from, highest, ghost_find_merge_point,
}

module _ {ℓ κ} {H : Type ℓ} {V : Type κ} ⦃o : Ord H⦄ ⦃d : VoteData V⦄ (condition : V → Bool) where
  no_block :
      (node : Entry H V) (number : ℕ) → node.number ≤ number → ancestor_block node number ≡ none
  unfolding ancestor_block
  no_block node number le = ground (arith, le)

  merge_round-none :
      (number : ℕ) (blocks : BTreeMap H V) (nodes : List (Entry H V))
      → highest nodes ≤ number
      → merge_round condition number blocks nodes ≡ none
  unfolding merge_round highest
  merge_round-none number blocks [] le = refl
  merge_round-none number blocks (node ∷ nodes) le =
      rw (no_block node number (omega (arith, le)), merge_round)
        (merge_round-none number blocks nodes (omega (arith, le)))

  highest-keep :
      (f : Entry H V → Bool) (nodes : List (Entry H V)) → highest (keep f nodes) ≤ highest nodes
  unfolding highest
  highest-keep f [] = omega arith
  highest-keep f (node ∷ nodes) = ground (arith, highest-keep f nodes)

  -- Within the rounds that `ghost_find_merge_point` gives it, the loop returns.
  merge_from-Returns :
      (fuel base_number offset best_number : ℕ) (hashes : List H) (nodes : List (Entry H V))
      → highest nodes ≤ base_number + offset + fuel
      → Returns (merge_from (suc fuel) condition base_number offset best_number hashes nodes)
  unfolding merge_from
  merge_from-Returns zero base_number offset best_number hashes nodes le =
      rw (merge_round-none (base_number + suc offset) [] nodes (omega (arith, le)), merge_from) tt
  merge_from-Returns (suc fuel) base_number offset best_number hashes nodes le =
      elim (Option-cases (merge_round condition (base_number + suc offset) [] nodes)) [
        | inl ended ↦ rw (ended, merge_from) tt
        | inr (new_best, found) ↦
            rw (found, merge_from)
              (merge_from-Returns fuel base_number (suc offset) (suc best_number)
                (hashes ++ new_best ∷ [])
                (keep (satisfies (some (new_best, suc best_number))) nodes)
                (omega
                  (arith, le, highest-keep (satisfies (some (new_best, suc best_number))) nodes)))
      ]

  -- `ghost_find_merge_point` returns when the descendents are vote-nodes.
  pub ghost_find_merge_point-Returns :
      (g : VoteGraph H V) (key : H) (node : Entry H V) (constraint : Option (H × ℕ))
      → Returns (get_nodes g.entries node.descendents)
      → Returns (ghost_find_merge_point g key node constraint condition)
  unfolding ghost_find_merge_point
  ghost_find_merge_point-Returns g key node constraint found =
      Returns->>= (get_nodes g.entries node.descendents)
        (λ all_nodes.
          merge_from (suc (highest (keep (satisfies constraint) all_nodes))) condition node.number 0
            node.number (key ∷ []) (keep (satisfies constraint) all_nodes))
        found
        (λ all_nodes.
          merge_from-Returns (highest (keep (satisfies constraint) all_nodes)) node.number 0
            node.number (key ∷ []) (keep (satisfies constraint) all_nodes) (omega arith))
