-- ===== src/Round/State/Finalized.antt =====
-- What `Round::update` says of the finalized block and of the estimate.
use finality_grandpa.Base.{
  ap, ℕ, ◌≤◌, ◌≡◌, sym, subst, ◌∙◌, true, Option, some, Ord, ok, arith, leb→le, Ensures,
  Ensures->>=, Ensures-ok, anything, Outcome-cases, inl, inr,
}
use finality_grandpa.Weights.{reaches}
use finality_grandpa.VoterSet.Valid.{IsValid}
use finality_grandpa.VoterSet.Threshold.{threshold_of_eq}
use finality_grandpa.VoteGraph.Ancestor.{find_ancestor, cumulative_vote}
use finality_grandpa.VoteGraph.Ancestor.Walk.{
  ok-injective, LeadsTo, find_ancestor-IsFound, find_ancestor_weaker,
}
use finality_grandpa.Round.Context.{Phase, VoteNode}
use finality_grandpa.Round.Context.Weight.{supporting, counts_for, weight_lem}
use finality_grandpa.Round.State.{
  Round, threshold, update, update_estimate, is_completable, has_supermajority,
  possible_to_precommit, node_data,
}

module _ {ℓ κ μ} {VoterId : Type ℓ} {H : Type κ} {S : Type μ} ⦃oi : Ord VoterId⦄ where
  -- A supermajority of precommits for a node makes more of them possible.
  has_supermajority-possible_to_precommit :
      (r : Round VoterId H S) (node : VoteNode)
      → IsValid r.context.voters
      → has_supermajority r Phase.precommit node ≡ true
      → possible_to_precommit r node ≡ true
  unfolding has_supermajority possible_to_precommit
  has_supermajority-possible_to_precommit r node valid h = ground (
    arith,
    threshold_of_eq r.context.voters.total_weight,
    valid.positive,
    valid.bounded,
    valid.supermajority,
  )

module _ {ℓ κ μ} {VoterId : Type ℓ} {H : Type κ} {S : Type μ} ⦃oi : Ord VoterId⦄ ⦃oh : Ord H⦄ where
  -- The update of the round computes the finalized block and the estimate from the prevote-GHOST.
  abbrev Computed : Round VoterId H S → H × ℕ → Round VoterId H S → Type κ
  Computed r ghost r' =
      (find_ancestor r.graph (ghost.0) (ghost.1) (has_supermajority r Phase.precommit)
        ≡ ok r'.finalized)
      × (find_ancestor r.graph (ghost.0) (ghost.1) (possible_to_precommit r) ≡ ok r'.estimate)

  update_estimate-Computed :
      (r : Round VoterId H S) (ghost : H × ℕ) → Ensures (Computed r ghost) (update_estimate r ghost)
  unfolding update_estimate
  update_estimate-Computed r ghost =
      elim (Outcome-cases
        (find_ancestor r.graph (ghost.0) (ghost.1) (has_supermajority r Phase.precommit))) [
          | inr (inl (x, e)) ↦ rw e tt
          | inr (inr e) ↦ rw e tt
          | inl (finalized, e) ↦
              elim (Outcome-cases
                (find_ancestor r.graph (ghost.0) (ghost.1) (possible_to_precommit r))) [
                  | inr (inl (x, q)) ↦ rw (e, q) tt
                  | inr (inr q) ↦ rw (e, q) tt
                  | inl (estimate, q) ↦
                      rw (e, q)
                        (Ensures->>= (λ _. Unit {0}) (Computed r ghost)
                          (is_completable r ghost estimate) _ (anything _)
                          (λ completable _. (e, q)))
                ]
        ]

  update_computes :
      (r : Round VoterId H S) (ghost : H × ℕ)
      → reaches r.prevote.current_weight (threshold r) ≡ true
      → reaches r.precommit.current_weight (threshold r) ≡ true
      → r.prevote_ghost ≡ some ghost
      → Ensures (Computed r ghost) (update r)
  unfolding update
  update_computes r ghost prevotes precommits e =
      let computes : update r ≡ update_estimate r ghost =
        rw (prevotes, update) (simp (e, precommits)) in
      subst (Ensures (Computed r ghost)) (sym computes) (update_estimate-Computed r ghost)

  -- The block is finalized below the prevote-GHOST, and the estimate is between the two.
  pub record IsFinalized (r : Round VoterId H S) (ghost : H × ℕ) (b : H × ℕ)
      (estimate : Option (H × ℕ)) : Type κ where
    pub supported :
        (node : VoteNode) × (cumulative_vote r.graph (b.0) (b.1) ≡ ok node)
        × (threshold r
            ≤ supporting (counts_for r.context node Phase.precommit) r.context.voters.voters)
    pub below_ghost : LeadsTo r.graph ghost b
    pub below_estimate : (e : H × ℕ) × (estimate ≡ some e) × LeadsTo r.graph e b

  -- In a round of valid voters whose prevotes and precommits reach the threshold and that has a
  -- prevote-GHOST, a block that `update` finalizes has a cumulative vote in which the precommits and
  -- the equivocators of the precommit phase weigh at least the threshold. Going from parent to parent
  -- leads from the prevote-GHOST to the block, and there is an estimate from which it leads to the
  -- block too.
  pub update-IsFinalized :
      (r r' : Round VoterId H S) (ghost b : H × ℕ)
      → IsValid r.context.voters
      → reaches r.prevote.current_weight (threshold r) ≡ true
      → reaches r.precommit.current_weight (threshold r) ≡ true
      → r.prevote_ghost ≡ some ghost
      → update r ≡ ok r'
      → r'.finalized ≡ some b
      → IsFinalized r ghost b r'.estimate
  unfolding has_supermajority
  update-IsFinalized r r' ghost b valid prevotes precommits g e f =
      let (finalizes, estimates) =
        Ensures-ok (Computed r ghost) (update r) r' e
          (update_computes r ghost prevotes precommits g) in
      let found : find_ancestor r.graph (ghost.0) (ghost.1) (has_supermajority r Phase.precommit)
          ≡ ok (some b) =
        finalizes ∙ ap ok f in
      let ((node, vote, heavy), way) =
        find_ancestor-IsFound r.graph (ghost.0) (ghost.1) _ b found in
      let (x, estimate, leads) =
        find_ancestor_weaker r.graph (ghost.0) (ghost.1) _ (possible_to_precommit r) b
          (λ v. has_supermajority-possible_to_precommit r v valid) found in
      record {
        supported = (
          node,
          vote,
          omega (arith, leb→le _ _ heavy, weight_lem r.context node Phase.precommit valid),
        );
        below_ghost = way;
        below_estimate = (x, ok-injective (sym estimates ∙ estimate), leads);
      }
