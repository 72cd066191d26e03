-- ===== src/Round/State/Estimate.antt =====
-- What `Round::update` changes, and when.
use finality_grandpa.Base.{
  ℕ, true, false, some, Ord, ok, ◌≡◌, refl, Ensures, Ensures->>=, anything, Bool-cases,
  Option-cases, inl, inr, ◌⊎◌, subst, sym,
}
use finality_grandpa.Weights.{reaches}
use finality_grandpa.VoteGraph.Ancestor.{find_ancestor}
use finality_grandpa.Round.Context.{Phase}
use finality_grandpa.Round.State.{
  node_data, Round, threshold, update, update_estimate, is_completable, has_supermajority,
  possible_to_precommit,
}

module _ {ℓ κ μ} {VoterId : Type ℓ} {H : Type κ} {S : Type μ} where
  -- The second round differs from the first in what `update` computes alone.
  pub record KeepsVotes (r r' : Round VoterId H S) : Type (ℓ ⊔ κ ⊔ μ) where
    pub number : r'.round_number ≡ r.round_number
    pub context : r'.context ≡ r.context
    pub graph : r'.graph ≡ r.graph
    pub prevotes : r'.prevote ≡ r.prevote
    pub precommits : r'.precommit ≡ r.precommit
    pub history : r'.historical_votes ≡ r.historical_votes
    pub ghost : r'.prevote_ghost ≡ r.prevote_ghost
    pub precommit_ghost : r'.precommit_ghost ≡ r.precommit_ghost

  pub KeepsVotes-refl : (r : Round VoterId H S) → KeepsVotes r r
  KeepsVotes-refl r = record {
    number = refl;
    context = refl;
    graph = refl;
    prevotes = refl;
    precommits = refl;
    history = refl;
    ghost = refl;
    precommit_ghost = refl;
  }

module _ {ℓ κ μ} {VoterId : Type ℓ} {H : Type κ} {S : Type μ} ⦃oh : Ord H⦄ where
  -- The three ways of `update`: too few prevotes or no prevote-GHOST, too few precommits, or enough.
  abbrev pub UpdateCases : Round VoterId H S → Type (ℓ ⊔ κ ⊔ μ)
  UpdateCases r =
      (update r ≡ ok r)
      ⊎ ((ghost : H × ℕ) × (r.prevote_ghost ≡ some ghost)
          × (reaches r.precommit.current_weight (threshold r) ≡ false)
          × (update r ≡ ok (record r { estimate = some ghost })))
      ⊎ ((ghost : H × ℕ) × (r.prevote_ghost ≡ some ghost)
          × (reaches r.precommit.current_weight (threshold r) ≡ true)
          × (update r ≡ update_estimate r ghost))

  pub update_cases : (r : Round VoterId H S) → UpdateCases r
  unfolding update
  update_cases r = elim (Bool-cases (reaches r.prevote.current_weight (threshold r))) [
    | inr few ↦ inl (rw (few, update))
    | inl many ↦ elim (Option-cases r.prevote_ghost) [
      | inl e ↦ inl (rw (many, update) (simp e))
      | inr (ghost, e) ↦ elim (Bool-cases (reaches r.precommit.current_weight (threshold r))) [
        | inr few ↦ inr (inl (ghost, e, few, rw (many, update) (simp (e, few))))
        | inl enough ↦ inr (inr (ghost, e, enough, rw (many, update) (simp (e, enough))))
      ]
    ]
  ]

  update_estimate-KeepsVotes :
      (r : Round VoterId H S) (ghost : H × ℕ) → Ensures (KeepsVotes r) (update_estimate r ghost)
  unfolding update_estimate
  update_estimate-KeepsVotes r ghost =
      Ensures->>= (λ _. Unit {0}) (KeepsVotes r)
        (find_ancestor r.graph (ghost.0) (ghost.1) (has_supermajority r Phase.precommit)) _
        (anything _)
        λ finalized _.
          Ensures->>= (λ _. Unit {0}) (KeepsVotes r)
            (find_ancestor r.graph (ghost.0) (ghost.1) (possible_to_precommit r)) _ (anything _)
            λ estimate _.
              Ensures->>= (λ _. Unit {0}) (KeepsVotes r) (is_completable r ghost estimate)
                (λ completable. ok (record r {
                  finalized = finalized;
                  estimate = estimate;
                  completable = completable;
                }))
                (anything _)
                λ completable _. record {
                  number = refl;
                  context = refl;
                  graph = refl;
                  prevotes = refl;
                  precommits = refl;
                  history = refl;
                  ghost = refl;
                  precommit_ghost = refl;
                }

  -- `update` leaves the votes, the graph and the GHOSTs alone.
  pub update-KeepsVotes : (r : Round VoterId H S) → Ensures (KeepsVotes r) (update r)
  update-KeepsVotes r = elim (update_cases r) [
    | inl e ↦ subst (Ensures (KeepsVotes r)) (sym e) (KeepsVotes-refl r)
    | inr (inl (ghost, _, _, e)) ↦ subst (Ensures (KeepsVotes r)) (sym e) (record {
      number = refl;
      context = refl;
      graph = refl;
      prevotes = refl;
      precommits = refl;
      history = refl;
      ghost = refl;
      precommit_ghost = refl;
    })
    | inr (inr (ghost, _, _, e)) ↦
        subst (Ensures (KeepsVotes r)) (sym e) (update_estimate-KeepsVotes r ghost)
  ]
