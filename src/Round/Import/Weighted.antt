-- ===== src/Round/Import/Weighted.antt =====
-- What an import does to the votes of a round.
use finality_grandpa.Base.{
  some, Ord, Eq, Outcome, ok, Attempt, done, failed, ◌≡◌, refl, ap, ◌∙◌, Ensures, Ensures->>=,
  anything, Option-cases, Bool-cases, inl, inr, Outcome-cases,
}
use finality_grandpa.VoterSet
use finality_grandpa.VoterSet.{VoterSet, VoterInfo}
use finality_grandpa.Chain.{Chain}
use finality_grandpa.Messages.{prevote_eq, precommit_eq, Prevote, Precommit}
use finality_grandpa.Weights.{reaches}
use finality_grandpa.VoteGraph.Insert as VoteGraph
use finality_grandpa.VoteGraph.Ghost.{find_ghost}
use finality_grandpa.Round.Context
use finality_grandpa.Round.Context.{Phase, vote, add_vote}
use finality_grandpa.Round.Tracker
use finality_grandpa.Round.Tracker.{VoteTracker, VoteMultiplicity}
use finality_grandpa.Round.State.{node_data, Round, update, threshold, has_supermajority}
use finality_grandpa.Round.State.Estimate.{KeepsVotes, update-KeepsVotes}
use finality_grandpa.Round.Import.{
  import_prevote, import_precommit, record_prevote, record_precommit, update_prevote_ghost,
}

module _ {ℓ κ μ} {VoterId : Type ℓ} {H : Type κ} {S : Type μ} where
  -- The round `r'` has the number and the voters of `r`, the given trackers, and no other precommit-GHOST.
  pub record Tracks (r : Round VoterId H S) (prevotes : VoteTracker VoterId (Prevote H) S)
      (precommits : VoteTracker VoterId (Precommit H) S) (r' : Round VoterId H S)
      : Type (ℓ ⊔ κ ⊔ μ) where
    pub voters : r'.context.voters ≡ r.context.voters
    pub prevotes_eq : r'.prevote ≡ prevotes
    pub precommits_eq : r'.precommit ≡ precommits
    pub ghost : r'.precommit_ghost ≡ r.precommit_ghost
    pub number : r'.round_number ≡ r.round_number

  Tracks-KeepsVotes :
      (r a b : Round VoterId H S) (prevotes : VoteTracker VoterId (Prevote H) S)
      (precommits : VoteTracker VoterId (Precommit H) S)
      → Tracks r prevotes precommits a
      → KeepsVotes a b
      → Tracks r prevotes precommits b
  Tracks-KeepsVotes r a b prevotes precommits t k = record {
    voters = ap (λ c. c.voters) k.context ∙ t.voters;
    prevotes_eq = k.prevotes ∙ t.prevotes_eq;
    precommits_eq = k.precommits ∙ t.precommits_eq;
    ghost = k.precommit_ghost ∙ t.ghost;
    number = k.number ∙ t.number;
  }

  Tracks-counted :
      (r : Round VoterId H S) (prevotes : VoteTracker VoterId (Prevote H) S)
      (precommits : VoteTracker VoterId (Precommit H) S) (r' : Round VoterId H S)
      → Tracks (record r { prevote = prevotes; precommit = precommits }) prevotes precommits r'
      → Tracks r prevotes precommits r'
  Tracks-counted r prevotes precommits r' t = record {
    voters = t.voters;
    prevotes_eq = t.prevotes_eq;
    precommits_eq = t.precommits_eq;
    ghost = t.ghost;
    number = t.number;
  }

  -- What holds of the round that a vote was recorded in holds after the steps that follow.
  pub if_recorded {ν ρ τ} :
      {E : Type ν} {R : Type ρ} (P : Round VoterId H S → Type τ) (r : Round VoterId H S)
      (a : Attempt E) (next : E → Outcome (Round VoterId H S × Attempt R))
      → P r
      → ((e : E) → Ensures (λ p. P (p.0)) (next e))
      → Ensures (λ p. P (p.0)) (elim a [ done e ↦ next e | failed e ↦ ok (r, failed e) ])
  if_recorded P r (done e) next kept then_kept = then_kept e
  if_recorded P r (failed e) next kept then_kept = kept

module _ {ℓ κ μ} {VoterId : Type ℓ} {H : Type κ} {S : Type μ} ⦃oi : Ord VoterId⦄ ⦃oh : Ord H⦄
    ⦃es : Eq S⦄ where
  record_precommit-Tracks :
      (chain : Chain H) (r : Round VoterId H S) (info : VoterInfo) (v : Precommit H)
      (signer : VoterId) (signature : S) (m : VoteMultiplicity (Precommit H) S)
      → Ensures
          (λ p. Tracks r r.prevote r.precommit (p.0))
          (record_precommit chain r info v signer signature m)
  unfolding record_precommit Context.equivocated
  record_precommit-Tracks chain r info v signer signature (VoteMultiplicity.single w s) =
      elim (Outcome-cases (
        VoteGraph.insert add_vote r.graph w.target_hash w.target_number (vote info Phase.precommit)
          chain)) [
            | inl (g, e) ↦
                rw (e, record_precommit)
                  (record {
                    voters = refl;
                    prevotes_eq = refl;
                    precommits_eq = refl;
                    ghost = refl;
                    number = refl;
                  })
            | inr (inl (x, e)) ↦
                rw (e, record_precommit)
                  (record {
                    voters = refl;
                    prevotes_eq = refl;
                    precommits_eq = refl;
                    ghost = refl;
                    number = refl;
                  })
            | inr (inr e) ↦ rw (e, record_precommit) tt
          ]
  record_precommit-Tracks chain r info v signer signature (VoteMultiplicity.equivocated a b) =
      record {
        voters = refl;
        prevotes_eq = refl;
        precommits_eq = refl;
        ghost = refl;
        number = refl;
      }

  -- After the import of a precommit of a voter, the precommits are those with the vote added, and
  -- voters, prevotes and the precommit-GHOST are what they were.
  pub import_precommit-Tracks :
      (chain : Chain H) (r : Round VoterId H S) (v : Precommit H) (signer : VoterId) (signature : S)
      (info : VoterInfo)
      → VoterSet.get r.context.voters signer ≡ some info
      → Ensures
          (λ p.
            Tracks r r.prevote
              (Tracker.add_vote r.precommit signer v signature info.weight).0
              (p.0))
          (import_precommit chain r v signer signature)
  unfolding import_precommit
  import_precommit-Tracks chain r v signer signature info voter =
      let votes = (Tracker.add_vote r.precommit signer v signature info.weight).0 in
      let counted = record r { precommit = votes } in
      elim (Option-cases
        (Tracker.add_vote r.precommit signer v signature info.weight).1.multiplicity) [
          | inl e ↦
              rw (voter, import_precommit)
                (rw e (record {
                  voters = refl;
                  prevotes_eq = refl;
                  precommits_eq = refl;
                  ghost = refl;
                  number = refl;
                }))
          | inr (m, e) ↦
              rw (voter, import_precommit)
                (rw e (
                  Ensures->>= (λ p. Tracks counted r.prevote votes (p.0))
                    (λ p. Tracks r r.prevote votes (p.0))
                    (record_precommit chain counted info v signer signature m) _
                    (record_precommit-Tracks chain counted info v signer signature m)
                    λ recorded t.
                      let kept = Tracks-counted r r.prevote votes recorded.0 t in
                      if_recorded (λ p. Tracks r r.prevote votes p) (recorded.0) (recorded.1) _ kept
                        (λ equivocation.
                          Ensures->>= (KeepsVotes (recorded.0))
                            (λ p. Tracks r r.prevote votes (p.0)) (update (recorded.0)) _
                            (update-KeepsVotes (recorded.0))
                            (λ updated k.
                              Tracks-KeepsVotes r (recorded.0) updated r.prevote votes kept k))))
        ]

  update_prevote_ghost-Tracks :
      (r a : Round VoterId H S) (prevotes : VoteTracker VoterId (Prevote H) S)
      (precommits : VoteTracker VoterId (Precommit H) S)
      → Tracks r prevotes precommits a
      → Ensures (Tracks r prevotes precommits) (update_prevote_ghost a)
  unfolding update_prevote_ghost
  update_prevote_ghost-Tracks r a prevotes precommits t =
      elim (Bool-cases (reaches a.prevote.current_weight (threshold a))) [
        | inr few ↦ rw (few, update_prevote_ghost) t
        | inl many ↦
            rw (many, update_prevote_ghost)
              (Ensures->>= (λ _. Unit {0}) (Tracks r prevotes precommits)
                (find_ghost a.graph a.prevote_ghost (has_supermajority a Phase.prevote)) _
                (anything _)
                λ ghost _. record {
                  voters = t.voters;
                  prevotes_eq = t.prevotes_eq;
                  precommits_eq = t.precommits_eq;
                  ghost = t.ghost;
                  number = t.number;
                })
      ]

  record_prevote-Tracks :
      (chain : Chain H) (r : Round VoterId H S) (info : VoterInfo) (v : Prevote H)
      (signer : VoterId) (signature : S) (m : VoteMultiplicity (Prevote H) S)
      → Ensures
          (λ p. Tracks r r.prevote r.precommit (p.0))
          (record_prevote chain r info v signer signature m)
  unfolding record_prevote Context.equivocated
  record_prevote-Tracks chain r info v signer signature (VoteMultiplicity.single w s) =
      elim (Outcome-cases (
        VoteGraph.insert add_vote r.graph w.target_hash w.target_number (vote info Phase.prevote)
          chain)) [
            | inl (g, e) ↦
                rw (e, record_prevote)
                  (record {
                    voters = refl;
                    prevotes_eq = refl;
                    precommits_eq = refl;
                    ghost = refl;
                    number = refl;
                  })
            | inr (inl (x, e)) ↦
                rw (e, record_prevote)
                  (record {
                    voters = refl;
                    prevotes_eq = refl;
                    precommits_eq = refl;
                    ghost = refl;
                    number = refl;
                  })
            | inr (inr e) ↦ rw (e, record_prevote) tt
          ]
  record_prevote-Tracks chain r info v signer signature (VoteMultiplicity.equivocated a b) =
      record {
        voters = refl;
        prevotes_eq = refl;
        precommits_eq = refl;
        ghost = refl;
        number = refl;
      }

  -- After the import of a prevote of a voter, the prevotes are those with the vote added, and
  -- voters, precommits and the precommit-GHOST are what they were.
  pub import_prevote-Tracks :
      (chain : Chain H) (r : Round VoterId H S) (v : Prevote H) (signer : VoterId) (signature : S)
      (info : VoterInfo)
      → VoterSet.get r.context.voters signer ≡ some info
      → Ensures
          (λ p.
            Tracks r
              (Tracker.add_vote r.prevote signer v signature info.weight).0
              r.precommit
              (p.0))
          (import_prevote chain r v signer signature)
  unfolding import_prevote
  import_prevote-Tracks chain r v signer signature info voter =
      let votes = (Tracker.add_vote r.prevote signer v signature info.weight).0 in
      let counted = record r { prevote = votes } in
      elim (Option-cases
        (Tracker.add_vote r.prevote signer v signature info.weight).1.multiplicity) [
          | inl e ↦
              rw (voter, import_prevote)
                (rw e (record {
                  voters = refl;
                  prevotes_eq = refl;
                  precommits_eq = refl;
                  ghost = refl;
                  number = refl;
                }))
          | inr (m, e) ↦
              rw (voter, import_prevote)
                (rw e (
                  Ensures->>= (λ p. Tracks counted votes r.precommit (p.0))
                    (λ p. Tracks r votes r.precommit (p.0))
                    (record_prevote chain counted info v signer signature m) _
                    (record_prevote-Tracks chain counted info v signer signature m)
                    λ recorded t.
                      let kept = Tracks-counted r votes r.precommit recorded.0 t in
                      if_recorded (λ p. Tracks r votes r.precommit p) (recorded.0) (recorded.1) _
                        kept
                        (λ equivocation.
                          Ensures->>= (λ g. Tracks r votes r.precommit g)
                            (λ p. Tracks r votes r.precommit (p.0))
                            (update_prevote_ghost (recorded.0)) _
                            (update_prevote_ghost-Tracks r (recorded.0) votes r.precommit kept)
                            λ ghosted after.
                              Ensures->>= (KeepsVotes ghosted)
                                (λ p. Tracks r votes r.precommit (p.0)) (update ghosted) _
                                (update-KeepsVotes ghosted)
                                (λ updated k.
                                  Tracks-KeepsVotes r ghosted updated votes r.precommit after k))))
        ]
