-- ===== src/Round/Import/Counted.antt =====
-- The weights of the trackers of a round, over the imports of votes.
use finality_grandpa.Base.{
  List, [], ◌∷◌, Ord, Eq, ◌≡◌, refl, sym, Ensures, Ensures-imp, Option-cases, inl, inr, arith, ◌≤◌,
}
use finality_grandpa.Base.BTreeMap
use finality_grandpa.VoterSet
use finality_grandpa.VoterSet.{VoterSet, VoterInfo}
use finality_grandpa.VoterSet.Valid.{IsValid}
use finality_grandpa.Chain.{Chain}
use finality_grandpa.Messages.{prevote_eq, precommit_eq, Prevote, Precommit}
use finality_grandpa.Round.Context
use finality_grandpa.Round.Tracker.{VoteTracker}
use finality_grandpa.Round.Tracker.Weight.{
  IsWeighed, weight_of_keys, add_vote-IsWeighed, weight_of_keys-le,
}
use finality_grandpa.Round.State
use finality_grandpa.Round.State.{Round, RoundParams}
use finality_grandpa.Round.Import.{import_prevote, import_precommit}
use finality_grandpa.Round.Import.Weighted.{Tracks, import_prevote-Tracks, import_precommit-Tracks}

-- The voters of the round are valid, and each tracker weighs what the voters with a vote weigh.
pub record IsCounted {ℓ κ μ} {VoterId : Type ℓ} {H : Type κ} {S : Type μ} ⦃oi : Ord VoterId⦄
    ⦃oh : Ord H⦄ ⦃es : Eq S⦄ (r : Round VoterId H S) : Type ℓ where
  pub valid : IsValid r.context.voters
  pub prevotes : IsWeighed r.context.voters r.prevote
  pub precommits : IsWeighed r.context.voters r.precommit

module _ {ℓ κ} {VoterId : Type ℓ} ⦃oi : Ord VoterId⦄ where
  no_keys : (M : Type κ) (vs : List (VoterId × VoterInfo)) → weight_of_keys {M = M} [] vs ≡ 0
  unfolding BTreeMap.get
  no_keys M [] = refl
  no_keys M ((id, v) ∷ vs) = ground (arith, no_keys M vs)

module _ {ℓ κ μ} {VoterId : Type ℓ} {H : Type κ} {S : Type μ} ⦃oi : Ord VoterId⦄ ⦃oh : Ord H⦄
    ⦃es : Eq S⦄ where
  -- A new round of valid voters is counted.
  pub new-IsCounted :
      (params : RoundParams VoterId H)
      → IsValid params.voters
      → IsCounted {S = S} (State.new params)
  unfolding State.new Context.new
  new-IsCounted params valid = record {
    valid = valid;
    prevotes = sym (no_keys _ params.voters.voters);
    precommits = sym (no_keys _ params.voters.voters);
  }

  -- Trackers that are weighed for the voters make a counted round.
  Tracks-IsCounted :
      (r r' : Round VoterId H S) (prevotes : VoteTracker VoterId (Prevote H) S)
      (precommits : VoteTracker VoterId (Precommit H) S)
      → IsValid r.context.voters
      → IsWeighed r.context.voters prevotes
      → IsWeighed r.context.voters precommits
      → Tracks r prevotes precommits r'
      → IsCounted r'
  Tracks-IsCounted r r' prevotes precommits valid a b t = record {
    valid = simp (t.voters) valid;
    prevotes = simp (t.voters, t.prevotes_eq) a;
    precommits = simp (t.voters, t.precommits_eq) b;
  }

  -- `import_prevote` of any vote by anyone keeps a round counted, when it returns, with an error or
  -- without one: the voters of the round are valid, and each tracker weighs what the voters with
  -- a vote in it weigh.
  pub import_prevote-IsCounted :
      (chain : Chain H) (r : Round VoterId H S) (v : Prevote H) (signer : VoterId) (signature : S)
      → IsCounted r
      → Ensures (λ p. IsCounted (p.0)) (import_prevote chain r v signer signature)
  unfolding import_prevote
  import_prevote-IsCounted chain r v signer signature h =
      elim (Option-cases (VoterSet.get r.context.voters signer)) [
        | inl e ↦ rw (e, import_prevote) h
        | inr (info, e) ↦
            Ensures-imp (import_prevote chain r v signer signature)
              (import_prevote-Tracks chain r v signer signature info e)
              (λ p t.
                Tracks-IsCounted r (p.0) _ r.precommit h.valid
                  (add_vote-IsWeighed r.context.voters r.prevote signer v signature info h.valid e
                    h.prevotes)
                  h.precommits t)
      ]

  -- `import_precommit` of any vote by anyone keeps a round counted, when it returns, with an error or
  -- without one: the voters of the round are valid, and each tracker weighs what the voters with
  -- a vote in it weigh.
  pub import_precommit-IsCounted :
      (chain : Chain H) (r : Round VoterId H S) (v : Precommit H) (signer : VoterId) (signature : S)
      → IsCounted r
      → Ensures (λ p. IsCounted (p.0)) (import_precommit chain r v signer signature)
  unfolding import_precommit
  import_precommit-IsCounted chain r v signer signature h =
      elim (Option-cases (VoterSet.get r.context.voters signer)) [
        | inl e ↦ rw (e, import_precommit) h
        | inr (info, e) ↦
            Ensures-imp (import_precommit chain r v signer signature)
              (import_precommit-Tracks chain r v signer signature info e)
              (λ p t.
                Tracks-IsCounted r (p.0) r.prevote _ h.valid h.prevotes
                  (add_vote-IsWeighed r.context.voters r.precommit signer v signature info h.valid e
                    h.precommits)
                  t)
      ]

  -- In a counted round no tracker weighs more than all voters together.
  pub IsCounted-le :
      (r : Round VoterId H S)
      → IsCounted r
      → (r.prevote.current_weight ≤ r.context.voters.total_weight)
        × (r.precommit.current_weight ≤ r.context.voters.total_weight)
  IsCounted-le r h = (
    omega (
      arith,
      h.prevotes,
      h.valid.summed,
      weight_of_keys-le r.prevote.votes r.context.voters.voters,
    ),
    omega (
      arith,
      h.precommits,
      h.valid.summed,
      weight_of_keys-le r.precommit.votes r.context.voters.voters,
    ),
  )
