-- ===== src/Voter/VotingRound/Incoming.antt =====
-- The votes that a voting round imports: messages of the stream, and the precommits of a commit.
use finality_grandpa.Base.{
  ℕ, Bool, true, false, Option, none, some, List, [], ◌∷◌, Ord, Eq, eqb, Error, Outcome, ok, err,
  panic, Attempt, done, failed,
}
use finality_grandpa.Chain.{is_equal_or_descendent_of}
use finality_grandpa.Messages.{
  PrimaryPropose, Message, target, SignedMessage, SignedPrecommit, Commit, Equivocation,
}
use finality_grandpa.Commit.{validate_commit}
use finality_grandpa.Round.State as RoundState
use finality_grandpa.Round.State.{Round}
use finality_grandpa.Round.Import.{ImportResult, import_prevote, import_precommit}
use finality_grandpa.Voter.Call.{
  Answer, raised, panicked, Call, pure, gets, answer, lift, ◌>>=◌, ◌>>◌,
}
use finality_grandpa.Voter.Environment.{Environment, Told}
use finality_grandpa.Voter.VotingRound.{Running, change, report}

module _ {ℓ} {VoterId H S T W O X P : Type ℓ} where
  unfoldable pub store_found :
      (Equivocation VoterId P S → Told VoterId H S)
      → Round VoterId H S
      → Option (Equivocation VoterId P S)
      → Call X (Running VoterId H S T W O) (Unit {0})
  store_found told votes none = change (λ r. record r { votes = votes })
  store_found told votes (some e) = change (λ r. record r { votes = votes }) >> report (told e)

  -- Store the round that an import leaves, and report the equivocation that it has found.
  unfoldable pub store_import :
      (Error → X)
      → (Equivocation VoterId P S → Told VoterId H S)
      → Outcome (Round VoterId H S × Attempt (ImportResult VoterId P S))
      → Call X (Running VoterId H S T W O) (Unit {0})
  unfolding store_found
  store_import from told panic s = panicked
  store_import from told (err e) s = raised (from e) s
  store_import from told (ok (votes, failed e)) s =
      raised (from e) (record s { round = record s.round { votes = votes } })
  store_import from told (ok (votes, done imported)) s =
      store_found told votes imported.equivocation s

module _ {ℓ} {VoterId H S T W O X : Type ℓ} where
  -- The block of the primary, when the message is of the primary.
  unfoldable pub note_primary :
      PrimaryPropose H → Bool → Call X (Running VoterId H S T W O) (Unit {0})
  note_primary v true =
      change (λ r. record r { primary_block = some (v.target_hash, v.target_number) })
  note_primary v false = pure tt

module _ {ℓ} {VoterId H S T W O X : Type ℓ} ⦃oi : Ord VoterId⦄ ⦃oh : Ord H⦄ ⦃es : Eq S⦄ where
  -- The match of `handle_vote`.
  unfoldable pub handle_message :
      Environment VoterId H T W O X
      → VoterId
      → S
      → Message H
      → Call X (Running VoterId H S T W O) (Unit {0})
  unfolding store_import note_primary
  handle_message env id signature (Message.prevote v) s =
      store_import env.from (Told.prevote_equivocation s.round.votes.round_number)
        (import_prevote env.chain s.round.votes v id signature) s
  handle_message env id signature (Message.precommit v) s =
      store_import env.from (Told.precommit_equivocation s.round.votes.round_number)
        (import_precommit env.chain s.round.votes v id signature) s
  handle_message env id signature (Message.primary_propose v) s =
      (lift env.from (RoundState.primary_voter s.round.votes) >>= λ primary_voter.
      note_primary v (eqb id (primary_voter.0)))
        s

  -- The vote is ignored unless it is for the base of the round or a descendent.
  unfoldable pub handle_when :
      Environment VoterId H T W O X
      → SignedMessage H S VoterId
      → Bool
      → Call X (Running VoterId H S T W O) (Unit {0})
  unfolding handle_message
  handle_when env vote true = handle_message env vote.id vote.signature vote.message
  handle_when env vote false = pure tt

  -- `VotingRound::handle_vote`
  unfoldable pub handle_vote :
      Environment VoterId H T W O X
      → SignedMessage H S VoterId
      → Call X (Running VoterId H S T W O) (Unit {0})
  unfolding handle_when
  handle_vote env vote = gets (λ s. s.round.votes.graph.base) >>= λ base.
      lift env.from (is_equal_or_descendent_of env.chain base ((target vote.message).0))
      >>= handle_when env vote

  -- `VotingRound::process_incoming`, on what the stream yields until it is pending or ends.
  unfoldable pub process_incoming :
      Environment VoterId H T W O X
      → List (Answer X (SignedMessage H S VoterId))
      → Call X (Running VoterId H S T W O) (Unit {0})
  unfolding handle_vote
  process_incoming env [] = pure tt
  process_incoming env (incoming ∷ more) =
      answer incoming >>= λ vote. handle_vote env vote >> process_incoming env more

  -- The loop of `check_and_import_from_commit`.
  unfoldable pub import_precommits :
      Environment VoterId H T W O X
      → List (SignedPrecommit H S VoterId)
      → Call X (Running VoterId H S T W O) (Unit {0})
  unfolding handle_message
  import_precommits env [] = pure tt
  import_precommits env (p ∷ more) =
      handle_message env p.id p.signature (Message.precommit p.precommit)
      >> import_precommits env more

  unfoldable pub import_when :
      Environment VoterId H T W O X
      → Commit H S VoterId
      → Bool
      → Call X (Running VoterId H S T W O) (Option (H × ℕ))
  unfolding import_precommits
  import_when env commit false = pure none
  import_when env commit true =
      import_precommits env commit.precommits
      >> pure (some (commit.target_hash, commit.target_number))

  -- `VotingRound::check_and_import_from_commit`
  unfoldable pub check_and_import_from_commit :
      Environment VoterId H T W O X
      → Commit H S VoterId
      → Call X (Running VoterId H S T W O) (Option (H × ℕ))
  unfolding import_when
  check_and_import_from_commit env commit = gets (λ s. s.round.votes.context.voters) >>= λ voters.
      lift env.from (validate_commit commit voters env.chain) >>= λ result.
      import_when env commit result.valid
