-- ===== src/Voter/VotingRound/Ballots/Incoming.antt =====
-- The import of votes casts none.
use finality_grandpa.Base.{
  Bool, true, false, Option, none, some, List, [], ◌∷◌, ◌≡◌, refl, arith, ok, err, panic, Ord, Eq,
  eqb, Outcome, Error, Attempt, done, failed,
}
use finality_grandpa.Chain.{is_equal_or_descendent_of}
use finality_grandpa.Commit.{validate_commit}
use finality_grandpa.Messages.{
  PrimaryPropose, Message, target, SignedMessage, SignedPrecommit, Equivocation, Commit,
}
use finality_grandpa.Round.State as RoundState
use finality_grandpa.Round.State.{Round}
use finality_grandpa.Round.Import.{ImportResult, import_prevote, import_precommit}
use finality_grandpa.Voter.Call.{Answer, fine, fault, Leaves, ◌>>◌, lift, answer, pure}
use finality_grandpa.Voter.Environment.{Environment, Told}
use finality_grandpa.Voter.VotingRound.Incoming.{
  store_found, store_import, note_primary, handle_message, handle_when, import_when, handle_vote,
  process_incoming, import_precommits, check_and_import_from_commit,
}
use finality_grandpa.Voter.VotingRound.Ballots.{
  Follows, Kind, kind, stage_of, IsAfter, FollowsStages, FollowsStages->>=,
}
use finality_grandpa.Voter.VotingRound.Ballots.Taken.{told_nothing}

module _ {ℓ κ} {VoterId H S T W O X : Type ℓ} {A : Type κ} where
  pub lift-FollowsStages :
      (from : Error → X) (m : Outcome A)
      → FollowsStages {VoterId = VoterId} {H = H} {S = S} {T = T} {W = W} {O = O} (lift from m)
  lift-FollowsStages from (ok a) s = told_nothing _ s (omega arith)
  lift-FollowsStages from (err e) s = told_nothing _ s (omega arith)
  lift-FollowsStages from panic s = tt

  pub answer-FollowsStages :
      (a : Answer X A)
      → FollowsStages {VoterId = VoterId} {H = H} {S = S} {T = T} {W = W} {O = O} (answer a)
  answer-FollowsStages (fine a) s = told_nothing _ s (omega arith)
  answer-FollowsStages (fault x) s = told_nothing _ s (omega arith)

module _ {ℓ} {VoterId H S T W O X P : Type ℓ} where
  store_import-FollowsStages :
      (from : Error → X) (told : Equivocation VoterId P S → Told VoterId H S)
      (imported : Outcome (Round VoterId H S × Attempt (ImportResult VoterId P S)))
      → ((e : Equivocation VoterId P S) → kind (told e) ≡ Kind.report)
      → FollowsStages {T = T} {W = W} {O = O} (store_import from told imported)
  unfolding store_import
  store_import-FollowsStages from told panic silent s = tt
  store_import-FollowsStages from told (err e) silent s = told_nothing _ s (omega arith)
  store_import-FollowsStages from told (ok (votes, failed e)) silent s =
      told_nothing _ (record s { round = record s.round { votes = votes } }) (omega arith)
  store_import-FollowsStages from told (ok (votes, done imported)) silent s =
      go imported.equivocation
    where
      go :
          (found : Option (Equivocation VoterId P S))
          → Leaves
              (IsAfter (stage_of s.round.voting s.round.state) s.shared.calls)
              (store_found {X = X} told votes found s)
      go none = told_nothing _ (record s { round = record s.round { votes = votes } }) (omega arith)
      go (some e) =
          (told e ∷ [], refl, Follows.reports (told e) [] (silent e) (Follows.skips (omega arith)))

module _ {ℓ} {VoterId H S T W O : Type ℓ} where
  note_primary-FollowsStages :
      (X : Type ℓ) (v : PrimaryPropose H) (from_primary : Bool)
      → FollowsStages {VoterId = VoterId} {S = S} {T = T} {W = W} {O = O} {X = X}
          (note_primary v from_primary)
  unfolding note_primary
  note_primary-FollowsStages X v true s =
      told_nothing _
        (record s {
          round = record s.round { primary_block = some (v.target_hash, v.target_number) };
        })
        (omega arith)
  note_primary-FollowsStages X v false s = told_nothing _ s (omega arith)

module _ {ℓ} {VoterId H S T W O X : Type ℓ} ⦃oi : Ord VoterId⦄ ⦃oh : Ord H⦄ ⦃es : Eq S⦄ where
  handle_message-FollowsStages :
      (env : Environment VoterId H T W O X) (id : VoterId) (signature : S) (message : Message H)
      → FollowsStages (handle_message env id signature message)
  unfolding handle_message kind
  handle_message-FollowsStages env id signature (Message.prevote v) s =
      store_import-FollowsStages env.from _ (import_prevote env.chain s.round.votes v id signature)
        (λ e. refl) s
  handle_message-FollowsStages env id signature (Message.precommit v) s =
      store_import-FollowsStages env.from _
        (import_precommit env.chain s.round.votes v id signature) (λ e. refl) s
  handle_message-FollowsStages env id signature (Message.primary_propose v) s =
      FollowsStages->>= (lift env.from (RoundState.primary_voter s.round.votes)) _
        (lift-FollowsStages env.from (RoundState.primary_voter s.round.votes))
        (λ primary_voter. note_primary-FollowsStages X v (eqb id (primary_voter.0))) s

  handle_when-FollowsStages :
      (env : Environment VoterId H T W O X) (vote : SignedMessage H S VoterId) (descends : Bool)
      → FollowsStages (handle_when env vote descends)
  unfolding handle_when
  handle_when-FollowsStages env vote true s =
      handle_message-FollowsStages env vote.id vote.signature vote.message s
  handle_when-FollowsStages env vote false s = told_nothing _ s (omega arith)

  pub handle_vote-FollowsStages :
      (env : Environment VoterId H T W O X) (vote : SignedMessage H S VoterId)
      → FollowsStages (handle_vote env vote)
  unfolding handle_vote
  handle_vote-FollowsStages env vote s =
      let descends =
        is_equal_or_descendent_of env.chain s.round.votes.graph.base ((target vote.message).0) in
      FollowsStages->>= (lift env.from descends) (handle_when env vote)
        (lift-FollowsStages env.from descends) (handle_when-FollowsStages env vote) s

  pub process_incoming-FollowsStages :
      (env : Environment VoterId H T W O X) (incoming : List (Answer X (SignedMessage H S VoterId)))
      → FollowsStages (process_incoming env incoming)
  unfolding process_incoming
  process_incoming-FollowsStages env [] s = told_nothing _ s (omega arith)
  process_incoming-FollowsStages env (first ∷ more) s =
      FollowsStages->>= (answer first) (λ vote. handle_vote env vote >> process_incoming env more)
        (answer-FollowsStages first)
        (λ vote.
          FollowsStages->>= (handle_vote env vote) (λ _. process_incoming env more)
            (handle_vote-FollowsStages env vote) (λ _. process_incoming-FollowsStages env more))
        s

  import_precommits-FollowsStages :
      (env : Environment VoterId H T W O X) (precommits : List (SignedPrecommit H S VoterId))
      → FollowsStages (import_precommits env precommits)
  unfolding import_precommits
  import_precommits-FollowsStages env [] s = told_nothing _ s (omega arith)
  import_precommits-FollowsStages env (p ∷ more) s =
      FollowsStages->>= (handle_message env p.id p.signature (Message.precommit p.precommit))
        (λ _. import_precommits env more)
        (handle_message-FollowsStages env p.id p.signature (Message.precommit p.precommit))
        (λ _. import_precommits-FollowsStages env more) s

  import_when-FollowsStages :
      (env : Environment VoterId H T W O X) (commit : Commit H S VoterId) (valid : Bool)
      → FollowsStages (import_when env commit valid)
  unfolding import_when
  import_when-FollowsStages env commit true s =
      FollowsStages->>= (import_precommits env commit.precommits)
        (λ _. pure (some (commit.target_hash, commit.target_number)))
        (import_precommits-FollowsStages env commit.precommits)
        (λ _ t. told_nothing _ t (omega arith)) s
  import_when-FollowsStages env commit false t = told_nothing _ t (omega arith)

  pub check_and_import_from_commit-FollowsStages :
      (env : Environment VoterId H T W O X) (commit : Commit H S VoterId)
      → FollowsStages (check_and_import_from_commit env commit)
  unfolding check_and_import_from_commit
  check_and_import_from_commit-FollowsStages env commit s =
      let validated = validate_commit commit s.round.votes.context.voters env.chain in
      FollowsStages->>= (lift env.from validated) (λ result. import_when env commit result.valid)
        (lift-FollowsStages env.from validated)
        (λ result. import_when-FollowsStages env commit result.valid) s
