-- ===== src/Round/Import.antt =====
-- `Round::import_prevote` and `Round::import_precommit`.
pub mod Counted
pub mod Again
pub mod Weighted
pub mod Supported
use finality_grandpa.Base.{
  ◌>>=◌, Bool, true, false, Option, none, some, Ord, Eq, Outcome, ok, err, panic, Attempt, done,
  failed,
}
use finality_grandpa.Weights.{reaches}
use finality_grandpa.VoterSet
use finality_grandpa.VoterSet.{VoterInfo}
use finality_grandpa.Chain.{Chain}
use finality_grandpa.Messages.{
  prevote_eq, precommit_eq, Prevote, Precommit, Message, Equivocation, push_vote,
}
use finality_grandpa.VoteGraph.Insert as VoteGraph
use finality_grandpa.VoteGraph.Ghost.{find_ghost}
use finality_grandpa.Round.Context
use finality_grandpa.Round.Context.{Phase, vote, add_vote}
use finality_grandpa.Round.Tracker
use finality_grandpa.Round.Tracker.{VoteMultiplicity}
use finality_grandpa.Round.State.{node_data, Round, threshold, has_supermajority, update}

pub record ImportResult {ℓ κ μ} (VoterId : Type ℓ) (P : Type κ) (S : Type μ)
    : Type (ℓ ⊔ κ ⊔ μ) where
  pub valid_voter : Bool
  pub duplicated : Bool
  pub equivocation : Option (Equivocation VoterId P S)

-- `ImportResult::default`
abbrev pub no_import {ℓ κ μ} :
    {VoterId : Type ℓ} {P : Type κ} {S : Type μ} → ImportResult VoterId P S
no_import = record { valid_voter = false; duplicated = false; equivocation = none }

module _ {ℓ κ μ} {VoterId : Type ℓ} {H : Type κ} {S : Type μ} ⦃oi : Ord VoterId⦄ ⦃oh : Ord H⦄
    ⦃es : Eq S⦄ where
  -- The part of `import_prevote` after the vote has been counted, up to the equivocation.
  unfoldable pub record_prevote :
      Chain H
      → Round VoterId H S
      → VoterInfo
      → Prevote H
      → VoterId
      → S
      → VoteMultiplicity (Prevote H) S
      → Outcome (Round VoterId H S × Attempt (Option (Equivocation VoterId (Prevote H) S)))
  record_prevote chain r info prevote signer signature (VoteMultiplicity.single v _) =
      elim (VoteGraph.insert add_vote r.graph v.target_hash v.target_number
        (vote info Phase.prevote) chain) [
          | ok graph ↦ ok (
            record r {
              graph = graph;
              historical_votes = push_vote r.historical_votes (record {
                message = Message.prevote prevote;
                signature = signature;
                id = signer;
              });
            },
            done none,
          )
          | err e ↦ ok (r, failed e)
          | panic ↦ panic
        ]
  record_prevote chain r info prevote signer signature (VoteMultiplicity.equivocated first second) =
      ok (
        record r {
          context = Context.equivocated r.context info Phase.prevote;
          historical_votes =
              push_vote r.historical_votes
                (record { message = Message.prevote prevote; signature = signature; id = signer });
        },
        done (
            some (record {
              round_number = r.round_number;
              identity = signer;
              first = first;
              second = second;
            })),
      )

  -- The prevote-GHOST is brought up to date when the prevotes have a supermajority.
  unfoldable pub update_prevote_ghost : Round VoterId H S → Outcome (Round VoterId H S)
  update_prevote_ghost r = elim (reaches r.prevote.current_weight (threshold r)) [
    | false ↦ ok r
    | true ↦ do
      ghost ← find_ghost r.graph r.prevote_ghost (has_supermajority r Phase.prevote)
      ok (record r { prevote_ghost = ghost })
  ]

  -- `Round::import_prevote`. An error of the chain leaves the round as it is at that point.
  unfoldable pub import_prevote :
      Chain H
      → Round VoterId H S
      → Prevote H
      → VoterId
      → S
      → Outcome (Round VoterId H S × Attempt (ImportResult VoterId (Prevote H) S))
  unfolding record_prevote update_prevote_ghost
  import_prevote chain r prevote signer signature = elim (VoterSet.get r.context.voters signer) [
    | none ↦ ok (r, done no_import)
    | some info ↦
        (let (prevotes, added) = Tracker.add_vote r.prevote signer prevote signature info.weight in
          let counted = record r { prevote = prevotes } in
          elim added.multiplicity [
            | none ↦ ok (
              counted,
              done (record {
                valid_voter = true;
                duplicated = added.duplicated;
                equivocation = none;
              }),
            )
            | some multiplicity ↦ do
              recorded ← record_prevote chain counted info prevote signer signature multiplicity
              elim (recorded.1) [
                | failed e ↦ ok (recorded.0, failed e)
                | done equivocation ↦ do
                  ghosted ← update_prevote_ghost (recorded.0)
                  updated ← update ghosted
                  ok (
                    updated,
                    done (record {
                      valid_voter = true;
                      duplicated = false;
                      equivocation = equivocation;
                    }),
                  )
              ]
          ])
  ]

  -- The part of `import_precommit` after the vote has been counted, up to the equivocation.
  unfoldable pub record_precommit :
      Chain H
      → Round VoterId H S
      → VoterInfo
      → Precommit H
      → VoterId
      → S
      → VoteMultiplicity (Precommit H) S
      → Outcome (Round VoterId H S × Attempt (Option (Equivocation VoterId (Precommit H) S)))
  record_precommit chain r info precommit signer signature (VoteMultiplicity.single v _) =
      elim (VoteGraph.insert add_vote r.graph v.target_hash v.target_number
        (vote info Phase.precommit) chain) [
          | ok graph ↦ ok (
            record r {
              graph = graph;
              historical_votes = push_vote r.historical_votes (record {
                message = Message.precommit precommit;
                signature = signature;
                id = signer;
              });
            },
            done none,
          )
          | err e ↦ ok (r, failed e)
          | panic ↦ panic
        ]
  record_precommit chain r info precommit signer signature
        (VoteMultiplicity.equivocated first second) =
      ok (
        record r {
          context = Context.equivocated r.context info Phase.precommit;
          historical_votes = push_vote r.historical_votes (record {
            message = Message.precommit precommit;
            signature = signature;
            id = signer;
          });
        },
        done (
            some (record {
              round_number = r.round_number;
              identity = signer;
              first = first;
              second = second;
            })),
      )

  -- `Round::import_precommit`
  unfoldable pub import_precommit :
      Chain H
      → Round VoterId H S
      → Precommit H
      → VoterId
      → S
      → Outcome (Round VoterId H S × Attempt (ImportResult VoterId (Precommit H) S))
  unfolding record_precommit
  import_precommit chain r precommit signer signature =
      elim (VoterSet.get r.context.voters signer) [
        | none ↦ ok (r, done no_import)
        | some info ↦
            (let (precommits, added) =
                Tracker.add_vote r.precommit signer precommit signature info.weight in
              let counted = record r { precommit = precommits } in
              elim added.multiplicity [
                | none ↦ ok (
                  counted,
                  done (record {
                    valid_voter = true;
                    duplicated = added.duplicated;
                    equivocation = none;
                  }),
                )
                | some multiplicity ↦ do
                  recorded ←
                      record_precommit chain counted info precommit signer signature multiplicity
                  elim (recorded.1) [
                    | failed e ↦ ok (recorded.0, failed e)
                    | done equivocation ↦ do
                      updated ← update (recorded.0)
                      ok (
                        updated,
                        done (record {
                          valid_voter = true;
                          duplicated = false;
                          equivocation = equivocation;
                        }),
                      )
                  ]
              ])
      ]
