-- ===== src/Voter/CatchUp.antt =====
-- `validate_catch_up` of src/voter/mod.rs.
pub mod Prepared
pub mod Valid
use finality_grandpa.Base.{
  ℕ, Bool, true, false, leb, Option, none, some, List, [], ◌∷◌, Ord, Eq, Outcome, ok, err, panic,
  Attempt, done, failed, ◌>>=◌, if◌then◌else◌,
}
use finality_grandpa.Base.BTreeMap
use finality_grandpa.Base.BTreeMap.{BTreeMap}
use finality_grandpa.Weights.{VoteWeight, add, reaches}
use finality_grandpa.VoterSet
use finality_grandpa.VoterSet.{VoterSet}
use finality_grandpa.Chain.{Chain}
use finality_grandpa.Messages.{SignedPrevote, SignedPrecommit, CatchUp}
use finality_grandpa.Round.State
use finality_grandpa.Round.State.{Round}
use finality_grandpa.Round.Import.{ImportResult, import_prevote, import_precommit}

module _ {ℓ} {VoterId : Type ℓ} ⦃oi : Ord VoterId⦄ where
  -- `map.entry(id).or_insert((false, false))`
  unfoldable pub entry : BTreeMap VoterId (Bool × Bool) → VoterId → Bool × Bool
  unfolding BTreeMap.get
  entry map id = elim (BTreeMap.get map id) [ none ↦ (false, false) | some votes ↦ votes ]

  -- The fold over the map: the weights of those who prevoted and of those who precommitted.
  unfoldable pub sum_weights :
      VoterSet VoterId
      → BTreeMap VoterId (Bool × Bool)
      → VoteWeight × VoteWeight
      → VoteWeight × VoteWeight
  unfolding VoterSet.get
  sum_weights voters [] sums = sums
  sum_weights voters ((id, (prevoted, precommitted)) ∷ more) (pv, pc) =
      sum_weights voters more (elim (VoterSet.get voters id) [
        | none ↦ (pv, pc)
        | some v ↦
            (if prevoted then add pv v.weight else pv, if precommitted then add pc v.weight else pc)
      ])

module _ {ℓ κ μ} {VoterId : Type ℓ} {H : Type κ} {S : Type μ} ⦃oi : Ord VoterId⦄ where
  -- The two loops that note who has voted, which end at an id that is not in the set.
  unfoldable pub note_prevotes :
      VoterSet VoterId
      → List (SignedPrevote H S VoterId)
      → BTreeMap VoterId (Bool × Bool)
      → Option (BTreeMap VoterId (Bool × Bool))
  unfolding VoterSet.contains BTreeMap.insert entry
  note_prevotes voters [] map = some map
  note_prevotes voters (s ∷ more) map = elim (VoterSet.contains voters s.id) [
    | false ↦ none
    | true ↦ note_prevotes voters more (BTreeMap.insert map s.id (true, (entry map s.id).1))
  ]

  unfoldable pub note_precommits :
      VoterSet VoterId
      → List (SignedPrecommit H S VoterId)
      → BTreeMap VoterId (Bool × Bool)
      → Option (BTreeMap VoterId (Bool × Bool))
  unfolding VoterSet.contains BTreeMap.insert entry
  note_precommits voters [] map = some map
  note_precommits voters (s ∷ more) map = elim (VoterSet.contains voters s.id) [
    | false ↦ none
    | true ↦ note_precommits voters more (BTreeMap.insert map s.id ((entry map s.id).0, true))
  ]

  -- Whether the prevotes and the precommits have threshold support.
  unfoldable pub has_support : VoterSet VoterId → CatchUp H S VoterId → Bool
  unfolding note_prevotes note_precommits sum_weights
  has_support voters catch_up = elim (note_prevotes voters catch_up.prevotes []) [
    | none ↦ false
    | some map ↦ elim (note_precommits voters catch_up.precommits map) [
      | none ↦ false
      | some map' ↦
          let (pv, pc) = sum_weights voters map' (0, 0) in
          if reaches pv voters.threshold then reaches pc voters.threshold else false
    ]
  ]

module _ {ℓ κ μ ν} {VoterId : Type ℓ} {H : Type κ} {S : Type μ} {P : Type ν} where
  -- The round after an import, unless it failed.
  unfoldable pub imported :
      Outcome (Round VoterId H S × Attempt (ImportResult VoterId P S))
      → Outcome (Option (Round VoterId H S))
  imported (ok (round, done _)) = ok (some round)
  imported (ok (round, failed _)) = ok none
  imported (err _) = ok none
  imported panic = panic

module _ {ℓ κ μ} {VoterId : Type ℓ} {H : Type κ} {S : Type μ} ⦃oi : Ord VoterId⦄ ⦃oh : Ord H⦄
    ⦃es : Eq S⦄ where
  -- The two loops that import the votes.
  unfoldable pub import_prevotes :
      Chain H
      → List (SignedPrevote H S VoterId)
      → Round VoterId H S
      → Outcome (Option (Round VoterId H S))
  unfolding imported
  import_prevotes chain [] round = ok (some round)
  import_prevotes chain (s ∷ more) round =
      imported (import_prevote chain round s.prevote s.id s.signature) >>= λ next. elim next [
        | none ↦ ok none
        | some round' ↦ import_prevotes chain more round'
      ]

  unfoldable pub import_precommits :
      Chain H
      → List (SignedPrecommit H S VoterId)
      → Round VoterId H S
      → Outcome (Option (Round VoterId H S))
  unfolding imported
  import_precommits chain [] round = ok (some round)
  import_precommits chain (s ∷ more) round =
      imported (import_precommit chain round s.precommit s.id s.signature) >>= λ next. elim next [
        | none ↦ ok none
        | some round' ↦ import_precommits chain more round'
      ]

  -- `validate_catch_up` from the new round on.
  unfoldable pub complete_round :
      Chain H → CatchUp H S VoterId → Round VoterId H S → Outcome (Option (Round VoterId H S))
  unfolding import_prevotes import_precommits
  complete_round chain catch_up round = import_prevotes chain catch_up.prevotes round >>= λ p.
      elim p [
        | none ↦ ok none
        | some prevoted ↦ import_precommits chain catch_up.precommits prevoted >>= λ q. elim q [
          | none ↦ ok none
          | some r ↦ ok (if r.completable then some r else none)
        ]
      ]

  -- `validate_catch_up`
  unfoldable pub validate_catch_up :
      CatchUp H S VoterId → Chain H → VoterSet VoterId → ℕ → Outcome (Option (Round VoterId H S))
  unfolding has_support complete_round State.new
  validate_catch_up catch_up chain voters best_round_number =
      elim (leb catch_up.round_number best_round_number) [
        | true ↦ ok none
        | false ↦ elim (has_support voters catch_up) [
          | false ↦ ok none
          | true ↦ complete_round chain catch_up (
              State.new (record {
                round_number = catch_up.round_number;
                voters = voters;
                base = (catch_up.base_hash, catch_up.base_number);
              }))
        ]
      ]
