-- ===== src/Commit.antt =====
-- src/lib.rs: `validate_commit`.
pub mod Valid
use finality_grandpa.Base.{
  ℕ, ◌+◌, Bool, true, false, ◌&&◌, ◌==◌, Option, none, some, List, [], ◌∷◌, length, map, keep, ltb,
  if◌then◌else◌, Ord, Eq, eqb, Outcome, ok, err, panic, ◌>>=◌, done, failed,
}
use finality_grandpa.Base.BTreeSet
use finality_grandpa.Base.BTreeSet.{BTreeSet}
use finality_grandpa.Chain.{Chain, is_equal_or_descendent_of}
use finality_grandpa.Messages.{Precommit, SignedPrecommit, Commit}
use finality_grandpa.VoterSet
use finality_grandpa.VoterSet.{VoterSet}
use finality_grandpa.Round.State
use finality_grandpa.Round.State.{Round}
use finality_grandpa.Round.Import.{import_precommit}

pub record CommitValidationResult : Type 0 where
  pub valid : Bool
  pub num_precommits : ℕ
  pub num_duplicated_precommits : ℕ
  pub num_equivocations : ℕ
  pub num_invalid_voters : ℕ

module _ {ℓ} {H : Type ℓ} where
  -- `min_by_key(|precommit| precommit.target_number)`: the first of the lowest.
  unfoldable pub lowest_from : Precommit H → List (Precommit H) → Precommit H
  lowest_from best [] = best
  lowest_from best (p ∷ ps) =
      lowest_from (if ltb p.target_number best.target_number then p else best) ps

  unfoldable pub lowest : List (Precommit H) → Option (Precommit H)
  unfolding lowest_from
  lowest [] = none
  lowest (p ∷ ps) = some (lowest_from p ps)

module _ {ℓ κ μ} {VoterId : Type ℓ} {H : Type κ} {S : Type μ} ⦃oi : Ord VoterId⦄ where
  -- The precommits of the voters of the set.
  unfoldable pub of_voters :
      VoterSet VoterId → List (SignedPrecommit H S VoterId) → List (SignedPrecommit H S VoterId)
  of_voters vs ps = keep (λ s. VoterSet.contains vs s.id) ps

  -- How many precommits the filter leaves out.
  unfoldable pub count_invalid : VoterSet VoterId → List (SignedPrecommit H S VoterId) → ℕ
  count_invalid vs [] = 0
  count_invalid vs (s ∷ ps) = (if VoterSet.contains vs s.id then 0 else 1) + count_invalid vs ps

module _ {ℓ κ μ} {VoterId : Type ℓ} {H : Type κ} {S : Type μ} ⦃oi : Ord VoterId⦄ ⦃oh : Ord H⦄
    ⦃es : Eq S⦄ where
  -- `.all(|signed| chain.is_equal_or_descendent_of(base, target))`
  unfoldable pub all_descend : Chain H → H → List (SignedPrecommit H S VoterId) → Outcome Bool
  all_descend chain base [] = ok true
  all_descend chain base (s ∷ ps) =
      is_equal_or_descendent_of chain base s.precommit.target_hash >>= λ b. elim b [
        | true ↦ all_descend chain base ps
        | false ↦ ok false
      ]

  -- The loop that imports the precommits. Without a round the function has returned from the loop.
  unfoldable pub import_all :
      Chain H
      → List (SignedPrecommit H S VoterId)
      → Round VoterId H S
      → CommitValidationResult
      → BTreeSet VoterId
      → Outcome (CommitValidationResult × Option (Round VoterId H S))
  import_all chain [] r result equivocated = ok (result, some r)
  import_all chain (s ∷ ps) r result equivocated =
      elim (import_precommit chain r s.precommit s.id s.signature) [
        | err e ↦ err e
        | panic ↦ panic
        | ok (r', attempt) ↦ elim attempt [
          | failed e ↦ err e
          | done imported ↦ elim imported.equivocation [
            | some _ ↦ elim (BTreeSet.contains equivocated s.id) [
              | true ↦ ok (record result { num_equivocations = result.num_equivocations + 1 }, none)
              | false ↦
                  import_all chain ps r'
                    (record result { num_equivocations = result.num_equivocations + 1 })
                    (BTreeSet.insert equivocated s.id)
            ]
            | none ↦
                import_all chain ps r'
                  (if imported.duplicated
                    then record result {
                      num_duplicated_precommits = result.num_duplicated_precommits + 1;
                    }
                    else result)
                  equivocated
          ]
        ]
      ]

  -- The last match: the precommit-GHOST must be the target of the commit.
  unfoldable pub check_target :
      Commit H S VoterId
      → CommitValidationResult × Option (Round VoterId H S)
      → Outcome CommitValidationResult
  check_target commit (result, none) = ok result
  check_target commit (result, some r) = do
    ghosted ← State.precommit_ghost r
    elim (ghosted.1) [
      | none ↦ ok result
      | some (hash, number) ↦
          if eqb hash commit.target_hash && number == commit.target_number
          then ok (record result { valid = true })
          else ok result
    ]

  -- `validate_commit`
  unfoldable pub validate_commit :
      Commit H S VoterId → VoterSet VoterId → Chain H → Outcome CommitValidationResult
  unfolding lowest of_voters count_invalid all_descend import_all check_target State.new
  validate_commit commit vs chain =
      let result : CommitValidationResult = record {
        valid = false;
        num_precommits = length commit.precommits;
        num_duplicated_precommits = 0;
        num_equivocations = 0;
        num_invalid_voters = count_invalid vs commit.precommits;
      } in
      let valid_precommits = of_voters vs commit.precommits in
      elim (lowest (map (λ s. s.precommit) valid_precommits)) [
        | none ↦ ok result
        | some base ↦ do
          descend ← all_descend chain base.target_hash valid_precommits
          elim descend [
            | false ↦ ok result
            | true ↦ do
              imported ←
                  import_all chain valid_precommits
                    (State.new (record {
                      round_number = 0;
                      voters = vs;
                      base = (base.target_hash, base.target_number);
                    }))
                    result []
              check_target commit imported
          ]
      ]
