-- ===== src/Voter/CatchUp/Valid.antt =====
-- What the round that `validate_catch_up` returns has.
use finality_grandpa.Base.{
  ℕ, ◌≤◌, ◌<◌, Bool, true, false, Option, none, some, Ord, Eq, ok, ◌≡◌, refl, ap, arith, Ensures,
  Ensures-ok, Ensures-imp, Ensures->>=, Bool-cases, inl, inr, leb, if◌then◌else◌,
}
use finality_grandpa.VoterSet.{VoterSet}
use finality_grandpa.VoterSet.Valid.{IsValid}
use finality_grandpa.Chain.{Chain}
use finality_grandpa.Messages.{CatchUp, prevote_eq, precommit_eq}
use finality_grandpa.Round.Context
use finality_grandpa.Round.Tracker.Weight.{weight_of_keys}
use finality_grandpa.Round.State
use finality_grandpa.Round.State.{Round, RoundParams, threshold}
use finality_grandpa.Round.Import.Counted.{new-IsCounted}
use finality_grandpa.Voter.CatchUp.{
  import_prevotes, import_precommits, complete_round, has_support, validate_catch_up,
}
use finality_grandpa.Voter.CatchUp.Prepared.{
  IsPrepared, Imports, then_next, import_prevotes-IsPrepared, import_precommits-IsPrepared,
}

module _ {ℓ κ μ} {VoterId : Type ℓ} {H : Type κ} {S : Type μ} ⦃oi : Ord VoterId⦄ ⦃oh : Ord H⦄
    ⦃es : Eq S⦄ where
  -- What a caught-up round has: it is completable, for the voters and of the number.
  abbrev IsCompleted : VoterSet VoterId → ℕ → Round VoterId H S → Type (ℓ ⊔ κ)
  IsCompleted voters n r = IsPrepared voters n r × (r.completable ≡ true)

  IsCompleted-when :
      (voters : VoterSet VoterId) (n : ℕ) (r : Round VoterId H S) (completable : Bool)
      → r.completable ≡ completable
      → IsPrepared voters n r
      → Imports (IsCompleted voters n) (if completable then some r else none)
  IsCompleted-when voters n r true e h = (h, e)
  IsCompleted-when voters n r false e h = tt

  complete_round-IsCompleted :
      (voters : VoterSet VoterId) (n : ℕ) (chain : Chain H) (catch_up : CatchUp H S VoterId)
      (r : Round VoterId H S)
      → IsPrepared voters n r
      → Ensures (Imports (IsCompleted voters n)) (complete_round chain catch_up r)
  unfolding complete_round
  complete_round-IsCompleted voters n chain catch_up r h =
      Ensures->>= (Imports (IsPrepared voters n)) (Imports (IsCompleted voters n))
        (import_prevotes chain catch_up.prevotes r) _
        (import_prevotes-IsPrepared voters n chain catch_up.prevotes r h)
        λ next h'. then_next (IsPrepared voters n) (IsCompleted voters n) next _ h' λ prevoted k.
          Ensures->>= (Imports (IsPrepared voters n)) (Imports (IsCompleted voters n))
            (import_precommits chain catch_up.precommits prevoted) _
            (import_precommits-IsPrepared voters n chain catch_up.precommits prevoted k)
            λ last h''.
              then_next (IsPrepared voters n) (IsCompleted voters n) last _ h''
                λ r' k'. IsCompleted-when voters n r' r'.completable refl k'

  -- A round that `validate_catch_up` returns, for a valid voter set, has the number of the catch-up,
  -- above the best number, is completable and has an estimate; and the voters with a prevote in it
  -- weigh at least the threshold of the set, and so do the voters with a precommit in it.
  pub validate_catch_up_lem :
      (catch_up : CatchUp H S VoterId) (chain : Chain H) (voters : VoterSet VoterId) (best : ℕ)
      (r : Round VoterId H S)
      → IsValid voters
      → validate_catch_up catch_up chain voters best ≡ ok (some r)
      → (best < r.round_number)
        × (r.round_number ≡ catch_up.round_number)
        × (r.completable ≡ true)
        × ((e : H × ℕ) × (r.estimate ≡ some e))
        × (voters.threshold ≤ weight_of_keys r.prevote.votes voters.voters)
        × (voters.threshold ≤ weight_of_keys r.precommit.votes voters.voters)
  unfolding validate_catch_up State.new Context.new
  validate_catch_up_lem catch_up chain voters best r valid e =
      let (below, (prepared, completable)) =
        Ensures-ok (Imports CaughtUp) (validate_catch_up catch_up chain voters best) (some r) e
          caught_up in
      let (prevotes, precommits, estimate) = prepared.supported completable in
      let same_threshold = ap (λ (vs : VoterSet VoterId). vs.threshold) prepared.of_voters in
      (
        omega (arith, prepared.of_number),
        prepared.of_number,
        completable,
        estimate,
        omega (
          arith,
          prevotes,
          same_threshold,
          prepared.counted.prevotes,
          ap (λ (vs : VoterSet VoterId). weight_of_keys r.prevote.votes vs.voters)
              prepared.of_voters,
        ),
        omega (
          arith,
          precommits,
          same_threshold,
          prepared.counted.precommits,
          ap (λ (vs : VoterSet VoterId). weight_of_keys r.precommit.votes vs.voters)
              prepared.of_voters,
        ),
      )
    where
      CaughtUp : Round VoterId H S → Type (ℓ ⊔ κ)
      CaughtUp r' = (best < catch_up.round_number) × IsCompleted voters catch_up.round_number r'

      params : RoundParams VoterId H
      params = record {
        round_number = catch_up.round_number;
        voters = voters;
        base = (catch_up.base_hash, catch_up.base_number);
      }

      later_round :
          leb catch_up.round_number best ≡ false
          → (o : Option (Round VoterId H S)) → Imports (IsCompleted voters catch_up.round_number) o
          → Imports CaughtUp o
      later_round later none h = tt
      later_round later (some r') h = (ground (arith, later), h)

      caught_up : Ensures (Imports CaughtUp) (validate_catch_up catch_up chain voters best)
      caught_up = elim (Bool-cases (leb catch_up.round_number best)) [
        | inl old ↦ rw (old, validate_catch_up) tt
        | inr later ↦ elim (Bool-cases (has_support voters catch_up)) [
          | inr few ↦ rw (later, few, validate_catch_up) tt
          | inl many ↦
              rw (later, many, validate_catch_up)
                (Ensures-imp (complete_round chain catch_up (State.new params))
                  (complete_round-IsCompleted voters catch_up.round_number chain catch_up
                    (State.new params)
                    (record {
                      of_voters = refl;
                      of_number = refl;
                      counted = new-IsCounted params valid;
                      supported = λ complete. cc;
                    }))
                  (later_round later))
        ]
      ]
