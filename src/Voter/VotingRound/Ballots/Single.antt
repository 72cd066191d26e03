-- ===== src/Voter/VotingRound/Ballots/Single.antt =====
-- What a round tells the environment when it proposes, prevotes and precommits.
use finality_grandpa.Base.{
  ℕ, ◌≤◌, Bool, true, false, Option, none, some, ◌≡◌, ◌⊎◌, inl, inr, refl, arith,
}
use finality_grandpa.Messages.{PrimaryPropose}
use finality_grandpa.Round.State as RoundState
use finality_grandpa.Voter.Call.{Poll, ready, pending, Answer, fine, fault, Leaves, ◌>>◌}
use finality_grandpa.Voter.Environment.{Told, Polled}
use finality_grandpa.Voter.VotingRound.{State, Voting, Running, is_active, is_primary, set_state}
use finality_grandpa.Voter.VotingRound.Construct.{construct_proposal}
use finality_grandpa.Voter.VotingRound.Cast.{
  propose, propose_from, primary_propose, cast_prevote, finish_prevoting, cast_precommit,
  precommit_when,
}
use finality_grandpa.Voter.VotingRound.Ballots.{kind, stage_of, IsAfter, FollowsStages}
use finality_grandpa.Voter.VotingRound.Ballots.Taken.{
  told_nothing, stopped, FollowsFrom, take_state-FollowsStages, set_state-FollowsFrom, tell-IsAfter,
  tell-IsAfter_then,
}

module _ {ℓ} {H : Type ℓ} where
  construct_proposal-primary :
      (voting : Voting) (last : RoundState.State H)
      → (voting ≡ Voting.primary) ⊎ (construct_proposal voting last ≡ none)
  unfolding construct_proposal is_primary
  construct_proposal-primary voting last = ground arith

module _ {ℓ} {VoterId H S T W O X : Type ℓ} where
  propose-FollowsFrom :
      (polled : Polled VoterId H S T W O X) (t u : T) (proposal : Option (PrimaryPropose H))
      (s : Running VoterId H S T W O)
      → s.round.state ≡ none
      → s.round.voting ≡ Voting.primary
      → Leaves (IsAfter 0 s.shared.calls) (propose polled t u proposal s)
  unfolding propose kind stage_of
  propose-FollowsFrom polled t u none s e primary =
      told_nothing 0 (record s { round = record s.round { state = some (State.start t u) } })
        (omega arith)
  propose-FollowsFrom polled t u (some p) s e primary =
      tell-IsAfter polled 0 0 (Told.proposed s.round.votes.round_number p) _ s e refl (omega arith)
        (omega arith) (refl, ground (arith, primary))

  pub propose_from-FollowsFrom :
      (polled : Polled VoterId H S T W O X) (last : RoundState.State H)
      (taken : Option (State T (H × W)))
      → FollowsFrom taken (propose_from polled last taken)
  unfolding propose_from propose stage_of
  propose_from-FollowsFrom polled last none s e = set_state-FollowsFrom X none s e
  propose_from-FollowsFrom polled last (some (State.proposed t u)) s e =
      set_state-FollowsFrom X (some (State.proposed t u)) s e
  propose_from-FollowsFrom polled last (some (State.prevoting t u)) s e =
      set_state-FollowsFrom X (some (State.prevoting t u)) s e
  propose_from-FollowsFrom polled last (some (State.prevoted t)) s e =
      set_state-FollowsFrom X (some (State.prevoted t)) s e
  propose_from-FollowsFrom polled last (some State.precommitted) s e =
      set_state-FollowsFrom X (some State.precommitted) s e
  propose_from-FollowsFrom polled last (some (State.start t u)) s e =
      elim (construct_proposal-primary s.round.voting last) [
        | inr e' ↦ rw e' (set_state-FollowsFrom X (some (State.start t u)) s e)
        | inl primary ↦
            let stage_zero : stage_of {T = T} {W = H × W} s.round.voting (some (State.start t u))
                ≡ 0 =
              rw primary refl in
            rw stage_zero
              (propose-FollowsFrom polled t u (construct_proposal s.round.voting last) s e primary)
      ]

  cast_prevote-FollowsFrom :
      (polled : Polled VoterId H S T W O X) (u : T) (w : H × W) (found : Option (H × ℕ))
      → FollowsFrom (some (State.prevoting u w)) (cast_prevote polled u found)
  unfolding cast_prevote kind stage_of
  cast_prevote-FollowsFrom polled u w none s e =
      told_nothing 1 (record s { round = record s.round { state = none; voting = Voting.no } })
        (omega arith)
  cast_prevote-FollowsFrom polled u w (some target) s e =
      tell-IsAfter polled 1 1 _ _ s e refl (omega arith) (omega arith) (refl, ground arith)

  pub finish_prevoting-FollowsFrom :
      (polled : Polled VoterId H S T W O X) (u : T) (base : H) (w : W)
      (answered : Poll (Answer X (Option (H × ℕ))))
      → FollowsFrom (some (State.prevoting u (base, w))) (finish_prevoting polled u base w answered)
  unfolding finish_prevoting stage_of
  finish_prevoting-FollowsFrom polled u base w pending s e =
      set_state-FollowsFrom X (some (State.prevoting u (base, w))) s e
  finish_prevoting-FollowsFrom polled u base w (ready (fault x)) s e = stopped 1 s e (omega arith)
  finish_prevoting-FollowsFrom polled u base w (ready (fine found)) s e =
      cast_prevote-FollowsFrom polled u (base, w) found s e

  cast_precommit-FollowsFrom :
      (polled : Polled VoterId H S T W O X) (u : T)
      → FollowsFrom (some (State.prevoted u)) (precommit_when polled u true)
  unfolding precommit_when cast_precommit is_active kind stage_of
  cast_precommit-FollowsFrom polled u s e = go s.round.voting refl
    where
      told_vote_then :
          stage_of {W = H × W} s.round.voting (some (State.prevoted u)) ≤ 2
          → Leaves
              (IsAfter
                (stage_of {W = H × W} s.round.voting (some (State.prevoted u)))
                s.shared.calls)
              ((cast_precommit polled Voting.yes >> set_state (some State.precommitted)) s)
      told_vote_then le =
          tell-IsAfter_then polled _ 2 _ _ (set_state (some State.precommitted)) s e refl le
            (omega arith) (refl, omega arith)

      go :
          (voting : Voting)
          → s.round.voting ≡ voting
          → Leaves
              (IsAfter
                (stage_of {W = H × W} s.round.voting (some (State.prevoted u)))
                s.shared.calls)
              ((cast_precommit polled voting >> set_state (some State.precommitted)) s)
      go Voting.no e' =
          told_nothing (stage_of {W = H × W} s.round.voting (some (State.prevoted u)))
            (record s { round = record s.round { state = some State.precommitted } }) (ground arith)
      go Voting.yes e' = told_vote_then (ground (arith, e'))
      go Voting.primary e' = told_vote_then (ground (arith, e'))

  pub precommit_when-FollowsFrom :
      (polled : Polled VoterId H S T W O X) (u : T) (due : Bool)
      → FollowsFrom (some (State.prevoted u)) (precommit_when polled u due)
  unfolding precommit_when stage_of
  precommit_when-FollowsFrom polled u true s e = cast_precommit-FollowsFrom polled u s e
  precommit_when-FollowsFrom polled u false s e =
      set_state-FollowsFrom X (some (State.prevoted u)) s e

  pub primary_propose-FollowsStages :
      (polled : Polled VoterId H S T W O X) (last : RoundState.State H)
      → FollowsStages (primary_propose polled last)
  unfolding primary_propose
  primary_propose-FollowsStages polled last =
      take_state-FollowsStages (propose_from polled last) (propose_from-FollowsFrom polled last)
