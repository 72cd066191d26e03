-- ===== src/Voter/VotingRound/Ballots/Cast.antt =====
-- `primary_propose`, `prevote` and `precommit` cast the votes of a round in the order of its stages.
use finality_grandpa.Base.{
  ℕ, ◌≤◌, Bool, true, false, Option, none, some, ◌≡◌, ◌⊎◌, inl, inr, refl, arith, if◌then◌else◌, ok,
  err, panic, Ord, Outcome, Error, expect,
}
use finality_grandpa.Round.State as RoundState
use finality_grandpa.Voter.Call.{Call, Leaves, Leaves->>=, ◌>>=◌, lift, pure}
use finality_grandpa.Voter.Environment.{Environment, Polled}
use finality_grandpa.Voter.VotingRound.{State, Running, is_active, set_state}
use finality_grandpa.Voter.VotingRound.Construct.{construct_prevote, ghost_reached}
use finality_grandpa.Voter.VotingRound.Cast.{
  elapsed, prevote_as, prevote_when, start_prevoting, prevote_from, prevote, should_precommit,
  precommit_when, precommit_from, precommit,
}
use finality_grandpa.Voter.VotingRound.Ballots.{stage_of, IsAfter, FollowsStages}
use finality_grandpa.Voter.VotingRound.Ballots.Taken.{
  told_nothing, stopped, FollowsFrom, take_state-FollowsStages, set_state-FollowsFrom, IsReading,
  lift-IsReading, IsReading->>=, elapsed-IsReading,
}
use finality_grandpa.Voter.VotingRound.Ballots.Single.{
  finish_prevoting-FollowsFrom, precommit_when-FollowsFrom,
}

module _ {ℓ} {VoterId H S T W O X : Type ℓ} ⦃oh : Ord H⦄ where
  construct-FollowsFrom :
      (from : Error → X) (taken : Option (State T (H × W))) (u : T) (constructed : Outcome (H × W))
      (s : Running VoterId H S T W O)
      → s.round.state ≡ none
      → stage_of s.round.voting taken ≤ 1
      → Leaves
          (IsAfter (stage_of s.round.voting taken) s.shared.calls)
          ((lift from constructed >>= λ c. set_state (some (State.prevoting u c))) s)
  unfolding stage_of
  construct-FollowsFrom from taken u (ok c) s e le =
      told_nothing (stage_of s.round.voting taken)
        (record s { round = record s.round { state = some (State.prevoting u c) } }) le
  construct-FollowsFrom from taken u (err x) s e le =
      stopped (stage_of s.round.voting taken) s e (omega arith)
  construct-FollowsFrom from taken u panic s e le = tt

  prevote_due-FollowsFrom :
      (env : Environment VoterId H T W O X) (last : RoundState.State H) (t u : T)
      (taken : Option (State T (H × W))) (proposed : Bool) (s : Running VoterId H S T W O)
      → s.round.state ≡ none
      → (taken ≡ some (State.start t u)) ⊎ (taken ≡ some (State.proposed t u))
      → Leaves
          (IsAfter (stage_of s.round.voting taken) s.shared.calls)
          (prevote_when env last t u proposed true s)
  unfolding prevote_when prevote_as is_active stage_of
  prevote_due-FollowsFrom env last t u taken proposed s e start = go (is_active s.round.voting) refl
    where
      go :
          (active : Bool)
          → is_active s.round.voting ≡ active
          → Leaves
              (IsAfter (stage_of s.round.voting taken) s.shared.calls)
              (prevote_as env last u s.round active s)
      go true active =
          construct-FollowsFrom env.from taken u (construct_prevote env s.round last) s e
            (ground (arith, start))
      go false passive =
          told_nothing (stage_of s.round.voting taken)
            (record s { round = record s.round { state = some (State.prevoted u) } })
            (ground (arith, start, passive))

  prevote_when-FollowsFrom :
      (env : Environment VoterId H T W O X) (last : RoundState.State H) (t u : T)
      (proposed due : Bool)
      → FollowsFrom {S = S}
          (some (if proposed then State.proposed t u else State.start t u))
          (prevote_when env last t u proposed due)
  unfolding prevote_when
  prevote_when-FollowsFrom env last t u true false s e =
      set_state-FollowsFrom X (some (State.proposed t u)) s e
  prevote_when-FollowsFrom env last t u false false s e =
      set_state-FollowsFrom X (some (State.start t u)) s e
  prevote_when-FollowsFrom env last t u true true s e =
      prevote_due-FollowsFrom env last t u (some (State.proposed t u)) true s e (inr refl)
  prevote_when-FollowsFrom env last t u false true s e =
      prevote_due-FollowsFrom env last t u (some (State.start t u)) false s e (inl refl)

  start_prevoting-FollowsFrom :
      (env : Environment VoterId H T W O X) (polled : Polled VoterId H S T W O X)
      (last : RoundState.State H) (t u : T) (proposed : Bool)
      → FollowsFrom
          (some (if proposed then State.proposed t u else State.start t u))
          (start_prevoting env polled last t u proposed)
  unfolding start_prevoting
  start_prevoting-FollowsFrom env polled last t u proposed =
      IsReading->>= (some (if proposed then State.proposed t u else State.start t u))
        (elapsed polled t) (prevote_when env last t u proposed) (elapsed-IsReading polled t)
        (prevote_when-FollowsFrom env last t u proposed)

  prevote_from-FollowsFrom :
      (env : Environment VoterId H T W O X) (polled : Polled VoterId H S T W O X)
      (last : RoundState.State H) (taken : Option (State T (H × W)))
      → FollowsFrom taken (prevote_from env polled last taken)
  unfolding prevote_from
  prevote_from-FollowsFrom env polled last none = set_state-FollowsFrom X none
  prevote_from-FollowsFrom env polled last (some (State.start t u)) =
      start_prevoting-FollowsFrom env polled last t u false
  prevote_from-FollowsFrom env polled last (some (State.proposed t u)) =
      start_prevoting-FollowsFrom env polled last t u true
  prevote_from-FollowsFrom env polled last (some (State.prevoting u (base, w))) =
      finish_prevoting-FollowsFrom polled u base w (polled.best_chain w)
  prevote_from-FollowsFrom env polled last (some (State.prevoted t)) =
      set_state-FollowsFrom X (some (State.prevoted t))
  prevote_from-FollowsFrom env polled last (some State.precommitted) =
      set_state-FollowsFrom X (some State.precommitted)

  pub prevote-FollowsStages :
      (env : Environment VoterId H T W O X) (polled : Polled VoterId H S T W O X)
      (last : RoundState.State H)
      → FollowsStages (prevote env polled last)
  unfolding prevote
  prevote-FollowsStages env polled last =
      take_state-FollowsStages (prevote_from env polled last)
        (prevote_from-FollowsFrom env polled last)

  should_precommit-IsReading :
      (env : Environment VoterId H T W O X) (polled : Polled VoterId H S T W O X) (estimate : H × ℕ)
      (u : T)
      → IsReading (should_precommit env polled estimate u)
  unfolding should_precommit
  should_precommit-IsReading env polled estimate u s =
      Leaves->>= (λ t. t ≡ s)
        (lift env.from (ghost_reached env.chain estimate s.round.votes.prevote_ghost)) _ s
        (lift-IsReading env.from (ghost_reached env.chain estimate s.round.votes.prevote_ghost) s)
        (λ reached t same. go reached t same)
    where
      go :
          (reached : Bool) (t : Running VoterId H S T W O)
          → t ≡ s
          → Leaves
              (λ t'. t' ≡ s)
              (elim reached as (λ b. Call X (Running VoterId H S T W O) Bool) [
                | true ↦ elapsed polled u
                | false ↦ pure false
              ]
                t)
      go false t same = same
      go true t same = rw same (elapsed-IsReading polled u s)

  precommit_from-FollowsFrom :
      (env : Environment VoterId H T W O X) (polled : Polled VoterId H S T W O X)
      (last : RoundState.State H) (taken : Option (State T (H × W)))
      → FollowsFrom taken (precommit_from env polled last taken)
  unfolding precommit_from
  precommit_from-FollowsFrom env polled last none = set_state-FollowsFrom X none
  precommit_from-FollowsFrom env polled last (some (State.start t u)) =
      set_state-FollowsFrom X (some (State.start t u))
  precommit_from-FollowsFrom env polled last (some (State.proposed t u)) =
      set_state-FollowsFrom X (some (State.proposed t u))
  precommit_from-FollowsFrom env polled last (some (State.prevoting t u)) =
      set_state-FollowsFrom X (some (State.prevoting t u))
  precommit_from-FollowsFrom env polled last (some State.precommitted) =
      set_state-FollowsFrom X (some State.precommitted)
  precommit_from-FollowsFrom env polled last (some (State.prevoted u)) =
      IsReading->>= (some (State.prevoted u)) (lift env.from (expect last.estimate)) _
        (lift-IsReading env.from (expect last.estimate))
        (λ estimate.
          IsReading->>= (some (State.prevoted u)) (should_precommit env polled estimate u)
            (precommit_when polled u) (should_precommit-IsReading env polled estimate u)
            (precommit_when-FollowsFrom polled u))

  pub precommit-FollowsStages :
      (env : Environment VoterId H T W O X) (polled : Polled VoterId H S T W O X)
      (last : RoundState.State H)
      → FollowsStages (precommit env polled last)
  unfolding precommit
  precommit-FollowsStages env polled last =
      take_state-FollowsStages (precommit_from env polled last)
        (precommit_from-FollowsFrom env polled last)
