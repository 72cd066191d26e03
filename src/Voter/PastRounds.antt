-- ===== src/Voter/PastRounds.antt =====
-- `PastRounds` of src/voter/past_rounds.rs: the background rounds, the channels to their committers,
-- and the stream of the commits that they send. Wakers are left out.
pub mod Counted
pub mod Kept
use finality_grandpa.Base.{
  ℕ, ◌+◌, not, Option, none, some, List, [], ◌∷◌, ◌++◌, Ord, Eq, ◌==◌, keep, if◌then◌else◌,
}
use finality_grandpa.Messages.{Commit}
use finality_grandpa.Round.State as RoundState
use finality_grandpa.Voter.Call.{
  Poll, ready, pending, Reply, returned, raised, panicked, Call, pure, gets, modify, answer, ◌>>=◌,
  ◌>>◌,
}
use finality_grandpa.Voter.Environment.{Environment, Told, Polled, Shared}
use finality_grandpa.Voter.VotingRound.{VotingRound}
use finality_grandpa.Voter.Background.{
  BackgroundRound, RoundCommitter, BackgroundRoundChange, Background, background_round,
}
use finality_grandpa.Voter.Background as Background

-- A future of the set, which is `Some` until its poll is ready, with the channel of its committer.
pub record PastRound {ℓ} (VoterId H S T W O : Type ℓ) : Type ℓ where
  pub channel : ℕ
  pub inner : BackgroundRound VoterId H S T W O

-- `PastRounds`. The set of futures is in no particular order. A sender is the number of a channel,
-- and the latest sender of a round is the first. `next_channel` has not been given out.
pub record PastRounds {ℓ} (VoterId H S T W O : Type ℓ) : Type ℓ where
  pub past_rounds : List (PastRound VoterId H S T W O)
  pub commit_senders : List (ℕ × ℕ)
  pub next_channel : ℕ

-- The past rounds and what they share with the other rounds.
pub record Past {ℓ} (VoterId H S T W O : Type ℓ) : Type ℓ where
  pub rounds : PastRounds VoterId H S T W O
  pub shared : Shared VoterId H S

unfoldable pub sender_of : List (ℕ × ℕ) → ℕ → Option ℕ
sender_of [] number = none
sender_of ((n, channel) ∷ senders) number =
    if n == number then some channel else sender_of senders number

module _ {ℓ} {VoterId H S T W O : Type ℓ} where
  -- `PastRounds::new`
  abbrev pub new : PastRounds VoterId H S T W O
  new = record { past_rounds = []; commit_senders = []; next_channel = 0 }

  -- `PastRounds::update_finalized`
  unfoldable pub update_all :
      ℕ → List (PastRound VoterId H S T W O) → List (PastRound VoterId H S T W O)
  unfolding Background.update_finalized
  update_all f_num [] = []
  update_all f_num (r ∷ rs) =
      record r { inner = Background.update_finalized r.inner f_num } ∷ update_all f_num rs

  unfoldable pub update_finalized : PastRounds VoterId H S T W O → ℕ → PastRounds VoterId H S T W O
  unfolding update_all
  update_finalized p f_num = record p { past_rounds = update_all f_num p.past_rounds }

  -- `PastRounds::voting_rounds`
  unfoldable pub voting_rounds :
      List (PastRound VoterId H S T W O) → List (VotingRound VoterId H S T W O)
  voting_rounds [] = []
  voting_rounds (r ∷ rs) = r.inner.inner ∷ voting_rounds rs

  -- `unbounded_send`: the commit is in the channel, unless the committer has been dropped, and then
  -- the commit is given back.
  unfoldable pub send :
      Commit H S VoterId
      → PastRound VoterId H S T W O
      → Option (RoundCommitter VoterId H S T)
      → Option (Commit H S VoterId) × PastRound VoterId H S T W O
  send commit r none = (some commit, r)
  send commit r (some c) = (
    none,
    record r {
      inner = record r.inner {
        round_committer = some (record c { import_commits = c.import_commits ++ commit ∷ [] });
      };
    },
  )

  unfoldable pub send_to :
      Commit H S VoterId
      → ℕ
      → List (PastRound VoterId H S T W O)
      → Option (Commit H S VoterId) × List (PastRound VoterId H S T W O)
  unfolding send
  send_to commit channel [] = (some commit, [])
  send_to commit channel (r ∷ rs) =
      let (left, rest) = send_to commit channel rs in
      let (refused, sent) = send commit r r.inner.round_committer in
      if r.channel == channel then (refused, sent ∷ rs) else (left, r ∷ rest)

  -- `PastRounds::import_commit`, with what it gives back.
  unfoldable pub import_commit :
      PastRounds VoterId H S T W O
      → ℕ
      → Commit H S VoterId
      → Option (Commit H S VoterId) × PastRounds VoterId H S T W O
  unfolding send_to sender_of
  import_commit p number commit = elim (sender_of p.commit_senders number) [
    | none ↦ (some commit, p)
    | some channel ↦
        let (left, rounds) = send_to commit channel p.past_rounds in
        (left, record p { past_rounds = rounds })
  ]

  -- The future of a channel, and the others.
  unfoldable pub take_future :
      ℕ
      → List (PastRound VoterId H S T W O)
      → Option (PastRound VoterId H S T W O × List (PastRound VoterId H S T W O))
  take_future channel [] = none
  take_future channel (r ∷ rs) =
      let rest = take_future channel rs in
      if r.channel == channel
      then some (r, rs)
      else elim rest [ none ↦ none | some (found, others) ↦ some (found, r ∷ others) ]

  -- What the stream answers when no future is left to poll.
  unfoldable pub at_end :
      List (PastRound VoterId H S T W O) → Poll (Option (ℕ × Commit H S VoterId))
  at_end [] = ready none
  at_end (r ∷ rs) = pending

module _ {ℓ} {VoterId H S T W O X : Type ℓ} where
  -- `PastRounds::push`
  unfoldable pub push :
      Environment VoterId H T W O X
      → VotingRound VoterId H S T W O
      → PastRounds VoterId H S T W O
      → PastRounds VoterId H S T W O
  unfolding background_round
  push env round p = record {
    past_rounds =
        record { channel = p.next_channel; inner = background_round env round } ∷ p.past_rounds;
    commit_senders = (round.votes.round_number, p.next_channel) ∷ p.commit_senders;
    next_channel = p.next_channel + 1;
  }

  unfoldable pub set_rounds :
      List (PastRound VoterId H S T W O) → Call X (Past VoterId H S T W O) (Unit {0})
  set_rounds rs = modify (λ s. record s { rounds = record s.rounds { past_rounds = rs } })

  -- The future goes back to the set.
  unfoldable pub keep_round :
      PastRound VoterId H S T W O → Call X (Past VoterId H S T W O) (Unit {0})
  keep_round r =
      modify (λ s. record s { rounds = record s.rounds { past_rounds = r ∷ s.rounds.past_rounds } })

  -- `self.commit_senders.remove(&number)`
  unfoldable pub remove_sender : ℕ → Call X (Past VoterId H S T W O) (Unit {0})
  remove_sender number = modify (λ s. record s {
    rounds = record s.rounds {
      commit_senders = keep (λ sender. not (sender.0 == number)) s.rounds.commit_senders;
    };
  })

  abbrev pub tell_concluded :
      Polled VoterId H S T W O X → Told VoterId H S → Call X (Past VoterId H S T W O) (Unit {0})
  tell_concluded polled told =
      modify (λ s. record s { shared = record s.shared { calls = s.shared.calls ++ told ∷ [] } })
      >> answer (polled.told told)

  -- A round that has been polled, with what it shares stored.
  unfoldable pub store_polled :
      ℕ
      → Past VoterId H S T W O
      → Reply X (Background VoterId H S T W O) (Poll (BackgroundRoundChange VoterId H S))
      → Reply X
          (Past VoterId H S T W O)
          (Poll (BackgroundRoundChange VoterId H S) × PastRound VoterId H S T W O)
  store_polled channel s (returned change b) =
      returned (change, record { channel = channel; inner = b.background })
        (record s { shared = b.shared })
  store_polled channel s (raised x b) = raised x (record s { shared = b.shared })
  store_polled channel s panicked = panicked

  -- The body of the loop of `poll_next`, on what the poll of a future answers: the commit that it
  -- returns, if it does not go on.
  unfoldable pub after_poll :
      Polled VoterId H S T W O X
      → Poll (BackgroundRoundChange VoterId H S) × PastRound VoterId H S T W O
      → Call X (Past VoterId H S T W O) (Option (ℕ × Commit H S VoterId))
  unfolding keep_round remove_sender RoundState.state
  after_poll polled (pending, r) = keep_round r >> pure none
  after_poll polled (ready (BackgroundRoundChange.concluded number), r) =
      let votes = r.inner.inner.votes in
      tell_concluded polled (
        Told.concluded votes.round_number (RoundState.state votes)
          (votes.graph.base, votes.graph.base_number) votes.historical_votes)
      >> remove_sender number
      >> pure none
  after_poll polled (ready (BackgroundRoundChange.committed commit), r) =
      keep_round r >> pure (some (r.inner.inner.votes.round_number, commit))

  -- A commit is returned, and else the loop goes on.
  unfoldable pub unless_sent :
      Call X (Past VoterId H S T W O) (Poll (Option (ℕ × Commit H S VoterId)))
      → Option (ℕ × Commit H S VoterId)
      → Call X (Past VoterId H S T W O) (Poll (Option (ℕ × Commit H S VoterId)))
  unless_sent rest none = rest
  unless_sent rest (some sent) = pure (ready (some sent))

module _ {ℓ} {VoterId H S T W O X : Type ℓ} ⦃oi : Ord VoterId⦄ ⦃oh : Ord H⦄ ⦃es : Eq S⦄ where
  unfoldable pub poll_future :
      Environment VoterId H T W O X
      → Polled VoterId H S T W O X
      → PastRound VoterId H S T W O
      → Call X
          (Past VoterId H S T W O)
          (Poll (BackgroundRoundChange VoterId H S) × PastRound VoterId H S T W O)
  unfolding store_polled Background.poll
  poll_future env polled r s =
      store_polled r.channel s
        (Background.poll env polled (record { background = r.inner; shared = s.shared }))

  unfoldable pub poll_found :
      Environment VoterId H T W O X
      → Polled VoterId H S T W O X
      → Option (PastRound VoterId H S T W O × List (PastRound VoterId H S T W O))
      → Call X (Past VoterId H S T W O) (Option (ℕ × Commit H S VoterId))
  unfolding set_rounds poll_future after_poll
  poll_found env polled none = pure none
  poll_found env polled (some (r, others)) =
      set_rounds others >> poll_future env polled r >>= after_poll polled

  -- `PastRounds::poll_next`. The list says which futures the executor polls, by their channels, in
  -- which order, and what their environments answer.
  unfoldable pub poll_next :
      Environment VoterId H T W O X
      → List (ℕ × Polled VoterId H S T W O X)
      → Call X (Past VoterId H S T W O) (Poll (Option (ℕ × Commit H S VoterId)))
  unfolding take_future poll_found at_end unless_sent
  poll_next env [] = gets (λ s. at_end s.rounds.past_rounds)
  poll_next env ((channel, polled) ∷ more) =
      gets (λ s. take_future channel s.rounds.past_rounds) >>= λ found.
      poll_found env polled found >>= unless_sent (poll_next env more)
