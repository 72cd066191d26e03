-- ===== src/Voter/Background.antt =====
-- `BackgroundRound` and `RoundCommitter` of src/voter/past_rounds.rs: a round that is kept until its
-- estimate is finalized, and the commit that it sends. Wakers are left out.
pub mod Commits
use finality_grandpa.Base.{
  ℕ, Bool, true, false, leb, ltb, max, Option, none, some, List, [], ◌∷◌, Ord, Eq, if◌then◌else◌,
}
use finality_grandpa.Messages.{Commit}
use finality_grandpa.Voter.Call.{
  Poll, ready, pending, Answer, fine, fault, Reply, returned, raised, panicked, Call, pure, raise,
  gets, modify, ◌>>=◌, ◌>>◌,
}
use finality_grandpa.Voter.Environment.{Environment, Polled, Shared}
use finality_grandpa.Voter.VotingRound.{VotingRound, Running}
use finality_grandpa.Voter.VotingRound.Incoming.{check_and_import_from_commit}
use finality_grandpa.Voter.VotingRound.Notify as VotingRound

-- `RoundCommitter`. The receiver is the list of the commits in its channel.
pub record RoundCommitter {ℓ} (VoterId H S T : Type ℓ) : Type ℓ where
  pub commit_timer : T
  pub import_commits : List (Commit H S VoterId)
  pub last_commit : Option (Commit H S VoterId)

-- `BackgroundRound`
pub record BackgroundRound {ℓ} (VoterId H S T W O : Type ℓ) : Type ℓ where
  pub inner : VotingRound VoterId H S T W O
  pub finalized_number : ℕ
  pub round_committer : Option (RoundCommitter VoterId H S T)

-- `BackgroundRoundChange`
pub data BackgroundRoundChange {ℓ} (VoterId H S : Type ℓ) : Type ℓ where
  concluded : ℕ → BackgroundRoundChange VoterId H S
  committed : Commit H S VoterId → BackgroundRoundChange VoterId H S

-- A background round and what it shares with the other rounds.
pub record Background {ℓ} (VoterId H S T W O : Type ℓ) : Type ℓ where
  pub background : BackgroundRound VoterId H S T W O
  pub shared : Shared VoterId H S

module _ {ℓ} {VoterId H S T W O X : Type ℓ} where
  -- The background round that `PastRounds::push` makes.
  unfoldable pub background_round :
      Environment VoterId H T W O X
      → VotingRound VoterId H S T W O
      → BackgroundRound VoterId H S T W O
  background_round env round = record {
    inner = round;
    finalized_number = 0;
    round_committer =
        some (record {
          commit_timer = env.round_commit_timer;
          import_commits = [];
          last_commit = none;
        });
  }

module _ {ℓ} {VoterId H S T W O : Type ℓ} where
  -- `BackgroundRound::is_done`
  unfoldable pub is_done : BackgroundRound VoterId H S T W O → Bool
  is_done b = elim b.round_committer [
    | some _ ↦ false
    | none ↦ elim b.inner.votes.estimate [
      | none ↦ true
      | some estimate ↦ leb (estimate.1) b.finalized_number
    ]
  ]

  -- `BackgroundRound::update_finalized`
  unfoldable pub update_finalized :
      BackgroundRound VoterId H S T W O → ℕ → BackgroundRound VoterId H S T W O
  update_finalized b new_finalized = record b {
    finalized_number = max b.finalized_number new_finalized;
  }

module _ {ℓ} {VoterId H S : Type ℓ} where
  -- The match of `commit` once the timer is over, on the last commit seen, the block that the round
  -- has finalized and its finalizing commit.
  unfoldable pub choose_commit :
      Option (Commit H S VoterId)
      → Option (H × ℕ)
      → Option (Commit H S VoterId)
      → Option (Commit H S VoterId)
  choose_commit none none finalizing = none
  choose_commit none (some f) finalizing = finalizing
  choose_commit (some last) none finalizing = none
  choose_commit (some last) (some f) finalizing =
      if ltb last.target_number (f.1) then finalizing else none

module _ {ℓ} {VoterId H S T : Type ℓ} where
  -- The committer after a commit has been checked, and whether the commit is fine, which the caller
  -- only logs.
  unfoldable pub note_commit :
      RoundCommitter VoterId H S T
      → Commit H S VoterId
      → Option (H × ℕ)
      → Bool × RoundCommitter VoterId H S T
  note_commit c commit none = (false, c)
  note_commit c commit (some base) = (true, record c { last_commit = some commit })

module _ {ℓ} {VoterId H S T W O X : Type ℓ} where
  -- The rest of `commit`, on what the commit timer answers.
  unfoldable pub commit_when :
      RoundCommitter VoterId H S T
      → Poll (Answer X (Unit {0}))
      → Call X
          (Running VoterId H S T W O)
          (Poll (Option (Commit H S VoterId)) × RoundCommitter VoterId H S T)
  unfolding choose_commit
  commit_when c pending = pure (pending, c)
  commit_when c (ready (fault x)) = raise x
  commit_when c (ready (fine _)) = gets (λ s. s.round) >>= λ r. pure (
    ready (choose_commit c.last_commit r.votes.finalized r.best_finalized),
    record c { last_commit = none },
  )

module _ {ℓ} {VoterId H S T W O X : Type ℓ} ⦃oi : Ord VoterId⦄ ⦃oh : Ord H⦄ ⦃es : Eq S⦄ where
  unfoldable pub import_unless :
      Environment VoterId H T W O X
      → RoundCommitter VoterId H S T
      → Commit H S VoterId
      → Bool
      → Call X (Running VoterId H S T W O) (Bool × RoundCommitter VoterId H S T)
  unfolding note_commit
  import_unless env c commit true = pure (true, c)
  import_unless env c commit false =
      check_and_import_from_commit env commit >>= λ base. pure (note_commit c commit base)

  -- `RoundCommitter::import_commit`
  unfoldable pub import_commit :
      Environment VoterId H T W O X
      → RoundCommitter VoterId H S T
      → Commit H S VoterId
      → Call X (Running VoterId H S T W O) (Bool × RoundCommitter VoterId H S T)
  unfolding import_unless
  import_commit env c commit = gets (λ s. s.round.votes.finalized) >>= λ finalized.
      let number = elim finalized as (λ x. ℕ) [ none ↦ 0 | some f ↦ f.1 ] in
      import_unless env c commit (ltb commit.target_number number)

  -- The loop of `commit`, over the commits in the channel.
  unfoldable pub import_all :
      Environment VoterId H T W O X
      → List (Commit H S VoterId)
      → RoundCommitter VoterId H S T
      → Call X (Running VoterId H S T W O) (RoundCommitter VoterId H S T)
  unfolding import_commit
  import_all env [] c = pure c
  import_all env (commit ∷ more) c =
      import_commit env c commit >>= λ imported. import_all env more (imported.1)

  -- `RoundCommitter::commit`
  unfoldable pub commit :
      Environment VoterId H T W O X
      → Polled VoterId H S T W O X
      → RoundCommitter VoterId H S T
      → Call X
          (Running VoterId H S T W O)
          (Poll (Option (Commit H S VoterId)) × RoundCommitter VoterId H S T)
  unfolding import_all commit_when
  commit env polled c = import_all env c.import_commits (record c { import_commits = [] }) >>= λ c'.
      commit_when c' (polled.timer c'.commit_timer)

module _ {ℓ κ} {VoterId H S T W O X : Type ℓ} {A : Type κ} where
  -- A call of the round in the background.
  unfoldable pub store_inner :
      Background VoterId H S T W O
      → Reply X (Running VoterId H S T W O) A
      → Reply X (Background VoterId H S T W O) A
  store_inner b (returned a t) =
      returned a
        (record { background = record b.background { inner = t.round }; shared = t.shared })
  store_inner b (raised x t) =
      raised x (record { background = record b.background { inner = t.round }; shared = t.shared })
  store_inner b panicked = panicked

  unfoldable pub on_inner :
      Call X (Running VoterId H S T W O) A → Call X (Background VoterId H S T W O) A
  unfolding store_inner
  on_inner m b = store_inner b (m (record { round = b.background.inner; shared = b.shared }))

module _ {ℓ} {VoterId H S T W O X : Type ℓ} where
  unfoldable pub set_committer :
      Option (RoundCommitter VoterId H S T) → Call X (Background VoterId H S T W O) (Unit {0})
  set_committer c =
      modify (λ b. record b { background = record b.background { round_committer = c } })

  -- The end of `poll`.
  unfoldable pub conclude :
      Call X (Background VoterId H S T W O) (Poll (BackgroundRoundChange VoterId H S))
  unfolding is_done
  conclude b =
      returned
        (if is_done b.background
          then ready (BackgroundRoundChange.concluded b.background.inner.votes.round_number)
          else pending)
        b

  -- What `poll` does with the answer of the committer, which has been taken.
  unfoldable pub after_commit :
      Poll (Option (Commit H S VoterId)) × RoundCommitter VoterId H S T
      → Call X (Background VoterId H S T W O) (Poll (BackgroundRoundChange VoterId H S))
  unfolding set_committer conclude
  after_commit (ready none, c) = conclude
  after_commit (ready (some commit), c) = pure (ready (BackgroundRoundChange.committed commit))
  after_commit (pending, c) = set_committer (some c) >> conclude

module _ {ℓ} {VoterId H S T W O X : Type ℓ} ⦃oi : Ord VoterId⦄ ⦃oh : Ord H⦄ ⦃es : Eq S⦄ where
  unfoldable pub with_committer :
      Environment VoterId H T W O X
      → Polled VoterId H S T W O X
      → Option (RoundCommitter VoterId H S T)
      → Call X (Background VoterId H S T W O) (Poll (BackgroundRoundChange VoterId H S))
  unfolding commit on_inner after_commit conclude
  with_committer env polled none = conclude
  with_committer env polled (some c) = on_inner (commit env polled c) >>= after_commit

  -- `BackgroundRound::poll`
  unfoldable pub poll :
      Environment VoterId H T W O X
      → Polled VoterId H S T W O X
      → Call X (Background VoterId H S T W O) (Poll (BackgroundRoundChange VoterId H S))
  unfolding on_inner set_committer with_committer VotingRound.poll
  poll env polled =
      on_inner (VotingRound.poll env polled) >> gets (λ b. b.background.round_committer) >>= λ c.
      set_committer none >> with_committer env polled c
