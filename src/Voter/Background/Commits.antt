-- ===== src/Voter/Background/Commits.antt =====
-- When a background round sends its commit, and when it is done.
use finality_grandpa.Base.{
  ℕ, ◌≤◌, ◌<◌, Bool, true, false, Option, none, some, ◌≡◌, ◌⊎◌, inl, inr, refl, ◌∙◌, arith, Ord, Eq,
  [], Bool-cases, Option-cases, ltb, ltb→lt, if◌then◌else◌,
}
use finality_grandpa.Messages.{Commit}
use finality_grandpa.Voter.Call.{
  Poll, ready, pending, Answer, fine, fault, Reply, returned, raised, panicked, Answers,
  Answers-all, Answers->>=,
}
use finality_grandpa.Voter.Environment.{Environment, Polled}
use finality_grandpa.Voter.VotingRound.{VotingRound, Running}
use finality_grandpa.Voter.VotingRound.Notify
use finality_grandpa.Voter.Background.{
  RoundCommitter, BackgroundRoundChange, Background, is_done, choose_commit, commit_when,
  import_all, commit, store_inner, on_inner, set_committer, conclude, after_commit, with_committer,
  poll,
}

ready_some {ℓ} : {A : Type ℓ} (o : Option A) (a : A) → ready o ≡ ready (some a) → o ≡ some a
ready_some o a e = cc

module _ {ℓ} {VoterId H S : Type ℓ} where
  -- The last commit seen, if any, is for a block below the number.
  abbrev pub IsBelow : Option (Commit H S VoterId) → ℕ → Type 0
  IsBelow none n = Unit
  IsBelow (some last) n = last.target_number < n

  -- The committer sends the round's finalizing commit, and that only when the round has finalized a
  -- block and the last commit seen, if any, is for a lower block.
  pub choose_commit_lem :
      (last finalizing : Option (Commit H S VoterId)) (finalized : Option (H × ℕ))
      (c : Commit H S VoterId)
      → choose_commit last finalized finalizing ≡ some c
      → (finalizing ≡ some c) × ((f : H × ℕ) × (finalized ≡ some f) × IsBelow last (f.1))
  unfolding choose_commit
  choose_commit_lem none finalizing none c e = ground arith
  choose_commit_lem none finalizing (some f) c e = (e, (f, refl, tt))
  choose_commit_lem (some l) finalizing none c e = ground arith
  choose_commit_lem (some l) finalizing (some f) c e =
      let (below, same) = go (Bool-cases (ltb l.target_number (f.1))) in (same, (f, refl, below))
    where
      go :
          (ltb l.target_number (f.1) ≡ true) ⊎ (ltb l.target_number (f.1) ≡ false)
          → (l.target_number < f.1) × (finalizing ≡ some c)
      go (inl t) = (ltb→lt _ _ t, rw t at e)
      go (inr t) = ground (arith, e, t)

module _ {ℓ} {VoterId H S T W O : Type ℓ} where
  -- What a poll says of the state that it leaves.
  abbrev pub Tells :
      Poll (BackgroundRoundChange VoterId H S) → Background VoterId H S T W O → Type ℓ
  Tells pending b =
      ((c : RoundCommitter VoterId H S T) × (b.background.round_committer ≡ some c))
      ⊎ ((e : H × ℕ) × (b.background.inner.votes.estimate ≡ some e)
          × (b.background.finalized_number < e.1))
  Tells (ready (BackgroundRoundChange.concluded n)) b =
      (n ≡ b.background.inner.votes.round_number)
      × (b.background.round_committer ≡ none)
      × ((b.background.inner.votes.estimate ≡ none)
          ⊎ ((e : H × ℕ) × (b.background.inner.votes.estimate ≡ some e)
              × (e.1 ≤ b.background.finalized_number)))
  Tells (ready (BackgroundRoundChange.committed c)) b =
      (b.background.round_committer ≡ none)
      × (b.background.inner.best_finalized ≡ some c)
      × ((f : H × ℕ) × (b.background.inner.votes.finalized ≡ some f))

  is_done-Tells :
      (b : Background VoterId H S T W O) (done : Bool)
      → is_done b.background ≡ done
      → Tells
          (if done
            then ready (BackgroundRoundChange.concluded b.background.inner.votes.round_number)
            else pending)
          b
  unfolding is_done
  is_done-Tells b true e = elim (Option-cases b.background.round_committer) [
    | inr (c, e') ↦ ground (arith, e, e')
    | inl e' ↦ elim (Option-cases b.background.inner.votes.estimate) [
      | inl e'' ↦ (refl, e', inl e'')
      | inr (estimate, e'') ↦ (refl, e', inr (estimate, e'', ground (arith, e, e', e'')))
    ]
  ]
  is_done-Tells b false e = elim (Option-cases b.background.round_committer) [
    | inr (c, e') ↦ inl (c, e')
    | inl e' ↦ elim (Option-cases b.background.inner.votes.estimate) [
      | inl e'' ↦ ground (arith, e, e', e'')
      | inr (estimate, e'') ↦ inr (estimate, e'', ground (arith, e, e', e''))
    ]
  ]

  -- The commit that a committer answers is one that the round can show.
  abbrev IsShown :
      Poll (Option (Commit H S VoterId)) × RoundCommitter VoterId H S T
      → VotingRound VoterId H S T W O
      → Type ℓ
  IsShown p r =
      (c : Commit H S VoterId)
      → p.0 ≡ ready (some c)
      → (r.best_finalized ≡ some c) × ((f : H × ℕ) × (r.votes.finalized ≡ some f))

module _ {ℓ} {VoterId H S T W O X : Type ℓ} where
  commit_when-IsShown :
      (c : RoundCommitter VoterId H S T) (answered : Poll (Answer X (Unit {0})))
      (s : Running VoterId H S T W O)
      → Answers (λ p t. IsShown p t.round) (commit_when c answered s)
  unfolding commit_when
  commit_when-IsShown c pending s = λ d e. cc
  commit_when-IsShown c (ready (fault x)) s = tt
  commit_when-IsShown c (ready (fine _)) s = λ d e.
      let (shown, (f, e', _)) =
        choose_commit_lem c.last_commit s.round.best_finalized s.round.votes.finalized d
          (ready_some _ d e) in
      (shown, (f, e'))

module _ {ℓ} {VoterId H S T W O : Type ℓ} (X : Type ℓ) where
  conclude-Tells : (b : Background VoterId H S T W O) → Answers Tells (conclude {X = X} b)
  unfolding conclude
  conclude-Tells b = is_done-Tells b (is_done b.background) refl

  after_commit-Tells :
      (p : Poll (Option (Commit H S VoterId)) × RoundCommitter VoterId H S T)
      (b : Background VoterId H S T W O)
      → b.background.round_committer ≡ none
      → IsShown p b.background.inner
      → Answers Tells (after_commit {X = X} p b)
  unfolding after_commit set_committer
  after_commit-Tells (ready none, c) b e shown = conclude-Tells b
  after_commit-Tells (ready (some d), c) b e shown = (e, (shown d refl).0, (shown d refl).1)
  after_commit-Tells (pending, c) b e shown =
      conclude-Tells (record b { background = record b.background { round_committer = some c } })

module _ {ℓ κ ν} {VoterId H S T W O X : Type ℓ} {A : Type κ}
    (Q : A → VotingRound VoterId H S T W O → Type ν) where
  store_inner-Answers :
      (b : Background VoterId H S T W O) (r : Reply X (Running VoterId H S T W O) A)
      → Answers (λ a t. Q a t.round) r
      → Answers
          (λ a b'.
            (b'.background.round_committer ≡ b.background.round_committer)
            × Q a b'.background.inner)
          (store_inner b r)
  unfolding store_inner
  store_inner-Answers b (returned a t) h = (refl, h)
  store_inner-Answers b (raised x t) h = tt
  store_inner-Answers b panicked h = tt

module _ {ℓ} {VoterId H S T W O X : Type ℓ} ⦃oi : Ord VoterId⦄ ⦃oh : Ord H⦄ ⦃es : Eq S⦄
    (env : Environment VoterId H T W O X) (polled : Polled VoterId H S T W O X) where
  commit-IsShown :
      (c : RoundCommitter VoterId H S T) (s : Running VoterId H S T W O)
      → Answers (λ p t. IsShown p t.round) (commit env polled c s)
  unfolding commit
  commit-IsShown c s =
      Answers->>= (λ _ _. Unit {0}) (λ p t. IsShown p t.round)
        (import_all env c.import_commits (record c { import_commits = [] })) _ s
        (Answers-all _ (λ _ _. tt))
        (λ c' t _. commit_when-IsShown c' (polled.timer c'.commit_timer) t)

  with_committer-Tells :
      (c : Option (RoundCommitter VoterId H S T)) (b : Background VoterId H S T W O)
      → b.background.round_committer ≡ none
      → Answers Tells (with_committer env polled c b)
  unfolding with_committer on_inner
  with_committer-Tells none b e = conclude-Tells X b
  with_committer-Tells (some c) b e =
      Answers->>= _ Tells (on_inner (commit env polled c)) after_commit b
        (store_inner-Answers IsShown b _
          (commit-IsShown c (record { round = b.background.inner; shared = b.shared })))
        (λ p b' (same, shown). after_commit-Tells X p b' (same ∙ e) shown)

  -- When a poll of a background round answers, a round reported as concluded has sent its commit or
  -- decided against one, and has no estimate above the finalized number; a commit sent is the
  -- finalizing commit of a round that has finalized a block, and the last of the round; and a round
  -- that is still pending has a commit to decide on or an estimate above the finalized number.
  pub poll-Tells : (b : Background VoterId H S T W O) → Answers Tells (poll env polled b)
  unfolding poll on_inner set_committer
  poll-Tells b =
      Answers->>= (λ _ _. Unit {0}) Tells (on_inner (Notify.poll env polled)) _ b
        (Answers-all _ (λ _ _. tt))
        (λ _ b' _.
          with_committer-Tells b'.background.round_committer
            (record b' { background = record b'.background { round_committer = none } }) refl)
