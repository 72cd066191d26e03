-- ===== src/Messages.antt =====
-- src/lib.rs: the votes, messages and commits of the protocol, and the votes seen in a round.
pub mod Compact
use finality_grandpa.Base.{
  ℕ, Bool, true, ◌&&◌, Option, none, some, List, [], ◌∷◌, ◌++◌, length, Ord, eqb, ◌==◌, ◌≡◌, ◌↔◌,
  arith, Eq,
}

pub record Prevote {ℓ} (H : Type ℓ) : Type ℓ where
  pub target_hash : H
  pub target_number : ℕ

pub record Precommit {ℓ} (H : Type ℓ) : Type ℓ where
  pub target_hash : H
  pub target_number : ℕ

pub record PrimaryPropose {ℓ} (H : Type ℓ) : Type ℓ where
  pub target_hash : H
  pub target_number : ℕ

-- The derived `PartialEq` of the votes.
module _ {ℓ} {H : Type ℓ} ⦃o : Ord H⦄ where
  abbrev pub prevote_beq : Prevote H → Prevote H → Bool
  prevote_beq a b = eqb a.target_hash b.target_hash && a.target_number == b.target_number

  abbrev pub precommit_beq : Precommit H → Precommit H → Bool
  precommit_beq a b = eqb a.target_hash b.target_hash && a.target_number == b.target_number

  pub prevote_beq_iff : (a b : Prevote H) → (prevote_beq a b ≡ true) ↔ (a ≡ b)
  prevote_beq_iff a b = ground (arith, o.cmp_eq a.target_hash b.target_hash)

  pub precommit_beq_iff : (a b : Precommit H) → (precommit_beq a b ≡ true) ↔ (a ≡ b)
  precommit_beq_iff a b = ground (arith, o.cmp_eq a.target_hash b.target_hash)

  instance abbrev pub prevote_eq : Eq (Prevote H)
  prevote_eq = record { beq = prevote_beq; beq_iff = prevote_beq_iff }

  instance abbrev pub precommit_eq : Eq (Precommit H)
  precommit_eq = record { beq = precommit_beq; beq_iff = precommit_beq_iff }

pub record Equivocation {ℓ κ μ} (VoterId : Type ℓ) (V : Type κ) (S : Type μ)
    : Type (ℓ ⊔ κ ⊔ μ) where
  pub round_number : ℕ
  pub identity : VoterId
  pub first : V × S
  pub second : V × S

pub data Message {ℓ} (H : Type ℓ) : Type ℓ where
  prevote : Prevote H → Message H
  precommit : Precommit H → Message H
  primary_propose : PrimaryPropose H → Message H

-- `Message::target`
unfoldable pub target {ℓ} : {H : Type ℓ} → Message H → H × ℕ
target (Message.prevote v) = (v.target_hash, v.target_number)
target (Message.precommit v) = (v.target_hash, v.target_number)
target (Message.primary_propose v) = (v.target_hash, v.target_number)

pub record SignedMessage {ℓ κ μ} (H : Type ℓ) (S : Type κ) (VoterId : Type μ)
    : Type (ℓ ⊔ κ ⊔ μ) where
  pub message : Message H
  pub signature : S
  pub id : VoterId

pub record SignedPrevote {ℓ κ μ} (H : Type ℓ) (S : Type κ) (VoterId : Type μ)
    : Type (ℓ ⊔ κ ⊔ μ) where
  pub prevote : Prevote H
  pub signature : S
  pub id : VoterId

pub record SignedPrecommit {ℓ κ μ} (H : Type ℓ) (S : Type κ) (VoterId : Type μ)
    : Type (ℓ ⊔ κ ⊔ μ) where
  pub precommit : Precommit H
  pub signature : S
  pub id : VoterId

pub record Commit {ℓ κ μ} (H : Type ℓ) (S : Type κ) (VoterId : Type μ) : Type (ℓ ⊔ κ ⊔ μ) where
  pub target_hash : H
  pub target_number : ℕ
  pub precommits : List (SignedPrecommit H S VoterId)

pub record CompactCommit {ℓ κ μ} (H : Type ℓ) (S : Type κ) (VoterId : Type μ)
    : Type (ℓ ⊔ κ ⊔ μ) where
  pub target_hash : H
  pub target_number : ℕ
  pub precommits : List (Precommit H)
  pub auth_data : List (S × VoterId)

pub record CatchUp {ℓ κ μ} (H : Type ℓ) (S : Type κ) (VoterId : Type μ) : Type (ℓ ⊔ κ ⊔ μ) where
  pub round_number : ℕ
  pub prevotes : List (SignedPrevote H S VoterId)
  pub precommits : List (SignedPrecommit H S VoterId)
  pub base_hash : H
  pub base_number : ℕ

-- `HistoricalVotes`. The indices are lengths of `seen`, far below 2^64.
pub record HistoricalVotes {ℓ κ μ} (H : Type ℓ) (S : Type κ) (VoterId : Type μ)
    : Type (ℓ ⊔ κ ⊔ μ) where
  pub seen : List (SignedMessage H S VoterId)
  pub prevote_idx : Option ℕ
  pub precommit_idx : Option ℕ

module _ {ℓ κ μ} {H : Type ℓ} {S : Type κ} {VoterId : Type μ} where
  -- `HistoricalVotes::new`
  abbrev pub no_historical_votes : HistoricalVotes H S VoterId
  no_historical_votes = record { seen = []; prevote_idx = none; precommit_idx = none }

  -- `HistoricalVotes::push_vote`
  unfoldable pub push_vote :
      HistoricalVotes H S VoterId → SignedMessage H S VoterId → HistoricalVotes H S VoterId
  push_vote v msg = record v { seen = v.seen ++ msg ∷ [] }

  -- `HistoricalVotes::set_prevoted_idx`
  unfoldable pub set_prevoted_idx : HistoricalVotes H S VoterId → HistoricalVotes H S VoterId
  set_prevoted_idx v = record v { prevote_idx = some (length v.seen) }

  -- `HistoricalVotes::set_precommitted_idx`
  unfoldable pub set_precommitted_idx : HistoricalVotes H S VoterId → HistoricalVotes H S VoterId
  set_precommitted_idx v = record v { precommit_idx = some (length v.seen) }
