-- ===== src/Messages/Compact.antt =====
-- The conversions of src/lib.rs between a commit and its compact form.
use finality_grandpa.Base.{◌≡◌, refl, ap, List, [], ◌∷◌, map, length, arith}
use finality_grandpa.Messages.{Commit, CompactCommit, SignedPrecommit, Precommit}

module _ {ℓ κ μ} {H : Type ℓ} {S : Type κ} {VoterId : Type μ} where
  -- `.zip(auth_data).map(..)`: the shorter list ends it.
  unfoldable pub zip_precommits :
      List (Precommit H) → List (S × VoterId) → List (SignedPrecommit H S VoterId)
  zip_precommits [] auth = []
  zip_precommits (p ∷ ps) [] = []
  zip_precommits (p ∷ ps) ((signature, id) ∷ auth) =
      record { precommit = p; signature = signature; id = id } ∷ zip_precommits ps auth

  -- `From<CompactCommit> for Commit`
  unfoldable pub of_compact : CompactCommit H S VoterId → Commit H S VoterId
  unfolding zip_precommits
  of_compact c = record {
    target_hash = c.target_hash;
    target_number = c.target_number;
    precommits = zip_precommits c.precommits c.auth_data;
  }

  -- `From<Commit> for CompactCommit`
  unfoldable pub to_compact : Commit H S VoterId → CompactCommit H S VoterId
  to_compact c = record {
    target_hash = c.target_hash;
    target_number = c.target_number;
    precommits = map (λ s. s.precommit) c.precommits;
    auth_data = map (λ s. (s.signature, s.id)) c.precommits;
  }

  zip_precommits-map :
      (ps : List (SignedPrecommit H S VoterId))
      → zip_precommits (map (λ s. s.precommit) ps) (map (λ s. (s.signature, s.id)) ps) ≡ ps
  unfolding zip_precommits
  zip_precommits-map [] = refl
  zip_precommits-map (p ∷ ps) = ap (◌∷◌ p) (zip_precommits-map ps)

  -- The compact form of a commit expands to the commit.
  pub of_compact-to_compact : (c : Commit H S VoterId) → of_compact (to_compact c) ≡ c
  unfolding of_compact to_compact
  of_compact-to_compact c = rw zip_precommits-map

  map-zip_precommits :
      (ps : List (Precommit H)) (auth : List (S × VoterId))
      → length ps ≡ length auth
      → map (λ s. s.precommit) (zip_precommits ps auth) ≡ ps
  unfolding zip_precommits
  map-zip_precommits [] auth e = refl
  map-zip_precommits (p ∷ ps) [] e = absurd (omega arith)
  map-zip_precommits (p ∷ ps) (a ∷ auth) e = ap (◌∷◌ p) (map-zip_precommits ps auth (omega arith))

  auth-zip_precommits :
      (ps : List (Precommit H)) (auth : List (S × VoterId))
      → length ps ≡ length auth
      → map (λ s. (s.signature, s.id)) (zip_precommits ps auth) ≡ auth
  unfolding zip_precommits
  auth-zip_precommits [] [] e = refl
  auth-zip_precommits [] (a ∷ auth) e = absurd (omega arith)
  auth-zip_precommits (p ∷ ps) [] e = absurd (omega arith)
  auth-zip_precommits (p ∷ ps) (a ∷ auth) e = ap (◌∷◌ a) (auth-zip_precommits ps auth (omega arith))

  -- A compact commit with as many signatures as precommits is the compact form of its expansion.
  pub to_compact-of_compact :
      (c : CompactCommit H S VoterId)
      → length c.precommits ≡ length c.auth_data
      → to_compact (of_compact c) ≡ c
  unfolding of_compact to_compact
  to_compact-of_compact c e = rw (
    map-zip_precommits c.precommits c.auth_data e,
    auth-zip_precommits c.precommits c.auth_data e,
  )
