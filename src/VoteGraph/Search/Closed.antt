-- ===== src/VoteGraph/Search/Closed.antt =====
-- What the search for containing nodes visits: where a visited node leads to is visited too.
use mathlib.Core.List.{Memᴰ}
use finality_grandpa.Base.{
  ℕ, zero, suc, ◌≡◌, ◌⊎◌, inl, inr, refl, sym, ◌∙◌, subst, arith, true, false, Option, none, some,
  List, [], ◌∷◌, ◌++◌, length, last, Ord, eqb, eqb_iff, Outcome, ok, err, panic, Bool-cases,
  Option-cases, Ensures, Ensures->>=,
}
use finality_grandpa.Base.BTreeMap
use finality_grandpa.Base.BTreeMap.{BTreeMap}
use finality_grandpa.Base.BTreeSet
use finality_grandpa.Base.BTreeSet.{BTreeSet, contains-insert}
use finality_grandpa.VoteGraph.{Entry, in_direct_ancestry, ancestor_node}
use finality_grandpa.VoteGraph.Search.{walk, walk_heads}

pub none≢some {ℓ} : {A : Type ℓ} {x : A} → none ≡ some x → ⊥
none≢some e = cc

false≢true : some false ≡ some true → ⊥
false≢true e = cc

module _ {ℓ} {A : Type ℓ} where
  Mem-left : (x : A) (xs ys : List A) → Memᴰ x xs → Memᴰ x (xs ++ ys)
  Mem-left x _ ys (Memᴰ.head e) = Memᴰ.head e
  Mem-left x _ ys (Memᴰ.tail h) = Memᴰ.tail (Mem-left x _ ys h)

  Mem-end : (x : A) (xs : List A) → Memᴰ x (xs ++ x ∷ [])
  Mem-end x [] = Memᴰ.head refl
  Mem-end x (y ∷ ys) = Memᴰ.tail (Mem-end x ys)

module _ {ℓ κ} {H : Type ℓ} {V : Type κ} ⦃o : Ord H⦄ (m : BTreeMap H (Entry H V)) (hash : H)
    (number : ℕ) where
  abbrev pub Seen : BTreeSet H → H → Type 0
  Seen visited v = BTreeSet.contains visited v ≡ true

  -- A node that has been visited or is none.
  abbrev pub Covered : BTreeSet H → H → Type (ℓ ⊔ κ)
  Covered visited p = (BTreeMap.get m p ≡ none) ⊎ ((_ : Unit {ℓ ⊔ κ}) × Seen visited p)

  -- All visited nodes that contain the block are among the keys, and the nodes to which visited ones
  -- lead are covered, or are the next one, if there is one.
  pub record IsClosed (keys : List H) (visited : BTreeSet H) (next : Option H) : Type (ℓ ⊔ κ) where
    pub found :
        (v : H) (e : Entry H V)
        → Seen visited v
        → BTreeMap.get m v ≡ some e
        → in_direct_ancestry e hash number ≡ some true
        → Memᴰ v keys
    pub closed :
        (v p : H) (e : Entry H V)
        → Seen visited v
        → BTreeMap.get m v ≡ some e
        → in_direct_ancestry e hash number ≡ none
        → last e.ancestors ≡ some p
        → Covered visited p ⊎ ((_ : Unit {ℓ ⊔ κ}) × (some p ≡ next))

  Seen-there :
      (visited : BTreeSet H) (k v : H) → Seen visited v → Seen (BTreeSet.insert visited k) v
  Seen-there visited k v seen = ground (arith, seen, contains-insert visited k v)

  Seen-insert : (visited : BTreeSet H) (k : H) → Seen (BTreeSet.insert visited k) k
  Seen-insert visited k = ground (arith, contains-insert visited k k, o.cmp_eq k k)

  Seen-or :
      (visited : BTreeSet H) (k v : H)
      → Seen (BTreeSet.insert visited k) v
      → (v ≡ k) ⊎ ((_ : Unit {ℓ}) × Seen visited v)
  Seen-or visited k v seen = elim (Bool-cases (eqb v k)) [
    | inl same ↦ inl ((eqb_iff v k).0 same)
    | inr other ↦ inr (tt, ground (arith, seen, other, contains-insert visited k v))
  ]

  Covered-there :
      (visited : BTreeSet H) (k p : H) → Covered visited p → Covered (BTreeSet.insert visited k) p
  Covered-there visited k p (inl missing) = inl missing
  Covered-there visited k p (inr (_, seen)) = inr (tt, Seen-there visited k p seen)

  Covered-insert : (visited : BTreeSet H) (k : H) → Covered (BTreeSet.insert visited k) k
  Covered-insert visited k = inr (tt, Seen-insert visited k)

  same_entry :
      (v k : H) (e e' : Entry H V)
      → v ≡ k
      → BTreeMap.get m v ≡ some e'
      → BTreeMap.get m k ≡ some e
      → e' ≡ e
  same_entry v k e e' q f g = some_eq (sym (subst (λ x. BTreeMap.get m x ≡ some e') q f) ∙ g)
    where
      some_eq : some e' ≡ some e → e' ≡ e
      some_eq r = cc

  visit :
      (keys keys' : List H) (visited : BTreeSet H) (cur : H) (next : Option H) (e : Entry H V)
      → BTreeMap.get m cur ≡ some e
      → IsClosed keys visited (some cur)
      → ((v : H) → Memᴰ v keys → Memᴰ v keys')
      → (in_direct_ancestry e hash number ≡ some true → Memᴰ cur keys')
      → ((p : H)
          → in_direct_ancestry e hash number ≡ none
          → last e.ancestors ≡ some p
          → some p ≡ next)
      → IsClosed keys' (BTreeSet.insert visited cur) next
  visit keys keys' visited cur next e at_cur inv more hit further = record {
    found = λ v e' seen got direct. elim (Seen-or visited cur v seen) [
      | inl q ↦
          subst (λ x. Memᴰ x keys') (sym q)
            (hit (
              subst (λ x. in_direct_ancestry x hash number ≡ some true)
                (same_entry v cur e e' q got at_cur) direct))
      | inr (_, old) ↦ more v (inv.found v e' old got direct)
    ];
    closed = λ v p e' seen got direct leads. elim (Seen-or visited cur v seen) [
      | inl q ↦
          let same = same_entry v cur e e' q got at_cur in
          inr (
            tt,
            further p (subst (λ x. in_direct_ancestry x hash number ≡ none) same direct)
                (subst (λ x. last x.ancestors ≡ some p) same leads),
          )
      | inr (_, old) ↦ elim (inv.closed v p e' old got direct leads) [
        | inl covered ↦ inl (Covered-there visited cur p covered)
        | inr (_, q) ↦ inl (
            subst (Covered (BTreeSet.insert visited cur)) (some_eq p q)
              (Covered-insert visited cur))
      ]
    ];
  }
    where
      some_eq : (p : H) → some p ≡ some cur → cur ≡ p
      some_eq p q = cc

  settle :
      (keys : List H) (visited : BTreeSet H) (cur : H)
      → IsClosed keys visited (some cur)
      → Covered visited cur
      → IsClosed keys visited none
  settle keys visited cur inv covered = record {
    found = inv.found;
    closed = λ v p e seen got direct leads. elim (inv.closed v p e seen got direct leads) [
      | inl there ↦ inl there
      | inr (_, q) ↦ inl (subst (Covered visited) (some_eq p q) covered)
    ];
  }
    where
      some_eq : (p : H) → some p ≡ some cur → cur ≡ p
      some_eq p q = cc

  start :
      (keys : List H) (visited : BTreeSet H) (cur : H)
      → IsClosed keys visited none
      → IsClosed keys visited (some cur)
  start keys visited cur inv = record {
    found = inv.found;
    closed = λ v p e seen got direct leads. elim (inv.closed v p e seen got direct leads) [
      | inl there ↦ inl there
      | inr (_, q) ↦ absurd (not_next p q)
    ];
  }
    where
      not_next : (p : H) → some p ≡ none → ⊥
      not_next p q = cc

  -- What a walk from a node leaves.
  abbrev Walked : BTreeSet H → H → List H × BTreeSet H → Type (ℓ ⊔ κ)
  Walked visited cur r =
      IsClosed r.0 r.1 none × Covered r.1 cur × ((v : H) → Seen visited v → Seen r.1 v)

  further :
      (visited : BTreeSet H) (cur prev : H) (r : Outcome (List H × BTreeSet H))
      → Ensures (Walked (BTreeSet.insert visited cur) prev) r
      → Ensures (Walked visited cur) r
  further visited cur prev (ok r) (inv, _, more) = (
    inv,
    inr (tt, more cur (Seen-insert visited cur)),
    λ v seen. more v (Seen-there visited cur v seen),
  )
  further visited cur prev (err e) h = tt
  further visited cur prev panic h = tt

  walk-IsClosed :
      (fuel : ℕ) (cur : H) (keys : List H) (visited : BTreeSet H)
      → IsClosed keys visited (some cur)
      → Ensures (Walked visited cur) (walk fuel m hash number cur keys visited)
  unfolding walk ancestor_node
  walk-IsClosed zero cur keys visited inv = tt
  walk-IsClosed (suc fuel) cur keys visited inv = elim (Option-cases (BTreeMap.get m cur)) [
    | inl missing ↦
        rw (missing, walk) (settle keys visited cur inv (inl missing), inl missing, λ v seen. seen)
    | inr (e, got) ↦ elim (Bool-cases (BTreeSet.contains visited cur)) [
      | inl old ↦
          rw (got, walk)
            (rw (old, walk)
              (settle keys visited cur inv (inr (tt, old)), inr (tt, old), λ v seen. seen))
      | inr new ↦ elim (Option-cases (in_direct_ancestry e hash number)) [
        | inl open_ended ↦ elim (Option-cases (last e.ancestors)) [
          | inl first ↦
              rw (got, new, open_ended, first, walk)
                (
                  visit keys keys visited cur none e got inv (λ v h. h)
                      (λ q. absurd (none≢some (sym open_ended ∙ q)))
                      (λ p _ leads. absurd (none≢some (sym first ∙ leads))),
                  Covered-insert visited cur,
                  Seen-there visited cur,
                )
          | inr (prev, leads) ↦
              rw (got, new, open_ended, leads, walk)
                (further visited cur prev _ (
                  walk-IsClosed fuel prev keys (BTreeSet.insert visited cur) (
                    visit keys keys visited cur (some prev) e got inv (λ v h. h)
                      (λ q. absurd (none≢some (sym open_ended ∙ q)))
                      (λ p _ leads'. sym leads' ∙ leads))))
        ]
        | inr (true, hit) ↦
            rw (got, new, hit, walk)
              (
                visit keys (keys ++ cur ∷ []) visited cur none e got inv
                    (λ v h. Mem-left v keys (cur ∷ []) h) (λ _. Mem-end cur keys)
                    (λ p q _. absurd (none≢some (sym q ∙ hit))),
                Covered-insert visited cur,
                Seen-there visited cur,
              )
        | inr (false, miss) ↦
            rw (got, new, miss, walk)
              (
                visit keys keys visited cur none e got inv (λ v h. h)
                    (λ q. absurd (false≢true (sym miss ∙ q)))
                    (λ p q _. absurd (none≢some (sym q ∙ miss))),
                Covered-insert visited cur,
                Seen-there visited cur,
              )
      ]
    ]
  ]

  -- What the walks from the heads leave.
  abbrev pub WalkedAll : List H → BTreeSet H → List H × BTreeSet H → Type (ℓ ⊔ κ)
  WalkedAll heads visited r =
      IsClosed r.0 r.1 none
      × ((h : H) → Memᴰ h heads → Covered r.1 h)
      × ((v : H) → Seen visited v → Seen r.1 v)

  Covered-more :
      (visited visited' : BTreeSet H) (p : H)
      → ((v : H) → Seen visited v → Seen visited' v)
      → Covered visited p
      → Covered visited' p
  Covered-more visited visited' p more (inl missing) = inl missing
  Covered-more visited visited' p more (inr (_, seen)) = inr (tt, more p seen)

  pub walk_heads-IsClosed :
      (heads : List H) (keys : List H) (visited : BTreeSet H)
      → IsClosed keys visited none
      → Ensures (WalkedAll heads visited) (walk_heads heads m hash number keys visited)
  unfolding walk_heads
  walk_heads-IsClosed [] keys visited inv = (inv, λ h there. no_member h there, λ v seen. seen)
    where
      no_member : (h : H) → Memᴰ h [] → Covered visited h
      no_member h there = elim there [ ]
  walk_heads-IsClosed (cur ∷ heads) keys visited inv =
      Ensures->>= (Walked visited cur) (WalkedAll (cur ∷ heads) visited)
        (walk (suc (length m)) m hash number cur keys visited) _
        (walk-IsClosed (suc (length m)) cur keys visited (start keys visited cur inv))
        (λ r (inv', covered, more).
          after_head r.1 covered more _ (walk_heads-IsClosed heads r.0 r.1 inv'))
    where
      member :
          (visited'' : BTreeSet H)
          → Covered visited'' cur
          → ((h : H) → Memᴰ h heads → Covered visited'' h)
          → (h : H) → Memᴰ h (cur ∷ heads)
          → Covered visited'' h
      member visited'' first rest h (Memᴰ.head q) = subst (Covered visited'') (sym q) first
      member visited'' first rest h (Memᴰ.tail there) = rest h there

      after_head :
          (visited' : BTreeSet H)
          → Covered visited' cur
          → ((v : H) → Seen visited v → Seen visited' v)
          → (r : Outcome (List H × BTreeSet H)) → Ensures (WalkedAll heads visited') r
          → Ensures (WalkedAll (cur ∷ heads) visited) r
      after_head visited' covered more (ok r) (inv', rest, more') = (
        inv',
        member r.1 (Covered-more visited' r.1 cur more' covered) rest,
        λ v seen. more' v (more v seen),
      )
      after_head visited' covered more (err e) h = tt
      after_head visited' covered more panic h = tt
