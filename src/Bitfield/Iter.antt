-- ===== src/Bitfield/Iter.antt =====
-- What the iterators over the set bits yield.
use mathlib.Core.List.{map-append}
use native.Mathlib.Nat.{zero-add}
use finality_grandpa.Base.{
  ℕ, zero, suc, ◌+◌, ◌-◌, ◌*◌, ◌/◌, ◌%◌, ◌≤◌, ◌<◌, ◌≡◌, refl, ap, ◌∙◌, sym, List, [], ◌∷◌, ◌++◌,
  length, get_or, keep, map, arith, ◌==◌, Bool-cases, inl, inr, if◌then◌else◌, ==_iff, keep-append,
}
use finality_grandpa.Bitfield.{
  Bitfield, Bit1, test_word, test_bit, word_bits, iter1s_from, iter1s_even, iter1s_odd,
}
use finality_grandpa.Bitfield.Words.{test_word-zero}
use finality_grandpa.Bitfield.Write.{test_bit-get_or}

-- `n` positions of one parity: `s + 2 * j`, `s + 2 * (j + 1)`, and so on.
unfoldable pub every_other : ℕ → ℕ → ℕ → List ℕ
every_other s j zero = []
every_other s j (suc n) = (s + 2 * j) ∷ every_other s (suc j) n

abbrev pub positions : List Bit1 → List ℕ
positions = map (λ bit. bit.position)

every_other-add :
    (s j m n k : ℕ) → j + m ≡ k → every_other s j (m + n) ≡ every_other s j m ++ every_other s k n
unfolding every_other
every_other-add s j zero n k e =
    let e' : j ≡ k = omega arith in let e'' : zero + n ≡ n = omega arith in rw (e', e'')
every_other-add s j (suc m) n k e =
    let e' : suc m + n ≡ suc (m + n) = omega arith in
    rw e' (ap (◌∷◌ (s + 2 * j)) (every_other-add s (suc j) m n k (omega arith)))

module _ (b : Bitfield) (i s : ℕ) (h : s ≤ 1) where
  test_bit_at :
      (j : ℕ)
      → j < 32
      → test_bit b (s + 2 * (32 * i + j)) ≡ test_word (get_or b.bits i 0) (s + j * 2)
  test_bit_at j h' =
      let word : (s + 2 * (32 * i + j)) / 64 ≡ i = omega arith in
      let bit : (s + 2 * (32 * i + j)) % 64 ≡ s + j * 2 = omega arith in
      test_bit-get_or b (s + 2 * (32 * i + j)) ∙ rw (word, bit) refl

  -- One word yields its set bits of the parity of `s`, in ascending order.
  word_bits_lem :
      (n j : ℕ)
      → j + n ≤ 32
      → positions (word_bits i (get_or b.bits i 0) s 1 n j)
        ≡ keep (test_bit b) (every_other s (32 * i + j) n)
  unfolding word_bits every_other
  word_bits_lem zero j fits = refl
  word_bits_lem (suc n) j fits =
      let next : 32 * i + suc j ≡ suc (32 * i + j) = omega arith in
      let same : i * 64 + (s + j * 2) ≡ s + 2 * (32 * i + j) = omega arith in
      let rest = rw next at (word_bits_lem n (suc j) (omega arith)) in
      elim (Bool-cases (test_word (get_or b.bits i 0) (s + j * 2))) [
        | inl hit ↦
            rw (test_bit_at j (omega arith), hit, same) (ap (◌∷◌ (s + 2 * (32 * i + j))) rest)
        | inr miss ↦ rw (test_bit_at j (omega arith), miss) rest
      ]

  -- A word that is 0 has none.
  zero_word :
      (n j : ℕ)
      → j + n ≤ 32
      → get_or b.bits i 0 ≡ 0
      → keep (test_bit b) (every_other s (32 * i + j) n) ≡ []
  unfolding every_other
  zero_word zero j fits z = refl
  zero_word (suc n) j fits z =
      let next : 32 * i + suc j ≡ suc (32 * i + j) = omega arith in
      let rest = rw next at (zero_word n (suc j) (omega arith) z) in
      rw (test_bit_at j (omega arith), z, test_word-zero) rest

  -- The shortcut for the word 0 loses nothing.
  word_lem :
      (n w : ℕ)
      → n ≤ 32
      → get_or b.bits i 0 ≡ w
      → positions (word_bits i w s 1 (if w == 0 then 0 else n) 0)
        ≡ keep (test_bit b) (every_other s (32 * i) n)
  unfolding word_bits
  word_lem n w fits e =
      let start : 32 * i + 0 ≡ 32 * i = omega arith in
      elim (Bool-cases (w == 0)) [
        | inl z ↦ rw z (sym (rw start at (zero_word n 0 (omega arith) (e ∙ (==_iff w 0).0 z))))
        | inr n' ↦ rw n' (rw e at (rw start at (word_bits_lem n 0 (omega arith))))
      ]

module _ (b : Bitfield) (s : ℕ) (h : s ≤ 1) where
  iter1s_from_lem :
      (ws : List ℕ) (i : ℕ)
      → ((k : ℕ) → get_or b.bits (i + k) 0 ≡ get_or ws k 0)
      → positions (iter1s_from i ws s 1)
        ≡ keep (test_bit b) (every_other s (32 * i) (32 * length ws))
  unfolding iter1s_from
  iter1s_from_lem [] i same = none_left
    where
      none_left : [] ≡ keep (test_bit b) (every_other s (32 * i) 0)
      none_left = unfold every_other in refl
  iter1s_from_lem (w ∷ ws) i same =
      let first : get_or b.bits i 0 ≡ w = (let e : i ≡ i + 0 = omega arith in rw e (same 0)) in
      let steps : 32 - s / 2 ≡ 32 = omega arith in
      let split : 32 * suc (length ws) ≡ 32 + 32 * length ws = omega arith in
      rw (
        steps,
        split,
        map-append,
        word_lem b i s h 32 w (omega arith) first,
        iter1s_from_lem ws (suc i)
            (λ k. let e : suc i + k ≡ i + suc k = omega arith in rw e (same (suc k))),
        every_other-add s (32 * i) 32 (32 * length ws) (32 * suc i) (omega arith),
        keep-append,
      )

-- The iterators over one parity yield exactly the set positions of that parity, each once and in
-- ascending order.
pub iter1s_lem :
    (b : Bitfield)
    → (positions (iter1s_even b) ≡ keep (test_bit b) (every_other 0 0 (32 * length b.bits)))
      × (positions (iter1s_odd b) ≡ keep (test_bit b) (every_other 1 0 (32 * length b.bits)))
unfolding iter1s_even iter1s_odd
iter1s_lem b = (
  iter1s_from_lem b 0 (omega arith) b.bits 0 (λ k. rw zero-add),
  iter1s_from_lem b 1 (omega arith) b.bits 0 (λ k. rw zero-add),
)
