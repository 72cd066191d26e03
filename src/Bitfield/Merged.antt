-- ===== src/Bitfield/Merged.antt =====
-- The merging iterators against `merge`.
use Prim.Native.Nat.{bit_or}
use finality_grandpa.Base.{
  ℕ, zero, suc, ◌-◌, ◌≤◌, ◌≡◌, refl, ap, List, [], ◌∷◌, ◌++◌, length, replicate, arith, inl, inr,
  compare_cases,
}
use finality_grandpa.Bitfield.{
  Bitfield, merge, or_words, zip_or, iter1s, iter1s_merged, iter1s_even, iter1s_odd,
  iter1s_merged_even, iter1s_merged_odd,
}
use finality_grandpa.Bitfield.Words.{or-zero}

zip_or-same : (ws us : List ℕ) → length ws ≡ length us → zip_or ws us ≡ or_words ws us
unfolding zip_or or_words
zip_or-same [] [] e = refl
zip_or-same [] (u ∷ us) e = absurd (omega arith)
zip_or-same (w ∷ ws) [] e = absurd (omega arith)
zip_or-same (w ∷ ws) (u ∷ us) e = ap (◌∷◌ (bit_or w u)) (zip_or-same ws us (omega arith))

zip_or-zeros :
    (k : ℕ) (us : List ℕ)
    → length us ≤ k
    → zip_or (replicate k 0) us ≡ or_words (replicate (length us) 0) us
unfolding zip_or or_words
zip_or-zeros zero [] h = refl
zip_or-zeros (suc k) [] h = refl
zip_or-zeros zero (u ∷ us) h = absurd (omega arith)
zip_or-zeros (suc k) (u ∷ us) h = ap (◌∷◌ (bit_or 0 u)) (zip_or-zeros k us (omega arith))

zip_or-padded :
    (k : ℕ) (ws us : List ℕ)
    → length ws ≤ length us
    → length us ≤ k
    → zip_or (ws ++ replicate k 0) us ≡ or_words (ws ++ replicate (length us - length ws) 0) us
unfolding zip_or or_words
zip_or-padded k [] us h fits =
    let e : length us - 0 ≡ length us = omega arith in rw e (zip_or-zeros k us fits)
zip_or-padded k (w ∷ ws) [] h fits = absurd (omega arith)
zip_or-padded k (w ∷ ws) (u ∷ us) h fits =
    let e : suc (length us) - suc (length ws) ≡ length us - length ws = omega arith in
    rw e (ap (◌∷◌ (bit_or w u)) (zip_or-padded k ws us (omega arith) (omega arith)))

or-zeros : (k : ℕ) (ws : List ℕ) → length ws ≤ k → zip_or ws (replicate k 0) ≡ ws
unfolding zip_or
or-zeros k [] h = refl
or-zeros zero (w ∷ ws) h = absurd (omega arith)
or-zeros (suc k) (w ∷ ws) h = rw (or-zero w, or-zeros k ws (omega arith))

zip_or-longer :
    (k : ℕ) (ws us : List ℕ)
    → length us ≤ length ws
    → length ws ≤ k
    → zip_or ws (us ++ replicate k 0) ≡ or_words ws us
unfolding zip_or or_words
zip_or-longer k ws [] h fits = or-zeros k ws fits
zip_or-longer k [] (u ∷ us) h fits = absurd (omega arith)
zip_or-longer k (w ∷ ws) (u ∷ us) h fits =
    ap (◌∷◌ (bit_or w u)) (zip_or-longer k ws us (omega arith) (omega arith))

-- Iterating over two bitfields as if merged yields what iterating over their merge yields.
pub iter1s_merged-merge :
    (a b : Bitfield) (start step : ℕ) → iter1s_merged a b start step ≡ iter1s (merge a b) start step
unfolding iter1s_merged iter1s merge
iter1s_merged-merge a b start step = elim (compare_cases (length a.bits) (length b.bits)) [
  | inl (e, h) ↦ ground (arith, zip_or-same a.bits b.bits)
  | inr (inl (e, h)) ↦ ground (arith, zip_or-padded (length b.bits) a.bits b.bits)
  | inr (inr (e, h)) ↦ ground (arith, zip_or-longer (length a.bits) a.bits b.bits)
]

pub iter1s_merged_even-merge : (a b : Bitfield) → iter1s_merged_even a b ≡ iter1s_even (merge a b)
unfolding iter1s_merged_even iter1s_even
iter1s_merged_even-merge a b = iter1s_merged-merge a b 0 1

pub iter1s_merged_odd-merge : (a b : Bitfield) → iter1s_merged_odd a b ≡ iter1s_odd (merge a b)
unfolding iter1s_merged_odd iter1s_odd
iter1s_merged_odd-merge a b = iter1s_merged-merge a b 1 1
