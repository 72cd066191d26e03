-- ===== src/Bitfield/Write.antt =====
-- What `set_bit` and `merge` do to the bits that `test_bit` reads.
use Prim.Native.Nat.{bit_or}
use finality_grandpa.Base.{
  ℕ, zero, suc, ◌+◌, ◌-◌, ◌*◌, ◌/◌, ◌%◌, ◌≤◌, ◌<◌, ◌≡◌, refl, ◌∙◌, sym, true, false, ◌||◌, List, [],
  ◌∷◌, ◌++◌, length, get_or, set, replicate, arith, ◌==◌, length-append, length-replicate, leb, ltb,
  Bool-cases, inl, inr, ◌^◌, if◌then◌else◌,
}
use finality_grandpa.Bitfield.{
  Bitfield, resize, or_words, merge, set_bit, test_word, test_bit, blank, is_blank,
}
use finality_grandpa.Bitfield.Words.{test_word-zero, test_word-or, test_word-mask, or-zero}

get_or-replicate : (n i : ℕ) → get_or {A = ℕ} (replicate n 0) i 0 ≡ 0
get_or-replicate zero i = refl
get_or-replicate (suc n) zero = refl
get_or-replicate (suc n) (suc i) = get_or-replicate n i

get_or-append_zeros : (ws : List ℕ) (n i : ℕ) → get_or (ws ++ replicate n 0) i 0 ≡ get_or ws i 0
get_or-append_zeros [] n i = get_or-replicate n i
get_or-append_zeros (w ∷ ws) n zero = refl
get_or-append_zeros (w ∷ ws) n (suc i) = get_or-append_zeros ws n i

pub get_or-resize : (ws : List ℕ) (n i : ℕ) → get_or (resize ws n) i 0 ≡ get_or ws i 0
unfolding resize
get_or-resize ws n i = get_or-append_zeros ws (n - length ws) i

length-resize : (ws : List ℕ) (n : ℕ) → length ws ≤ n → length (resize ws n) ≡ n
unfolding resize
length-resize ws n h = omega (
  arith,
  length-append ws (replicate (n - length ws) 0),
  length-replicate {A = ℕ} (n - length ws) 0,
)

get_or_beyond : (ws : List ℕ) (i : ℕ) → length ws ≤ i → get_or ws i 0 ≡ 0
get_or_beyond [] i h = refl
get_or_beyond (w ∷ ws) zero h = absurd (omega arith)
get_or_beyond (w ∷ ws) (suc i) h = get_or_beyond ws i (omega arith)

get_or-set :
    (ws : List ℕ) (i j v : ℕ)
    → i < length ws
    → get_or (set ws i v) j 0 ≡ (if i == j then v else get_or ws j 0)
get_or-set [] i j v h = elim h [ ]
get_or-set (w ∷ ws) zero zero v h = refl
get_or-set (w ∷ ws) zero (suc j) v h = ground arith
get_or-set (w ∷ ws) (suc i) zero v h = ground arith
get_or-set (w ∷ ws) (suc i) (suc j) v h = ground (arith, get_or-set ws i j v)

pub get_or-or_words :
    (ws us : List ℕ) (i : ℕ)
    → length us ≤ length ws
    → get_or (or_words ws us) i 0 ≡ bit_or (get_or ws i 0) (get_or us i 0)
unfolding or_words
get_or-or_words ws [] i h = sym (or-zero (get_or ws i 0))
get_or-or_words [] (u ∷ us) i h = absurd (omega arith)
get_or-or_words (w ∷ ws) (u ∷ us) zero h = refl
get_or-or_words (w ∷ ws) (u ∷ us) (suc i) h = get_or-or_words ws us i (omega arith)

pub test_bit-get_or :
    (b : Bitfield) (q : ℕ) → test_bit b q ≡ test_word (get_or b.bits (q / 64) 0) (q % 64)
unfolding test_bit
test_bit-get_or b q = ground (arith, get_or_beyond b.bits (q / 64), test_word-zero (q % 64))

-- No bit is set in the blank bitfield.
pub test_bit-blank : (q : ℕ) → test_bit blank q ≡ false
test_bit-blank q = test_bit-get_or blank q ∙ test_word-zero (q % 64)

-- The words that `set_bit` writes into: as long as it needs, and those of the bitfield.
set_bit_words :
    (b : Bitfield) (p : ℕ)
    → (ws : List ℕ) × (set_bit b p
        ≡ record { bits = set ws (p / 64) (bit_or (get_or ws (p / 64) 0) (2 ^ (63 - p % 64))) })
      × (p / 64 < length ws)
      × ((i : ℕ) → get_or ws i 0 ≡ get_or b.bits i 0)
unfolding set_bit
set_bit_words b p = elim (Bool-cases (leb (length b.bits) (p / 64))) [
  | inl short ↦ (
    resize b.bits (p / 64 + 1),
    rw short,
    ground (arith, length-resize b.bits (p / 64 + 1)),
    get_or-resize b.bits (p / 64 + 1),
  )
  | inr long ↦ (b.bits, rw long, ground arith, λ i. refl)
]

-- The words that `merge` writes into: at least as many as the other bitfield has.
merge_words :
    (a b : Bitfield)
    → (ws : List ℕ) × (merge a b ≡ record { bits = or_words ws b.bits })
      × (length b.bits ≤ length ws)
      × ((i : ℕ) → get_or ws i 0 ≡ get_or a.bits i 0)
unfolding merge
merge_words a b = elim (Bool-cases (ltb (length a.bits) (length b.bits))) [
  | inl short ↦ (
    resize a.bits (length b.bits),
    rw short,
    ground (arith, length-resize a.bits (length b.bits)),
    get_or-resize a.bits (length b.bits),
  )
  | inr long ↦ (a.bits, rw long, ground arith, λ i. refl)
]

-- After `set_bit` exactly the given position is set besides those that were set before.
pub test_bit-set_bit :
    (b : Bitfield) (p q : ℕ) → test_bit (set_bit b p) q ≡ (p == q || test_bit b q)
test_bit-set_bit b p q =
    let (ws, e, fits, same) = set_bit_words b p in
    rw e (
      ground (
        arith,
        test_bit-get_or
            (record { bits = set ws (p / 64) (bit_or (get_or ws (p / 64) 0) (2 ^ (63 - p % 64))) })
            q,
        test_bit-get_or b q,
        get_or-set ws (p / 64) (q / 64) (bit_or (get_or ws (p / 64) 0) (2 ^ (63 - p % 64))) fits,
        same (q / 64),
        test_word-or (get_or ws (p / 64) 0) (2 ^ (63 - p % 64)) (q % 64),
        test_word-mask (p % 64) (q % 64),
      ))

-- After `merge` exactly the positions that were set in either bitfield are set.
pub test_bit-merge :
    (a b : Bitfield) (q : ℕ) → test_bit (merge a b) q ≡ (test_bit a q || test_bit b q)
test_bit-merge a b q =
    let (ws, e, fits, same) = merge_words a b in
    rw e (
      test_bit-get_or (record { bits = or_words ws b.bits }) q
      ∙ rw (get_or-or_words ws b.bits (q / 64) fits, same (q / 64))
          (rw (test_bit-get_or a q, test_bit-get_or b q)
            (test_word-or (get_or a.bits (q / 64) 0) (get_or b.bits (q / 64) 0) (q % 64))))

pub test_bit_beyond : (b : Bitfield) (q : ℕ) → 64 * length b.bits ≤ q → test_bit b q ≡ false
unfolding test_bit
test_bit_beyond b q h = ground arith

pub test_bit-is_blank : (b : Bitfield) (q : ℕ) → is_blank b ≡ true → test_bit b q ≡ false
unfolding is_blank
test_bit-is_blank b q h = test_bit_beyond b q (ground arith)
