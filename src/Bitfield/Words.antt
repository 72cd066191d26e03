-- ===== src/Bitfield/Words.antt =====
-- The bits of a word: `|` joins them, and a test against a mask reads one.
use Prim.Native.Nat.{bit_and, bit_or, digits, bitwise, bit_and-bitwise, bit_or-bitwise}
use native.Mathlib.Nat.{pow-suc, one-le-pow}
use finality_grandpa.Base.{
  ℕ, zero, suc, ◌+◌, ◌-◌, ◌*◌, ◌/◌, ◌%◌, ◌^◌, ◌≤◌, ◌<◌, min, max, ◌≡◌, refl, ◌==◌, false, arith,
  ◌||◌, ap, ◌⊎◌, inl, inr, ==-cases,
}
use finality_grandpa.Bitfield.{test_word}

-- The binary digits of a number, the lowest first.
abbrev pub digit : ℕ → ℕ → ℕ
digit w zero = w % 2
digit w (suc k) = digit (w / 2) k

-- The native operations recur on the digits with fuel, and any fuel that is enough gives the same.
module _ (z : ℕ → ℕ) (f : ℕ → ℕ → ℕ) where
  enough_fuel : (n m a b : ℕ) → a ≤ n → a ≤ m → digits z f n a b ≡ digits z f m a b
  enough_fuel zero zero a b p q = refl
  enough_fuel zero (suc m) zero b p q = refl
  enough_fuel zero (suc m) (suc a) b p q = absurd (omega arith)
  enough_fuel (suc n) zero zero b p q = refl
  enough_fuel (suc n) zero (suc a) b p q = absurd (omega arith)
  enough_fuel (suc n) (suc m) zero b p q = refl
  enough_fuel (suc n) (suc m) (suc a) b p q =
      rw (enough_fuel n m (suc a / 2) (b / 2) (omega arith) (omega arith))

  lowest_digit :
      (a b : ℕ)
      → bitwise z f (suc a) b ≡ bitwise z f (suc a / 2) (b / 2) * 2 + f (suc a % 2) (b % 2)
  lowest_digit a b =
      omega (arith, enough_fuel a (suc a / 2) (suc a / 2) (b / 2) (omega arith) (omega arith))

or_halves : (a b : ℕ) → bit_or a b ≡ bit_or (a / 2) (b / 2) * 2 + max (a % 2) (b % 2)
or_halves zero b = simp bit_or-bitwise (omega arith)
or_halves (suc a) b = simp bit_or-bitwise (lowest_digit (λ y. y) max a b)

and_halves : (a b : ℕ) → bit_and a b ≡ bit_and (a / 2) (b / 2) * 2 + min (a % 2) (b % 2)
and_halves zero b = simp bit_and-bitwise (omega arith)
and_halves (suc a) b = simp bit_and-bitwise (lowest_digit (λ y. 0) min a b)

-- Strong induction, by a bound on the number.
and-zero : (n a : ℕ) → a ≤ n → bit_and a 0 ≡ 0
and-zero n zero h = refl
and-zero zero (suc a) h = absurd (omega arith)
and-zero (suc n) (suc a) h =
    omega (arith, and_halves (suc a) 0, and-zero n (suc a / 2) (omega arith))

or-zero_bound : (n a : ℕ) → a ≤ n → bit_or a 0 ≡ a
or-zero_bound n zero h = refl
or-zero_bound zero (suc a) h = absurd (omega arith)
or-zero_bound (suc n) (suc a) h =
    omega (arith, or_halves (suc a) 0, or-zero_bound n (suc a / 2) (omega arith))

pub or-zero : (a : ℕ) → bit_or a 0 ≡ a
or-zero a = or-zero_bound a a (omega arith)

pub zero-or : (a : ℕ) → bit_or 0 a ≡ a
zero-or a = bit_or-bitwise 0 a

digit-lt : (w k : ℕ) → digit w k < 2
digit-lt w zero = omega arith
digit-lt w (suc k) = digit-lt (w / 2) k

digit_cases : (w k : ℕ) → (digit w k ≡ 0) ⊎ (digit w k ≡ 1)
digit_cases w k = ground (arith, digit-lt w k)

digit-zero : (k : ℕ) → digit 0 k ≡ 0
digit-zero zero = refl
digit-zero (suc k) = digit-zero k

digit-or : (k a b : ℕ) → digit (bit_or a b) k ≡ max (digit a k) (digit b k)
digit-or zero a b = omega (arith, or_halves a b)
digit-or (suc k) a b =
    let half : bit_or a b / 2 ≡ bit_or (a / 2) (b / 2) = omega (arith, or_halves a b) in
    rw half (digit-or k (a / 2) (b / 2))

half-pow : (k : ℕ) → 2 ^ suc k / 2 ≡ 2 ^ k
half-pow k = omega (arith, pow-suc 2 k)

digit-pow_self : (k : ℕ) → digit (2 ^ k) k ≡ 1
digit-pow_self zero = refl
digit-pow_self (suc k) = rw (half-pow k) (digit-pow_self k)

digit-pow_ne : (k j : ℕ) → (k ≡ j → ⊥) → digit (2 ^ k) j ≡ 0
digit-pow_ne zero zero n = absurd (n refl)
digit-pow_ne zero (suc j) n = digit-zero j
digit-pow_ne (suc k) zero n = omega (arith, pow-suc 2 k)
digit-pow_ne (suc k) (suc j) n = rw (half-pow k) (digit-pow_ne k j (λ e. n (omega arith)))

-- `word & (1 << k)` keeps the digit `k` alone.
and-pow : (k w : ℕ) → bit_and w (2 ^ k) ≡ digit w k * 2 ^ k
and-pow zero w = omega (arith, and_halves w 1, and-zero (w / 2) (w / 2))
and-pow (suc k) w =
    let low : bit_and (w / 2) (2 ^ suc k / 2) ≡ digit (w / 2) k * 2 ^ k =
      rw (half-pow k) (and-pow k (w / 2)) in
    omega (
      arith,
      and_halves w (2 ^ suc k),
      low,
      pow-suc 2 k,
      ap (λ (t : ℕ). digit (w / 2) k * t) (pow-suc 2 k),
    )

-- `test_bit` of a word reads one digit.
pub test_word-digit : (w p : ℕ) → test_word w p ≡ (digit w (63 - p) == 1)
unfolding test_word
test_word-digit w p =
    let k = 63 - p in
    elim (digit_cases w k) [
      | inl e ↦ ground (arith, and-pow k w, e, ap (λ (t : ℕ). t * 2 ^ k) e, one-le-pow k 2)
      | inr e ↦ ground (arith, and-pow k w, e, ap (λ (t : ℕ). t * 2 ^ k) e)
    ]

pub test_word-zero : (p : ℕ) → test_word 0 p ≡ false
test_word-zero p = ground (arith, test_word-digit 0 p, digit-zero (63 - p))

pub test_word-or : (w u p : ℕ) → test_word (bit_or w u) p ≡ (test_word w p || test_word u p)
test_word-or w u p = ground (
  arith,
  test_word-digit (bit_or w u) p,
  test_word-digit w p,
  test_word-digit u p,
  digit-or (63 - p) w u,
  digit-lt w (63 - p),
  digit-lt u (63 - p),
)

pub test_word-mask : (b p : ℕ) → b < 64 → p < 64 → test_word (2 ^ (63 - b)) p ≡ (b == p)
test_word-mask b p hb hp = elim (==-cases b p) [
  | inl e ↦ ground (arith, test_word-digit (2 ^ (63 - b)) p, digit-pow_self (63 - b), e)
  | inr n ↦ ground (
    arith,
    test_word-digit (2 ^ (63 - b)) p,
    digit-pow_ne (63 - b) (63 - p) (λ e. n (omega arith)),
  )
]
