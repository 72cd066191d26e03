-- ===== src/Bitfield.antt =====
-- src/bitfield.rs: write-once bitfields over 64-bit words. Position 0 is the highest bit of the
-- first word. The iterators are the lists of what they yield.
pub mod Words
pub mod Write
pub mod Iter
pub mod Merged
use Prim.Native.Nat.{bit_and, bit_or}
use finality_grandpa.Base.{
  ℕ, zero, suc, ◌+◌, ◌-◌, ◌*◌, ◌/◌, ◌%◌, ◌^◌, Bool, false, List, [], ◌∷◌, ◌++◌, length, get_or, set,
  replicate, ltb, leb, ◌==◌, if◌then◌else◌, compare, Ordering,
}

pub record Bitfield : Type 0 where
  pub bits : List ℕ

-- `struct Bit1`
pub record Bit1 : Type 0 where
  pub position : ℕ

-- `Bitfield::new`
abbrev pub blank : Bitfield
blank = record { bits = [] }

unfoldable pub is_blank : Bitfield → Bool
is_blank b = length b.bits == 0

-- `Vec::resize(new_len, 0)`, where it makes the vector longer.
unfoldable pub resize : List ℕ → ℕ → List ℕ
resize ws new_len = ws ++ replicate (new_len - length ws) 0

-- The loop of `merge`. The vector is at least as long as the other one when it starts.
unfoldable pub or_words : List ℕ → List ℕ → List ℕ
or_words ws [] = ws
or_words [] (u ∷ us) = []
or_words (w ∷ ws) (u ∷ us) = bit_or w u ∷ or_words ws us

-- `Bitfield::merge`, and `BitOr` by it.
unfoldable pub merge : Bitfield → Bitfield → Bitfield
unfolding resize or_words
merge a b =
    let ws =
      if ltb (length a.bits) (length b.bits) then resize a.bits (length b.bits) else a.bits in
    record { bits = or_words ws b.bits }

-- `Bitfield::set_bit`
unfoldable pub set_bit : Bitfield → ℕ → Bitfield
unfolding resize
set_bit b position =
    let word_off = position / 64 in
    let bit_off = position % 64 in
    let ws = if leb (length b.bits) word_off then resize b.bits (word_off + 1) else b.bits in
    record { bits = set ws word_off (bit_or (get_or ws word_off 0) (2 ^ (63 - bit_off))) }

-- `fn test_bit`
unfoldable pub test_word : ℕ → ℕ → Bool
test_word word position = let mask = 2 ^ (63 - position) in bit_and word mask == mask

-- `Bitfield::test_bit`
unfoldable pub test_bit : Bitfield → ℕ → Bool
unfolding test_word
test_bit b position =
    let word_off = position / 64 in
    if leb (length b.bits) word_off
    then false
    else test_word (get_or b.bits word_off 0) (position % 64)

-- The `filter_map` over `0..n` inside `fn iter1s`, from `j` on.
unfoldable pub word_bits : ℕ → ℕ → ℕ → ℕ → ℕ → ℕ → List Bit1
word_bits i word start step zero j = []
word_bits i word start step (suc n) j =
    let bit_pos = start + j * 2 ^ step in
    let rest = word_bits i word start step n (suc j) in
    if test_word word bit_pos then record { position = i * 64 + bit_pos } ∷ rest else rest

-- `fn iter1s`, from the word with index `i` on.
unfoldable pub iter1s_from : ℕ → List ℕ → ℕ → ℕ → List Bit1
unfolding word_bits
iter1s_from i [] start step = []
iter1s_from i (word ∷ ws) start step =
    let steps = 64 / 2 ^ step - start / 2 ^ step in
    let n = if word == 0 then 0 else steps in
    word_bits i word start step n 0 ++ iter1s_from (suc i) ws start step

-- `Bitfield::iter1s`
unfoldable pub iter1s : Bitfield → ℕ → ℕ → List Bit1
unfolding iter1s_from
iter1s b start step = iter1s_from 0 b.bits start step

unfoldable pub iter1s_even : Bitfield → List Bit1
unfolding iter1s
iter1s_even b = iter1s b 0 1

unfoldable pub iter1s_odd : Bitfield → List Bit1
unfolding iter1s
iter1s_odd b = iter1s b 1 1

-- `a.zip(b).map(|(a, b)| a | b)`
unfoldable pub zip_or : List ℕ → List ℕ → List ℕ
zip_or [] us = []
zip_or (w ∷ ws) [] = []
zip_or (w ∷ ws) (u ∷ us) = bit_or w u ∷ zip_or ws us

-- `ws.iter().chain(iter::repeat(&0))`, as far as a vector of length `n` is zipped with it.
unfoldable pub padded : List ℕ → ℕ → List ℕ
padded ws n = ws ++ replicate n 0

-- `Bitfield::iter1s_merged`
unfoldable pub iter1s_merged : Bitfield → Bitfield → ℕ → ℕ → List Bit1
unfolding iter1s_from zip_or padded
iter1s_merged a b start step = elim (compare (length a.bits) (length b.bits)) [
  | Ordering.eq ↦ iter1s_from 0 (zip_or a.bits b.bits) start step
  | Ordering.lt ↦ iter1s_from 0 (zip_or (padded a.bits (length b.bits)) b.bits) start step
  | Ordering.gt ↦ iter1s_from 0 (zip_or a.bits (padded b.bits (length a.bits))) start step
]

unfoldable pub iter1s_merged_even : Bitfield → Bitfield → List Bit1
unfolding iter1s_merged
iter1s_merged_even a b = iter1s_merged a b 0 1

unfoldable pub iter1s_merged_odd : Bitfield → Bitfield → List Bit1
unfolding iter1s_merged
iter1s_merged_odd a b = iter1s_merged a b 1 1
