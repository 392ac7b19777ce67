-- ===== src/Net/Verify.antt =====
-- Packets with their checksums in place: the receiver's sum over them is 0, as RFC 1071 asks.
use sistem_operasi.Base.{
  ℕ, zero, suc, ◌+◌, ◌-◌, ◌*◌, ◌/◌, ◌%◌, ◌<◌, ◌≤◌, ◌≡◌, sym, ap, ◌∙◌, List, [], ◌∷◌, ◌++◌, length,
  arith, if◌then◌else◌, ◌==◌, Bool-cases, inl, inr,
}
use sistem_operasi.Net.{be16}
use sistem_operasi.Net.Checksum.{word_sum, fold_carry, finish}

-- The remainder of a sum by 65535, with 65535 in place of 0 unless the sum is 0.
abbrev pub remainder : ℕ → ℕ
remainder s = if s == 0 then 0 else (s - 1) % 65535 + 1

round-remainder : (s : ℕ) → remainder (s % 65536 + s / 65536) ≡ remainder s
round-remainder s = ground arith

small-remainder : (s : ℕ) → s / 65536 ≡ 0 → remainder s ≡ s
small-remainder s h = ground arith

fold_carry-remainder :
    (fuel s : ℕ) → fold_carry fuel s / 65536 ≡ 0 → fold_carry fuel s ≡ remainder s
unfolding fold_carry
fold_carry-remainder zero s h = sym (small-remainder s h)
fold_carry-remainder (suc fuel) s h = elim (Bool-cases (s / 65536 == 0)) [
  | inl small ↦ rw small (sym (small-remainder s (ground arith)))
  | inr more ↦
      let h' : fold_carry fuel (s % 65536 + s / 65536) / 65536 ≡ 0 = rw more at h in
      rw more (fold_carry-remainder fuel (s % 65536 + s / 65536) h' ∙ round-remainder s)
]

fold_carry-ends : (s : ℕ) → s < 4294967296 → fold_carry 3 s / 65536 ≡ 0
unfolding fold_carry
fold_carry-ends s h = ground arith

finish-remainder : (s : ℕ) → s < 4294967296 → finish s ≡ 65535 - remainder s
unfolding finish
finish-remainder s h = ap (λ r. 65535 - r) (fold_carry-remainder 3 s (fold_carry-ends s h))

-- Adding a sum's own checksum to it leaves nothing.
pub finish-finish : (s : ℕ) → s < 4294901760 → finish (s + finish s) ≡ 0
finish-finish s h =
    let own : finish s ≡ 65535 - remainder s = finish-remainder s (omega arith) in
    let small : finish s ≤ 65535 = omega arith in
    finish-remainder (s + finish s) (omega arith) ∙ rw own (ground arith)

abbrev pub IsEven : ℕ → Type 0
IsEven n = n % 2 ≡ 0

pub word_sum-append :
    (xs ys : List ℕ) → IsEven (length xs) → word_sum (xs ++ ys) ≡ word_sum xs + word_sum ys
unfolding word_sum
word_sum-append [] ys h = omega arith
word_sum-append (x ∷ []) ys h = absurd (omega arith)
word_sum-append (x ∷ y ∷ r) ys h = omega (arith, word_sum-append r ys (omega arith))

word_sum-be16 : (n : ℕ) (ys : List ℕ) → n < 65536 → word_sum (be16 n ++ ys) ≡ n + word_sum ys
unfolding word_sum
word_sum-be16 n ys h = omega arith

-- A checksum put into two bytes that were 0 adds itself.
pub word_sum-insert :
    (n : ℕ) (xs ys : List ℕ)
    → IsEven (length xs)
    → n < 65536
    → word_sum (xs ++ (be16 n ++ ys)) ≡ word_sum (xs ++ (0 ∷ 0 ∷ ys)) + n
unfolding word_sum
word_sum-insert n xs ys even small = omega (
  arith,
  word_sum-append xs (be16 n ++ ys) even,
  word_sum-append xs (0 ∷ 0 ∷ ys) even,
  word_sum-be16 n ys small,
)

pub finish-le : (s : ℕ) → finish s ≤ 65535
unfolding finish
finish-le s = omega arith

-- Each byte is below 256.
abbrev pub IsBytes : List ℕ → Type 0
IsBytes [] = Unit {0}
IsBytes (x ∷ xs) = (x < 256) × IsBytes xs

pub word_sum-le : (xs : List ℕ) → IsBytes xs → word_sum xs ≤ 65535 * (length xs + 1)
unfolding word_sum
word_sum-le [] h = omega arith
word_sum-le (x ∷ []) h = omega arith
word_sum-le (x ∷ y ∷ r) (hx, (hy, hr)) = omega (arith, word_sum-le r hr)

pub IsBytes-append : (xs ys : List ℕ) → IsBytes xs → IsBytes ys → IsBytes (xs ++ ys)
IsBytes-append [] ys h k = k
IsBytes-append (x ∷ xs) ys (hx, h) k = (hx, IsBytes-append xs ys h k)
