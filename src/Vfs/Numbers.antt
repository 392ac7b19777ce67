-- ===== src/Vfs/Numbers.antt =====
-- The decimal numbers of /proc, as `proc_putn` of src/kernel/vfs.c writes them and the path of a task
-- is read.
use sistem_operasi.Base.{
  ℕ, zero, suc, ◌+◌, ◌-◌, ◌*◌, ◌/◌, ◌%◌, ◌^◌, ◌<◌, ◌≡◌, refl, ◌∙◌, true, List, [], ◌∷◌, ◌++◌, arith,
  Bool-cases, inl, inr, ◌==◌, leb, ◌&&◌,
}
use sistem_operasi.Vfs.Decimal.{digits, number, parse_pid}

digits-append : (k n : ℕ) (acc rest : List ℕ) → digits k n acc ++ rest ≡ digits k n (acc ++ rest)
unfolding digits
digits-append zero n acc rest = refl
digits-append (suc k) n acc rest = elim (Bool-cases (n == 0)) [
  | inl e ↦ rw e refl
  | inr e ↦ rw e (digits-append k (n / 10) ((48 + n % 10) ∷ acc) rest)
]

-- A last digit is read.
parse_pid-digit :
    (n : ℕ) (rest : List ℕ) → parse_pid (n / 10) ((48 + n % 10) ∷ rest) ≡ parse_pid n rest
unfolding parse_pid
parse_pid-digit n rest =
    let in_range : (leb 48 (48 + n % 10) && leb (48 + n % 10) 57) ≡ true = ground arith in
    let value : n / 10 * 10 + (48 + n % 10 - 48) ≡ n = omega arith in rw (in_range, value) refl

parse_pid-digits :
    (k n : ℕ) (acc : List ℕ) → n < 10 ^ k → parse_pid 0 (digits k n acc) ≡ parse_pid n acc
unfolding digits
parse_pid-digits zero n acc h = let e : n ≡ 0 = omega arith in rw e refl
parse_pid-digits (suc k) n acc h = elim (Bool-cases (n == 0)) [
  | inl e ↦ let z : n ≡ 0 = ground arith in rw (e, z) refl
  | inr e ↦
      let less : n / 10 < 10 ^ k = omega arith in
      rw e (parse_pid-digits k (n / 10) ((48 + n % 10) ∷ acc) less ∙ parse_pid-digit n acc)
]

-- A number of 32 bits that `proc_putn` has written in front of a text is read back, and reading goes on
-- with that text: its ten digits of fuel are enough.
pub parse_pid-number :
    (n : ℕ) (rest : List ℕ) → n < 2 ^ 32 → parse_pid 0 (number n ++ rest) ≡ parse_pid n rest
unfolding number
parse_pid-number n rest h = elim (Bool-cases (n == 0)) [
  | inl e ↦ let z : n ≡ 0 = ground arith in rw (e, z) (parse_pid-digit 0 rest)
  | inr e ↦ rw (e, digits-append 10 n [] rest) (parse_pid-digits 10 n rest (omega arith))
]
