-- ===== src/Vfs/Decimal.antt =====
-- Texts and decimal numbers in src/kernel/vfs.c: `proc_putn`, and the number that the path of a task
-- starts with.
use Prim.Native.Char.{code}
use Prim.Native.String.{String}
use sistem_operasi.Base.{
  ℕ, zero, suc, ◌+◌, ◌-◌, ◌*◌, ◌/◌, ◌%◌, Bool, false, ◌&&◌, List, [], ◌∷◌, if◌then◌else◌, leb, ◌==◌,
}

-- A text's bytes.
abbrev pub codes : String → List ℕ
codes String.[] = []
codes (String.◌∷◌ c s) = code c ∷ codes s

-- The digits of a number below 10^10 in front of `acc`; nothing for 0.
unfoldable pub digits : ℕ → ℕ → List ℕ → List ℕ
digits zero n acc = acc
digits (suc fuel) n acc =
    let more = digits fuel (n / 10) ((48 + n % 10) ∷ acc) in if n == 0 then acc else more

-- `proc_putn`; ten digits are enough for a `uint32_t`.
unfoldable pub number : ℕ → List ℕ
number n = if n == 0 then codes "0" else digits 10 n []

-- The loop that reads the number of a task, from `pid` on, and the text behind it.
unfoldable pub parse_pid : ℕ → List ℕ → ℕ × List ℕ
parse_pid pid [] = (pid, [])
parse_pid pid (c ∷ cs) =
    let later = parse_pid (pid * 10 + (c - 48)) cs in
    if leb 48 c && leb c 57 then later else (pid, c ∷ cs)

unfoldable pub is_digit_first : List ℕ → Bool
is_digit_first [] = false
is_digit_first (c ∷ cs) = leb 48 c && leb c 57
