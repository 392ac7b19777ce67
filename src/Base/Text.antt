-- ===== src/Base/Text.antt =====
-- C strings, as the lists of their bytes before the 0.
use Prim.Native.Nat.{ℕ, ◌-◌, ◌≤◌}
use mathlib.Core.Path.{◌≡◌, refl, ap, ap₂}
use mathlib.Core.Bool.{Bool, true, false, ◌&&◌}
use mathlib.Core.List.{List, [], ◌∷◌, ◌++◌}
use native.Mathlib.Omega.{arith}
use sistem_operasi.Base.Tests.{if◌then◌else◌, ◌==◌, ==_iff, ==_refl, and_left, and_right}
use sistem_operasi.Base.Arrays.{take}

-- The comparison loops: true where both strings end at once.
unfoldable pub str_eq : List ℕ → List ℕ → Bool
str_eq [] [] = true
str_eq [] (y ∷ ys) = false
str_eq (x ∷ xs) [] = false
str_eq (x ∷ xs) (y ∷ ys) = x == y && str_eq xs ys

-- The copying loops into an array of `max` bytes.
abbrev pub str_copy : ℕ → List ℕ → List ℕ
str_copy max s = take (max - 1) s

-- The string at the front of an array.
abbrev pub c_string : List ℕ → List ℕ
c_string [] = []
c_string (x ∷ xs) = if x == 0 then [] else x ∷ c_string xs

-- No byte of the text is 0.
abbrev pub NoZero : List ℕ → Type 0
NoZero [] = Unit {0}
NoZero (x ∷ xs) = (1 ≤ x) × NoZero xs

pub str_eq_refl : (s : List ℕ) → str_eq s s ≡ true
unfolding str_eq
str_eq_refl [] = refl
str_eq_refl (x ∷ xs) = rw (==_refl x) (str_eq_refl xs)

pub str_eq→eq : (s t : List ℕ) → str_eq s t ≡ true → s ≡ t
unfolding str_eq
str_eq→eq [] [] h = refl
str_eq→eq [] (y ∷ ys) h = absurd (cc)
str_eq→eq (x ∷ xs) [] h = absurd (cc)
str_eq→eq (x ∷ xs) (y ∷ ys) h =
    ap₂ (λ a r. a ∷ r) ((==_iff x y).0 (and_left (x == y) (str_eq xs ys) h))
      (str_eq→eq xs ys (and_right (x == y) (str_eq xs ys) h))

pub c_string-append : (s rest : List ℕ) → NoZero s → c_string (s ++ (0 ∷ rest)) ≡ s
c_string-append [] rest h = refl
c_string-append (x ∷ xs) rest (l, h) =
    let e : (x == 0) ≡ false = ground arith in rw e (ap (λ r. x ∷ r) (c_string-append xs rest h))
