-- ===== src/Task/Args.antt =====
-- The arguments of a task: packed into `arg_buf` by `task_create_user` (src/kernel/task.c) and taken
-- out again by the system call SYS_GETARGV (src/kernel/syscall_proc.c).
use sistem_operasi.Base.{
  ℕ, zero, suc, ◌+◌, ◌-◌, ◌≤◌, ◌≡◌, refl, sym, ap, ◌∙◌, Bool, true, false, ◌&&◌, Option, some, List,
  [], ◌∷◌, ◌++◌, map, append_assoc, append-nil, take_all, drop, length, length-append, c_string,
  c_string-append, and_false, NoZero, if◌then◌else◌, ltb, ◌==◌, arith, pos, pos_part, ltb_ℤ,
}
use sistem_operasi.Task.{Task}
use sistem_operasi.Task.Create.{arg_at, pack_from, user_task}

-- The copy to the caller's buffer, which ends behind two zeros in a row; `prev` says that the byte
-- before was a 0.
unfoldable pub copy_serial : Bool → List ℕ → List ℕ
copy_serial prev [] = []
copy_serial prev (x ∷ xs) =
    let rest = copy_serial (x == 0) xs in if prev && (x == 0) then x ∷ [] else x ∷ rest

-- The loop that points `n` arguments at the strings in the buffer.
unfoldable pub split_strings : ℕ → List ℕ → List (List ℕ)
split_strings zero buf = []
split_strings (suc n) buf = c_string buf ∷ split_strings n (drop (suc (length (c_string buf))) buf)

-- SYS_GETARGV with two pointers of user space: the strings that `argv` then points at.
unfoldable pub get_argv : Task → List (List ℕ)
get_argv t =
    let ac = pos_part t.arg_argc in
    split_strings (if ltb 8 ac then 8 else ac) (copy_serial false t.arg_buf)

-- The strings one behind the other, each with its 0.
abbrev pub flat : List (List ℕ) → List ℕ
flat [] = []
flat (a ∷ as') = a ++ (0 ∷ flat as')

-- Each argument is a text that is not empty.
abbrev pub AreTexts : List (List ℕ) → Type 0
AreTexts [] = Unit {0}
AreTexts (a ∷ as') = (1 ≤ length a) × NoZero a × AreTexts as'

arg_at_next :
    (given : List (Option (List ℕ))) (a : List ℕ) (rest : List (Option (List ℕ)))
    → arg_at (given ++ (some a ∷ rest)) (length given) ≡ a
arg_at_next [] a rest = refl
arg_at_next (x ∷ xs) a rest = arg_at_next xs a rest

drop-append : (a r : List ℕ) → drop (suc (length a)) (a ++ (0 ∷ r)) ≡ r
drop-append [] r = refl
drop-append (x ∷ xs) r = drop-append xs r

-- `pack_from` behind `given` arguments already written.
pack_from-flat :
    (given : List (Option (List ℕ))) (args : List (List ℕ)) (out : List ℕ)
    → length out + length (flat args) ≤ 510
    → pack_from (length args) (length given) (given ++ map some args) out ≡ out ++ flat args
unfolding pack_from
pack_from-flat given [] out h = sym (append-nil out)
pack_from-flat given (a ∷ as') out h =
    let n = length-append a (0 ∷ flat as') in
    let test : ltb (length out) 510 ≡ true = ground (arith, h, n) in
    let one : length (given ++ (some a ∷ [])) ≡ suc (length given) =
      omega (arith, length-append given (some a ∷ [])) in
    let written : length (out ++ (a ++ (0 ∷ []))) ≡ length out + (length a + 1) =
      omega (arith, length-append out (a ++ (0 ∷ [])), length-append a (0 ∷ [])) in
    let onward =
      pack_from-flat (given ++ (some a ∷ [])) as' (out ++ (a ++ (0 ∷ [])))
        (omega (arith, h, n, written)) in
    let same : (given ++ (some a ∷ [])) ++ map some as' ≡ given ++ (some a ∷ map some as') =
      append_assoc given (some a ∷ []) (map some as') in
    let joined : (out ++ (a ++ (0 ∷ []))) ++ flat as' ≡ out ++ (a ++ (0 ∷ flat as')) =
      append_assoc out (a ++ (0 ∷ [])) (flat as')
      ∙ ap (λ r. out ++ r) (append_assoc a (0 ∷ []) (flat as')) in
    rw
      (
        test,
        arg_at_next given a (map some as'),
        take_all (510 - length out) a (omega (arith, h, n)),
        ← one,
        ← same,
      )
      (onward ∙ joined)

copy_serial-rest :
    (a rest : List ℕ)
    → NoZero a
    → copy_serial false (a ++ (0 ∷ rest)) ≡ a ++ (0 ∷ copy_serial true rest)
unfolding copy_serial
copy_serial-rest [] rest z = refl
copy_serial-rest (x ∷ xs) rest (l, z) =
    let e : (x == 0) ≡ false = ground arith in rw e (ap (λ r. x ∷ r) (copy_serial-rest xs rest z))

copy_serial-text :
    (a rest : List ℕ) (prev : Bool)
    → 1 ≤ length a
    → NoZero a
    → copy_serial prev (a ++ (0 ∷ rest)) ≡ a ++ (0 ∷ copy_serial true rest)
unfolding copy_serial
copy_serial-text [] rest prev l z = absurd (omega arith)
copy_serial-text (x ∷ xs) rest prev l (p, z) =
    let e : (x == 0) ≡ false = ground arith in
    rw (e, and_false prev) (ap (λ r. x ∷ r) (copy_serial-rest xs rest z))

split_strings-flat :
    (args : List (List ℕ)) (rest : List ℕ)
    → AreTexts args
    → split_strings (length args) (flat args ++ rest) ≡ args
unfolding split_strings
split_strings-flat [] rest t = refl
split_strings-flat (a ∷ as') rest (l, z, t) =
    let shape : (a ++ (0 ∷ flat as')) ++ rest ≡ a ++ (0 ∷ (flat as' ++ rest)) =
      append_assoc a (0 ∷ flat as') rest in
    rw (shape, c_string-append a (flat as' ++ rest) z, drop-append a (flat as' ++ rest))
      (ap (λ r. a ∷ r) (split_strings-flat as' rest t))

copy_serial-flat :
    (args : List (List ℕ)) (prev : Bool)
    → AreTexts args
    → copy_serial prev (flat args ++ (0 ∷ [])) ≡ flat args ++ (0 ∷ [])
unfolding copy_serial
copy_serial-flat [] true t = refl
copy_serial-flat [] false t = refl
copy_serial-flat (a ∷ as') prev (l, z, t) =
    let shape : (a ++ (0 ∷ flat as')) ++ (0 ∷ []) ≡ a ++ (0 ∷ (flat as' ++ (0 ∷ []))) =
      append_assoc a (0 ∷ flat as') (0 ∷ []) in
    rw (shape, copy_serial-text a (flat as' ++ (0 ∷ [])) prev l z, copy_serial-flat as' true t) refl

-- The arguments that `task_create_user` is given are those that SYS_GETARGV gives the new task, when
-- they are at most eight texts that are not empty and, with a 0 each, at most 510 bytes.
pub get_argv-user_task :
    (args : List (List ℕ)) (name : Option (List ℕ)) (t : Task)
    → AreTexts args
    → length args ≤ 8
    → length (flat args) ≤ 510
    → get_argv (user_task name (pos (length args)) (map some args) t) ≡ args
unfolding get_argv
get_argv-user_task args name t texts few fits =
    let count : ltb_ℤ (pos 8) (pos (length args)) ≡ false = ground arith in
    let packed : pack_from (length args) 0 (map some args) [] ≡ flat args =
      pack_from-flat [] args [] (omega (arith, fits)) in
    let small : ltb 8 (length args) ≡ false = ground arith in
    rw (count, packed, copy_serial-flat args false texts, small)
      (split_strings-flat args (0 ∷ []) texts)
