-- ===== src/Task/Selection.antt =====
-- Which task `task_switch` chooses, and what the switch then does to every task of the table.
use sistem_operasi.Base.{
  ℕ, zero, suc, ◌+◌, ◌*◌, ◌/◌, ◌<◌, ◌≡◌, refl, ap, ◌∙◌, Bool, true, false, ◌&&◌, List, [], ◌∷◌, ℤ,
  pos, negsuc, ◌≤ℤ◌, ◌+ℤ◌, ◌-ℤ◌, ltb_ℤ, get_or, length, ◌⊎◌, inl, inr, arith, ltb→lt,
}
use mathlib.Core.Path.{subst}
use sistem_operasi.Task.{Sched, Task, task_at, blank}
use sistem_operasi.Task.Schedule.{score, is_candidate, Best, no_best, better, select_from, select}

-- The test of the loop splits into its two parts.
test-cases :
    (c : Bool) (a b : ℤ)
    → ((c && ltb_ℤ a b ≡ true) × (c ≡ true) × (a ≤ℤ b))
      ⊎ ((c && ltb_ℤ a b ≡ false) × ((c ≡ false) ⊎ (b ≤ℤ a)))
test-cases true a b = ground arith
test-cases false a b = inr (refl, inl refl)

module _ (has_ap : Bool) (current : ℕ) where
  better-rises : (i : ℕ) (b : Best) (t : Task) → b.top ≤ℤ (better has_ap current i b t).top
  better-rises i b t = elim (test-cases (is_candidate has_ap current i t) b.top (score t)) [
    | inl h ↦ rw h.0 h.2
    | inr h ↦ rw h.0 (omega arith)
  ]

  better-covers :
      (i : ℕ) (b : Best) (t : Task)
      → (is_candidate has_ap current i t ≡ false) ⊎ (score t ≤ℤ (better has_ap current i b t).top)
  better-covers i b t = elim (test-cases (is_candidate has_ap current i t) b.top (score t)) [
    | inl h ↦ inr (rw h.0 (omega arith))
    | inr h ↦ rw h.0 h.1
  ]

  select_from-rises :
      (i : ℕ) (b : Best) (ts : List Task) → b.top ≤ℤ (select_from has_ap current i b ts).top
  unfolding select_from
  select_from-rises i b [] = omega arith
  select_from-rises i b (t ∷ ts) =
      omega (arith, better-rises i b t, select_from-rises (suc i) (better has_ap current i b t) ts)

  -- The task in slot `i + k` is no candidate, or the score found is as high as its own.
  select_from-covers :
      (i : ℕ) (b : Best) (ts : List Task) (k : ℕ)
      → (is_candidate has_ap current (i + k) (get_or ts k blank) ≡ false)
        ⊎ (score (get_or ts k blank) ≤ℤ (select_from has_ap current i b ts).top)
  unfolding select_from
  select_from-covers i b [] k = inl refl
  select_from-covers i b (t ∷ ts) zero =
      let e : i + 0 ≡ i = omega arith in
      rw e (elim (better-covers i b t) [
        | inl h ↦ inl h
        | inr h ↦ inr (omega (arith, h, select_from-rises (suc i) (better has_ap current i b t) ts))
      ])
  select_from-covers i b (t ∷ ts) (suc k) =
      let e : i + suc k ≡ suc i + k = omega arith in
      rw e (select_from-covers (suc i) (better has_ap current i b t) ts k)

  -- What is found is the start, or a candidate with its score.
  select_from-picks :
      (i : ℕ) (b : Best) (ts : List Task)
      → (select_from has_ap current i b ts ≡ b)
        ⊎ ((k : ℕ) × ((k < length ts)
              × (is_candidate has_ap current (i + k) (get_or ts k blank) ≡ true)
              × (select_from has_ap current i b ts
                  ≡ record { index = pos (i + k); top = score (get_or ts k blank) })))
  unfolding select_from
  select_from-picks i b [] = inl refl
  select_from-picks i b (t ∷ ts) =
      elim (select_from-picks (suc i) (better has_ap current i b t) ts) [
        | inr (k, (h, c, e)) ↦
            let shift : i + suc k ≡ suc i + k = omega arith in
            inr (suc k, (omega arith, rw shift c, rw shift e))
        | inl kept ↦ elim (test-cases (is_candidate has_ap current i t) b.top (score t)) [
          | inr lost ↦ inl (kept ∙ (rw lost.0 refl))
          | inl won ↦
              let start : i + 0 ≡ i = omega arith in
              inr (0, (omega arith, rw start won.1, rw (start, kept, won.0) refl))
        ]
      ]

-- The candidate in slot `b` has a score that no other candidate exceeds.
abbrev pub Chosen : Sched → ℤ → Type 0
Chosen s (pos b) =
    (b < length s.tasks)
    × (is_candidate s.has_ap s.current b (task_at s b) ≡ true)
    × ((j : ℕ)
        → (is_candidate s.has_ap s.current j (task_at s j) ≡ false)
          ⊎ (score (task_at s j) ≤ℤ score (task_at s b)))
Chosen s (negsuc n) = (j : ℕ) → is_candidate s.has_ap s.current j (task_at s j) ≡ false

score_bound :
    (p a : ℕ) (n : ℤ)
    → n ≤ℤ pos 127
    → ltb_ℤ (negsuc 9998) ((pos (p * 4) -ℤ n) +ℤ pos (a / 8)) ≡ true
score_bound p a (pos n) h = ground arith
score_bound p a (negsuc n) h = ground arith

covers :
    (s : Sched) (j : ℕ)
    → (is_candidate s.has_ap s.current j (task_at s j) ≡ false)
      ⊎ (score (task_at s j) ≤ℤ (select_from s.has_ap s.current 0 no_best s.tasks).top)
covers s j =
    let e : 0 + j ≡ j = omega arith in
    subst
      (λ k.
        (is_candidate s.has_ap s.current k (task_at s j) ≡ false)
        ⊎ (score (task_at s j) ≤ℤ (select_from s.has_ap s.current 0 no_best s.tasks).top))
      e (select_from-covers s.has_ap s.current 0 no_best s.tasks j)

-- On a table whose nice values are those of an `int8_t`, `task_switch` selects a candidate of the
-- highest score, and selects none only when there is no candidate.
pub select_lem : (s : Sched) → ((j : ℕ) → (task_at s j).nice ≤ℤ pos 127) → Chosen s (select s)
unfolding select
select_lem s nice = elim (select_from-picks s.has_ap s.current 0 no_best s.tasks) [
  | inr (k, (h, c, e)) ↦
      let z : 0 + k ≡ k = omega arith in
      rw (ap (λ b. b.index) e, z)
        (
          h,
          subst (λ i. is_candidate s.has_ap s.current i (task_at s k) ≡ true) z c,
          λ j. elim (covers s j) [
            | inl out ↦ inl out
            | inr low ↦ inr (subst (λ b. score (task_at s j) ≤ℤ b.top) e low)
          ],
        )
  | inl e ↦ rw (ap (λ b. b.index) e) (λ j. elim (covers s j) [
    | inl out ↦ out
    | inr low ↦
        let t = task_at s j in
        let low' = subst (λ b. score t ≤ℤ b.top) e low in
        absurd
          (omega (arith, low', ltb→lt _ _ (score_bound t.priority t.age_ticks t.nice (nice j))))
  ])
]
