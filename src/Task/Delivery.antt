-- ===== src/Task/Delivery.antt =====
-- Which pending signal ends a task.
use mathlib.Core.Bool.{true≢false}
use sistem_operasi.Base.{
  ℕ, zero, suc, ◌+◌, ◌≤◌, ◌<◌, ◌≡◌, refl, sym, ◌∙◌, true, false, ◌&&◌, not, Option, none, some, pos,
  if◌then◌else◌, lt→ltb, ◌==◌, ==_iff, ==_refl, ◌⊎◌, inl, inr, Bool-cases, and_left, and_right,
  arith,
}
use sistem_operasi.Task.{
  Sched, Task, Bits, task_at, on_task, Status, is_running, is_blocked, unblock, wake_blocked,
}
use sistem_operasi.Task.Waking.{IsTable, on_task-IsTable, task_at-on_task, task_at-unblock}
use sistem_operasi.Task.Signals.{
  any_bit, first_bit, with_bit, terminating, sigs, deliverable, delivered, send_signal,
}

any_bit-cases :
    (n : ℕ) (bits : Bits)
    → ((any_bit n bits ≡ true) × ((k : ℕ) × ((k < n) × (bits k ≡ true))))
      ⊎ ((any_bit n bits ≡ false) × ((k : ℕ) → (n ≤ k) ⊎ (bits k ≡ false)))
unfolding any_bit
any_bit-cases zero bits = inr (refl, λ k. inl (omega arith))
any_bit-cases (suc n) bits = elim (Bool-cases (bits n)) [
  | inl h ↦ inl (rw h refl, (n, (omega arith, h)))
  | inr h ↦ elim (any_bit-cases n bits) [
    | inl (e, (k, (l, b))) ↦ inl (rw h e, (k, (omega arith, b)))
    | inr (e, others) ↦ inr (
      rw h e,
      λ k. elim (others k) [
        | inr f ↦ inr f
        | inl l ↦ elim (Bool-cases (k == n)) [
          | inl same ↦ let q : k ≡ n = (==_iff k n).0 same in inr (rw q h)
          | inr differ ↦ inl (ground arith)
        ]
      ],
    )
  ]
]

-- From a set bit at or above the start, the search stops at a set bit not above it.
first_bit_lem :
    (n sig : ℕ) (bits : Bits) (k : ℕ)
    → sig ≤ k
    → k < sig + n
    → bits k ≡ true
    → (bits (first_bit n sig bits) ≡ true) × (first_bit n sig bits ≤ k)
unfolding first_bit
first_bit_lem zero sig bits k l u h = absurd (omega arith)
first_bit_lem (suc n) sig bits k l u h = elim (Bool-cases (bits sig)) [
  | inl b ↦ rw b (b, l)
  | inr b ↦ elim (Bool-cases (sig == k)) [
    | inl same ↦
        let e : sig ≡ k = (==_iff sig k).0 same in absurd (true≢false (sym h ∙ (rw (← e) b)))
    | inr differ ↦ rw b (first_bit_lem n (suc sig) bits k (ground arith) (omega arith) h)
  ]
]

terminating-range : (k : ℕ) → terminating k ≡ true → (1 ≤ k) × (k < 32)
terminating-range k h = ground arith

-- The signal that ends a task is the lowest deliverable one; if none does, none is deliverable.
abbrev pub Delivers : Task → Option ℕ → Type 0
Delivers t none = (k : ℕ) → deliverable t k ≡ false
Delivers t (some sig) =
    (deliverable t sig ≡ true) × ((k : ℕ) → (sig ≤ k) ⊎ (deliverable t k ≡ false))

deliverable-sigs : (t : Task) (k : ℕ) → deliverable t k ≡ true → sigs t k ≡ true
deliverable-sigs t k d = and_left (sigs t k) (if k == 9 then true else not (t.signal_mask k)) d

deliverable-range : (t : Task) (k : ℕ) → deliverable t k ≡ true → (1 ≤ k) × (k < 32)
deliverable-range t k d =
    terminating-range k (and_right (t.pending_signals k) (terminating k) (deliverable-sigs t k d))

-- Bits that contain the deliverable ones have none of the lowest 32 set.
none_deliverable :
    (t : Task) (bits : Bits)
    → ((k : ℕ) → deliverable t k ≡ true → bits k ≡ true)
    → ((k : ℕ) → (32 ≤ k) ⊎ (bits k ≡ false))
    → (k : ℕ) → deliverable t k ≡ false
none_deliverable t bits sub clear k = elim (Bool-cases (deliverable t k)) [
  | inr f ↦ f
  | inl d ↦ elim (clear k) [
    | inl far ↦ absurd (omega (arith, far, (deliverable-range t k d).1))
    | inr f ↦ absurd (true≢false (sym (sub k d) ∙ f))
  ]
]

lowest :
    (t : Task) (k : ℕ)
    → deliverable t k ≡ true
    → (deliverable t (first_bit 31 1 (deliverable t)) ≡ true) × (first_bit 31 1 (deliverable t) ≤ k)
lowest t k d =
    let (l, u) = deliverable-range t k d in first_bit_lem 31 1 (deliverable t) k l (omega arith) d

-- For a task of user mode, `task_check_signals` ends it with its lowest pending signal of SIGINT,
-- SIGKILL and SIGTERM that is SIGKILL or not masked, and leaves it alone only when it has none.
pub delivered_lem : (t : Task) → t.is_user ≡ true → Delivers t (delivered t)
unfolding delivered
delivered_lem t user = elim (any_bit-cases 32 (sigs t)) [
  | inr (e, clear) ↦ rw e (none_deliverable t (sigs t) (deliverable-sigs t) clear)
  | inl (e, _) ↦ elim (any_bit-cases 32 (deliverable t)) [
    | inr (f, clear) ↦ rw (e, user, f) (none_deliverable t (deliverable t) (λ k d. d) clear)
    | inl (f, (k, (l, b))) ↦
        rw (e, user, f)
          (
            (lowest t k b).0,
            λ j. elim (Bool-cases (deliverable t j)) [
              | inr g ↦ inr g
              | inl d ↦ inl (lowest t j d).1
            ],
          )
  ]
]

-- A deliverable signal ends a task of user mode, with a signal that is not above it.
Delivers-some :
    (t : Task) (k : ℕ) (o : Option ℕ)
    → deliverable t k ≡ true
    → delivered t ≡ o
    → Delivers t o
    → (sig : ℕ) × ((delivered t ≡ some sig) × (sig ≤ k))
Delivers-some t k none d e clear = absurd (true≢false (sym d ∙ clear k))
Delivers-some t k (some sig) d e (_, low) =
    (sig, (e, elim (low k) [ inl l ↦ l | inr f ↦ absurd (true≢false (sym d ∙ f)) ]))

deliverable-delivered :
    (t : Task) (k : ℕ)
    → t.is_user ≡ true
    → deliverable t k ≡ true
    → (sig : ℕ) × ((delivered t ≡ some sig) × (sig ≤ k))
deliverable-delivered t k user d = Delivers-some t k (delivered t) d refl (delivered_lem t user)

-- Whatever task `i` of user mode masks, after `task_send_signal` of SIGKILL to it, its next
-- `task_check_signals` ends it with SIGKILL or a lower signal.
pub send_signal-kills :
    (s : Sched) (i : ℕ)
    → IsTable s
    → 0 < i
    → i < 32
    → (task_at s i).used ≡ true
    → (task_at s i).is_user ≡ true
    → (sig : ℕ) × ((delivered (task_at (send_signal (pos i) (pos 9) s) i) ≡ some sig) × (sig ≤ 9))
unfolding send_signal
send_signal-kills s i v low high used user =
    let mark : Task → Task = λ t. record t { pending_signals = with_bit 9 t.pending_signals } in
    let s1 = on_task i mark s in
    let at1 : task_at s1 i ≡ mark (task_at s i) =
      task_at-on_task s i i mark (omega (arith, v, high)) ∙ (rw (==_refl i) refl) in
    elim (Bool-cases (is_running (task_at s i).status)) [
      | inl run ↦
          rw (lt→ltb i 32 high, send_signal, lt→ltb 0 i low, used, at1, run, at1)
            (deliverable-delivered (mark (task_at s i)) 9 user refl)
      | inr idle ↦
          let at2 : task_at (unblock (pos i) s1) i ≡ wake_blocked (mark (task_at s i)) =
            task_at-unblock s1 i i (on_task-IsTable i mark v) high ∙ (rw (==_refl i, at1) refl) in
          rw (lt→ltb i 32 high, send_signal, lt→ltb 0 i low, used, at1, idle, at2)
            (elim (Bool-cases ((task_at s i).used && is_blocked (task_at s i).status)) [
              | inl b ↦ rw b (
                  deliverable-delivered (record (mark (task_at s i)) { status = Status.running }) 9
                    user refl)
              | inr b ↦ rw b (deliverable-delivered (mark (task_at s i)) 9 user refl)
            ])
    ]
