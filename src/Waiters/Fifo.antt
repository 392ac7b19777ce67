-- ===== src/Waiters/Fifo.antt =====
-- A ring of waiters is a queue of at most three tasks.
use sistem_operasi.Base.{
  ℕ, suc, ◌<◌, ◌≡◌, refl, sym, ap, ◌∙◌, true, false, List, [], ◌∷◌, ◌++◌, arith, length, set,
  length-set, pos, minus_one,
}
use mathlib.Core.List.{map, map-append}
use sistem_operasi.Ring.{next_index}
use sistem_operasi.Ring.Items.{next_cases, items-set_outside}
use sistem_operasi.Ring.Queue.{
  IsRing, count, contents, length-contents, push-room, push-full, pop-nil, pop-cons,
}
use sistem_operasi.Waiters.{Waiters, no_waiters, enqueue, dequeue, dequeue_keep}

-- `w` holds the tasks `q`, oldest first.
pub record Holds (w : Waiters) (q : List ℕ) : Type 0 where
  pub ring : IsRing 4 w
  pub queue : contents 4 minus_one w ≡ map pos q

pub no_waiters-Holds : Holds no_waiters []
no_waiters-Holds = record { ring = omega arith; queue = refl }

length-map : (q : List ℕ) → length (map pos q) ≡ length q
length-map [] = refl
length-map (x ∷ q) = ap suc (length-map q)

pub count-Holds : {w : Waiters} {q : List ℕ} → Holds w q → count 4 w ≡ length q
count-Holds {w} {q} h = sym (length-contents 4 minus_one w) ∙ ap length h.queue ∙ length-map q

-- With fewer than three waiting, a task goes to the end of the queue.
pub enqueue-room :
    (w : Waiters) (q : List ℕ) (t : ℕ)
    → Holds w q
    → length q < 3
    → (w' : Waiters) × (enqueue w t ≡ (w', true)) × Holds w' (q ++ (t ∷ []))
unfolding enqueue
enqueue-room w q t h room =
    let (w', ok, v, e, n) = push-room minus_one (pos t) w h.ring (omega (arith, count-Holds h)) in
    (w', rw (ok, enqueue), record { ring = v; queue = rw (e, h.queue, map-append pos q (t ∷ [])) })

-- A fourth waiter is refused, and nothing changes.
pub enqueue-full :
    (w : Waiters) (q : List ℕ) (t : ℕ) → Holds w q → length q ≡ 3 → enqueue w t ≡ (w, false)
unfolding enqueue
enqueue-full w q t h full = rw (push-full (pos t) w h.ring (omega (arith, count-Holds h)), enqueue)

-- An empty ring gives -1.
pub dequeue-nil : (w : Waiters) → Holds w [] → dequeue w ≡ (w, minus_one)
unfolding dequeue
dequeue-nil w h = rw (pop-nil minus_one w h.ring h.queue, dequeue)

pub dequeue_keep-nil : (w : Waiters) → Holds w [] → dequeue_keep w ≡ (w, minus_one)
unfolding dequeue_keep
dequeue_keep-nil w h = rw (pop-nil minus_one w h.ring h.queue, dequeue_keep)

-- Otherwise the longest waiting task comes out, and the others keep their order.
pub dequeue_keep-cons :
    (w : Waiters) (t : ℕ) (q : List ℕ)
    → Holds w (t ∷ q)
    → (w' : Waiters) × (dequeue_keep w ≡ (w', pos t)) × Holds w' q
unfolding dequeue_keep
dequeue_keep-cons w t q h =
    let (ok, v, e) = pop-cons minus_one (pos t) (map pos q) w h.ring h.queue in
    (record w { head = next_index 4 w.head }, rw (ok, dequeue_keep), record { ring = v; queue = e })

-- Clearing the slot that was read leaves the queue alone.
cleared-Holds :
    (w : Waiters) (q : List ℕ) (h : ℕ)
    → h < 4
    → w.head ≡ next_index 4 h
    → Holds w q
    → Holds (record w { slots = set w.slots h minus_one }) q
cleared-Holds w q h hh e v = record {
  ring = omega (arith, length-set w.slots h minus_one, v.ring);
  queue =
      items-set_outside 4 minus_one w.slots minus_one h w.head (count 4 w) v.ring.head_in hh
        (ground (arith, next_cases 4 h, v.ring))
      ∙ v.queue;
}

pub dequeue-cons :
    (w : Waiters) (t : ℕ) (q : List ℕ)
    → Holds w (t ∷ q)
    → (w' : Waiters) × (dequeue w ≡ (w', pos t)) × Holds w' q
unfolding dequeue
dequeue-cons w t q h =
    let (ok, v, e) = pop-cons minus_one (pos t) (map pos q) w h.ring h.queue in
    let w1 : Waiters = record w { head = next_index 4 w.head } in
    (
      record w1 { slots = set w.slots w.head minus_one },
      rw (ok, dequeue),
      cleared-Holds w1 q w.head h.ring.head_in refl (record { ring = v; queue = e }),
    )
