-- ===== src/Ipc/Fifo.antt =====
-- The queue holds at most seven messages of at most 63 bytes, first in, first out.
use sistem_operasi.Base.{
  drop, get_or, ℕ, ◌≤◌, ◌<◌, ◌≡◌, refl, sym, ap, ◌∙◌, true, false, none, some, List, [], ◌∷◌, ◌++◌,
  arith, length, take_all, length-take,
}
use sistem_operasi.Ring.{next_index}
use sistem_operasi.Ring.Queue.{
  IsRing, count, contents, length-contents, push-room, push-full, pop-nil, pop-cons,
}
use sistem_operasi.Ipc.{Queue, strncpy, send, recv, init}

abbrev pub AllShort : List (List ℕ) → Type 0
AllShort [] = Unit {0}
AllShort (m ∷ ms) = (length m ≤ 63) × AllShort ms

-- `q` holds the messages `ms`, oldest first.
pub record Holds (q : Queue) (ms : List (List ℕ)) : Type 0 where
  pub ring : IsRing 8 q
  pub queue : contents 8 [] q ≡ ms
  pub short : AllShort ms

count-Holds : {q : Queue} {ms : List (List ℕ)} → Holds q ms → count 8 q ≡ length ms
count-Holds {q} h = sym (length-contents 8 [] q) ∙ ap length h.queue

AllShort-append :
    (ms : List (List ℕ)) (m : List ℕ) → AllShort ms → length m ≤ 63 → AllShort (ms ++ (m ∷ []))
AllShort-append [] m h le = (le, tt)
AllShort-append (x ∷ ms) m h le = (h.0, AllShort-append ms m h.1 le)

-- After `ipc_init` no message waits, whatever the array holds.
pub init-Holds : (q : Queue) → IsRing 8 q → Holds (init q) []
unfolding init
init-Holds q v = record { ring = omega (arith, v.storage); queue = refl; short = tt }

-- With fewer than seven messages waiting, `ipc_send` adds the first 63 bytes of its message behind
-- them.
pub send-room :
    (msg : List ℕ) (q : Queue) (ms : List (List ℕ))
    → Holds q ms
    → length ms < 7
    → (q' : Queue) × (send msg q ≡ (q', true)) × Holds q' (ms ++ (strncpy msg ∷ []))
unfolding send
send-room msg q ms h room =
    let (s, ok, v, e, n) = push-room [] (strncpy msg) q h.ring (omega (arith, count-Holds h)) in
    (
      s,
      rw (ok, send),
      record {
        ring = v;
        queue = rw (e, h.queue);
        short = AllShort-append ms (strncpy msg) h.short (omega (arith, length-take 63 msg));
      },
    )

-- With seven messages waiting, `ipc_send` refuses and changes nothing.
pub send-full :
    (msg : List ℕ) (q : Queue) (ms : List (List ℕ))
    → Holds q ms
    → 7 ≤ length ms
    → send msg q ≡ (q, false)
unfolding send
send-full msg q ms h full =
    rw (push-full (strncpy msg) q h.ring (ground (arith, count-Holds h, h.ring)), send)

-- `ipc_recv` reports an empty queue without changing it.
pub recv-nil : (q : Queue) → Holds q [] → recv q ≡ (q, none)
unfolding recv
recv-nil q h = rw (pop-nil [] q h.ring h.queue, recv)

-- `ipc_recv` takes the oldest message whole.
pub recv-cons :
    (q : Queue) (m : List ℕ) (ms : List (List ℕ))
    → Holds q (m ∷ ms)
    → (q' : Queue) × (recv q ≡ (q', some m)) × Holds q' ms
unfolding recv
recv-cons q m ms h =
    let (ok, v, e) = pop-cons [] m ms q h.ring h.queue in
    (
      record q { head = next_index 8 q.head },
      rw (ok, recv, take_all 63 m h.short.0),
      record { ring = v; queue = e; short = h.short.1 },
    )

-- The oldest of some messages and the others, for at least one message.
abbrev pub oldest : List (List ℕ) → List ℕ
oldest ms = get_or ms 0 []

after-send :
    (q : Queue) (ms : List (List ℕ)) (m : List ℕ)
    → Holds q (ms ++ (m ∷ []))
    → (q' : Queue) × (recv q ≡ (q', some (oldest (ms ++ (m ∷ [])))))
      × Holds q' (drop 1 (ms ++ (m ∷ [])))
after-send q [] m h = recv-cons q m [] h
after-send q (x ∷ ms) m h = recv-cons q x (ms ++ (m ∷ [])) h

-- With fewer than seven messages waiting, `ipc_send` succeeds and puts the first 63 bytes of its message
-- behind them; `ipc_recv` then gives the oldest of all these whole and leaves the others.
pub recv-send_queue :
    (msg : List ℕ) (q : Queue) (ms : List (List ℕ))
    → Holds q ms
    → length ms < 7
    → let (q1, ok) = send msg q in
      let all = ms ++ (strncpy msg ∷ []) in
      (ok ≡ true)
      × Holds q1 all
      × ((q2 : Queue) × (recv q1 ≡ (q2, some (oldest all))) × Holds q2 (drop 1 all))
recv-send_queue msg q ms h room =
    let (q1, run, w) = send-room msg q ms h room in
    rw run (refl, w, after-send q1 ms (strncpy msg) w)
