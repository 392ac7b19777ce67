-- ===== src/Pipe/Bytes.antt =====
-- The byte ring of a pipe as a queue of at most 255 bytes: what the copying loops of `pipe_write`
-- and `pipe_read` do to it.
use sistem_operasi.Base.{
  ℕ, zero, suc, ◌+◌, ◌-◌, ◌<◌, ◌≤◌, ◌≡◌, refl, sym, ap, ◌∙◌, Bool-cases, inl, inr, List, [], ◌∷◌,
  ◌++◌, append-nil, append_assoc, arith, length, length-append, take, take_all, length-take, min,
  if◌then◌else◌, ltb, ◌==◌, some, none,
}
use sistem_operasi.Ring.{Ring, push, next_index}
use sistem_operasi.Ring.Queue.{
  IsRing, count, contents, length-contents, push-room, push-full, pop-nil, pop-cons,
}
use sistem_operasi.Pipe.{write_bytes, write_message, read_bytes}

-- The ring holds the bytes `q`, oldest first.
pub record Bytes (r : Ring ℕ) (q : List ℕ) : Type 0 where
  pub ring : IsRing 256 r
  pub queue : contents 256 0 r ≡ q

pub count-Bytes : {r : Ring ℕ} {q : List ℕ} → Bytes r q → count 256 r ≡ length q
count-Bytes {r} b = sym (length-contents 256 0 r) ∙ ap length b.queue

-- How many of `n` bytes a ring that holds `k` takes.
abbrev pub fits : ℕ → ℕ → ℕ
fits k n = min n (255 - k)

pub length-Bytes : {r : Ring ℕ} {q : List ℕ} → Bytes r q → length q ≤ 255
length-Bytes {r} b = ground (arith, count-Bytes b, b.ring)

-- The loop stores the longest prefix that there is room for, and counts it.
pub write_bytes_lem :
    (msg : List ℕ) (r : Ring ℕ) (q : List ℕ) (n : ℕ)
    → Bytes r q
    → (r' : Ring ℕ) × (write_bytes r msg n ≡ (r', n + fits (length q) (length msg)))
      × Bytes r' (q ++ take (fits (length q) (length msg)) msg)
unfolding write_bytes
write_bytes_lem [] r q n b =
    let e : fits (length q) 0 ≡ 0 = omega arith in
    (r, rw e (ap (λ k. (r, k)) (omega arith)), rw (e, append-nil) b)
write_bytes_lem (c ∷ msg) r q n b = elim (Bool-cases (ltb (length q) 255)) [
  | inl room ↦
      let (s, ok, v, e, more) = push-room 0 c r b.ring (ground (arith, count-Bytes b)) in
      let l : length (q ++ (c ∷ [])) ≡ length q + 1 = length-append q (c ∷ []) in
      let step : fits (length q) (suc (length msg)) ≡ suc (fits (length q + 1) (length msg)) =
        ground arith in
      let (r', run, b') =
        write_bytes_lem msg s (q ++ (c ∷ [])) (n + 1)
          (record { ring = v; queue = rw (e, b.queue) }) in
      (
        r',
        rw (ok, write_bytes, run, l, step) (ap (λ k. (r', k)) (omega arith)),
        rw step (rw (l, append_assoc) at b'),
      )
  | inr full ↦
      let e : fits (length q) (suc (length msg)) ≡ 0 = ground arith in
      (
        r,
        rw (push-full c r b.ring (ground (arith, count-Bytes b, length-Bytes b)), write_bytes, e)
            (ap (λ k. (r, k)) (omega arith)),
        rw (e, append-nil) b,
      )
]

write_message-eq :
    (msg : List ℕ) (r s s' : Ring ℕ) (n m : ℕ)
    → write_bytes r msg 0 ≡ (s, n)
    → n ≡ m
    → push 256 s 0 ≡ some s'
    → write_message r msg ≡ (s', m)
unfolding write_message
write_message-eq msg r s s' n m run e ok = rw (run, write_message, ok, run, e)

write_message-eq_cut :
    (msg : List ℕ) (r s : Ring ℕ) (n m : ℕ)
    → write_bytes r msg 0 ≡ (s, n)
    → n ≡ m
    → push 256 s 0 ≡ none
    → write_message r msg ≡ (s, m)
unfolding write_message
write_message-eq_cut msg r s n m run e ok = rw (run, write_message, ok, run, e)

-- A message that fits with its separator is stored whole, and all its bytes are counted.
pub write_message-whole :
    (msg : List ℕ) (r : Ring ℕ) (q : List ℕ)
    → Bytes r q
    → length q + length msg < 255
    → (r' : Ring ℕ) × (write_message r msg ≡ (r', length msg)) × Bytes r' (q ++ msg ++ (0 ∷ []))
write_message-whole msg r q b room =
    let (s, run, b') = write_bytes_lem msg r q 0 b in
    let all : fits (length q) (length msg) ≡ length msg = omega arith in
    let b1 : Bytes s (q ++ msg) = rw (all, take_all (length msg) msg (omega arith)) at b' in
    let (s', ok, v, e, more) =
      push-room 0 0 s b1.ring (omega (arith, count-Bytes b1, length-append q msg)) in
    (
      s',
      write_message-eq msg r s s' _ _ run (omega arith) ok,
      record { ring = v; queue = rw (e, b1.queue, append_assoc) },
    )

-- One that does not fill the ring up but leaves no room for the separator, or does not fit, fills
-- the ring: the bytes that fit are stored and counted, and no separator follows them.
pub write_message-cut :
    (msg : List ℕ) (r : Ring ℕ) (q : List ℕ)
    → Bytes r q
    → 255 ≤ length q + length msg
    → (r' : Ring ℕ) × (write_message r msg ≡ (r', 255 - length q))
      × Bytes r' (q ++ take (255 - length q) msg)
write_message-cut msg r q b over =
    let (s, run, b') = write_bytes_lem msg r q 0 b in
    let cut : fits (length q) (length msg) ≡ 255 - length q = omega (arith, length-Bytes b) in
    let b1 : Bytes s (q ++ take (255 - length q) msg) = rw cut at b' in
    let full : count 256 s ≡ 255 = omega (
      arith,
      count-Bytes b1,
      length-append q (take (255 - length q) msg),
      length-take (255 - length q) msg,
      length-Bytes b,
    ) in
    (s, write_message-eq_cut msg r s _ _ run (omega arith) (push-full 0 s b1.ring full), b1)

-- The first message of a queue of bytes: up to the first 0, or `k` bytes.
abbrev pub first_message : ℕ → List ℕ → List ℕ
first_message zero q = []
first_message (suc k) [] = []
first_message (suc k) (c ∷ q) = let m = first_message k q in if c == 0 then [] else c ∷ m

-- What is left behind it.
abbrev pub after_message : ℕ → List ℕ → List ℕ
after_message zero q = q
after_message (suc k) [] = []
after_message (suc k) (c ∷ q) = let m = after_message k q in if c == 0 then q else m

-- The loop of `pipe_read` takes the first message and its 0 out of the ring.
pub read_bytes_lem :
    (k : ℕ) (r : Ring ℕ) (q : List ℕ)
    → Bytes r q
    → (r' : Ring ℕ) × (read_bytes k r ≡ (r', first_message k q)) × Bytes r' (after_message k q)
unfolding read_bytes
read_bytes_lem zero r q b = (r, refl, b)
read_bytes_lem (suc k) r [] b = (r, rw (pop-nil 0 r b.ring b.queue, read_bytes), b)
read_bytes_lem (suc k) r (c ∷ q) b =
    let (ok, v, e) = pop-cons 0 c q r b.ring b.queue in
    let s : Ring ℕ = record r { head = next_index 256 r.head } in
    let rest : Bytes s q = record { ring = v; queue = e } in
    let (r', run, b') = read_bytes_lem k s q rest in
    elim (Bool-cases (c == 0)) [
      | inl stop ↦ (s, rw (ok, read_bytes, stop), rw stop rest)
      | inr go ↦ (r', rw (ok, read_bytes, go, run), rw go b')
    ]
