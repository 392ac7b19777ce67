-- ===== src/MessageQueue/Mailbox.antt =====
-- What sending and receiving do to one mailbox and to the table.
use sistem_operasi.Base.{
  ℕ, zero, suc, ◌+◌, ◌<◌, ◌≤◌, ◌≡◌, ◌≢◌, refl, ap, ◌∙◌, Bool-cases, true, false, inl, inr, ◌⊎◌,
  none, some, List, [], ◌∷◌, ℤ, pos, get_or, set, take, arith, length, get_or-set_self,
  get_or-set_ne, lt→ltb, length-set,
}
use sistem_operasi.Task
use sistem_operasi.Task.{Sched}
use sistem_operasi.MessageQueue.{
  Msg, Mailbox, copy, clamp_len, put, send, limit, Received, pull, recv, count_used,
}

take-copy :
    (n : ℕ) (src dst : List ℕ)
    → n ≤ length src
    → n ≤ length dst
    → take n (copy n src dst) ≡ take n src
unfolding copy
take-copy zero src dst h g = refl
take-copy (suc n) [] dst h g = absurd (omega arith)
take-copy (suc n) (x ∷ src) [] h g = absurd (omega arith)
take-copy (suc n) (x ∷ src) (y ∷ dst) h g =
    ap (λ l. x ∷ l) (take-copy n src dst (omega arith) (omega arith))

length-copy : (n : ℕ) (src dst : List ℕ) → length (copy n src dst) ≡ length dst
unfolding copy
length-copy zero src dst = refl
length-copy (suc n) src [] = refl
length-copy (suc n) [] (y ∷ dst) = refl
length-copy (suc n) (x ∷ src) (y ∷ dst) = ap suc (length-copy n src dst)

count_used-le : (box : Mailbox) → count_used box ≤ length box
unfolding count_used
count_used-le [] = omega arith
count_used-le (m ∷ ms) = elim (Bool-cases m.used) [
  | inl used ↦ simp used (omega (arith, count_used-le ms))
  | inr free ↦ simp free (omega (arith, count_used-le ms))
]

-- The slot that a message is put into.
abbrev pub filled : ℕ → List ℕ → ℤ → Msg → Msg
filled len bytes from m = record {
  used = true;
  from = from;
  len = len;
  payload = copy len bytes m.payload;
}

-- A message is put exactly when a slot is free; then one more is pending.
pub put-count :
    (len : ℕ) (bytes : List ℕ) (from : ℤ) (box : Mailbox)
    → ((count_used box ≡ length box) × (put len bytes from box ≡ none))
      ⊎ ((box' : Mailbox) × (put len bytes from box ≡ some box')
          × (count_used box' ≡ count_used box + 1)
          × (length box' ≡ length box)
          × (count_used box < length box))
unfolding put count_used
put-count len bytes from [] = inl (refl, refl)
put-count len bytes from (m ∷ ms) = elim (Bool-cases m.used) [
  | inr free ↦ inr (
    filled len bytes from m ∷ ms,
    simp free,
    simp free (omega arith),
    refl,
    simp free (omega (arith, count_used-le ms)),
  )
  | inl used ↦ elim (put-count len bytes from ms) [
    | inl (full, stuck) ↦ inl (simp used (omega arith), simp (used, stuck))
    | inr (ms', run, more, same, room) ↦
        inr
          (m ∷ ms', simp (used, run), simp used (omega arith), ap suc same, simp used (omega arith))
  ]
]

-- Where the first slot is free, a message that is put there comes out first, whatever messages
-- stand behind it; they are left as they were.
pub pull-put :
    (len : ℕ) (bytes : List ℕ) (from : ℤ) (max_len : ℕ) (m : Msg) (ms : Mailbox)
    → m.used ≡ false
    → len ≤ length bytes
    → len ≤ length m.payload
    → len ≤ max_len
    → (put len bytes from (m ∷ ms) ≡ some (filled len bytes from m ∷ ms))
      × (pull (pos max_len) (filled len bytes from m ∷ ms)
          ≡ some (
            record { length_out = pos len; bytes = take len bytes; sender = from },
            record (filled len bytes from m) { used = false } ∷ ms,
          ))
unfolding put pull
pull-put len bytes from max_len m ms free long room fits =
    let whole : limit len (pos max_len) ≡ pos len = ground arith in
    (simp free, simp (whole, take-copy len bytes m.payload long room))

send-put :
    (sched : Sched) (d len : ℕ) (bytes : List ℕ) (from : ℤ) (boxes : List Mailbox)
    (box box' : Mailbox)
    → d < 32
    → Task.is_used sched (pos d) ≡ true
    → len ≤ 56
    → get_or boxes d [] ≡ box
    → put len bytes from box ≡ some box'
    → send sched (pos d) bytes (pos len) from boxes ≡ (set boxes d box', true)
unfolding send clamp_len
send-put sched d len bytes from boxes box box' lt used small at run =
    let no_clamp : clamp_len (pos len) ≡ len = ground arith in
    rw (lt→ltb d 32 lt, send, used, at, no_clamp, run)

recv-pull :
    (d max_len : ℕ) (boxes : List Mailbox) (box box' : Mailbox) (got : Received)
    → d < 32
    → get_or boxes d [] ≡ box
    → pull (pos max_len) box ≡ some (got, box')
    → recv (pos d) (pos max_len) boxes ≡ (set boxes d box', some got)
unfolding recv
recv-pull d max_len boxes box box' got lt at run = rw (lt→ltb d 32 lt, recv, at, run)

-- `mq_send` to a task in use, when the first slot of its mailbox is free, then `mq_recv` of that
-- mailbox: the receiver gets the sent bytes, at most 56, with their length and sender, and every
-- older message of that mailbox and every other mailbox is left as it was. So the mailbox is not
-- first in, first out: the newest message is received before the older ones.
pub recv-send :
    (sched : Sched) (d len max_len : ℕ) (bytes : List ℕ) (from : ℤ) (boxes : List Mailbox) (m : Msg)
    (ms : Mailbox) (e : ℕ)
    → d < 32
    → d ≢ e
    → length boxes ≡ 32
    → Task.is_used sched (pos d) ≡ true
    → get_or boxes d [] ≡ m ∷ ms
    → m.used ≡ false
    → length m.payload ≡ 56
    → len ≤ 56
    → len ≤ length bytes
    → len ≤ max_len
    → let (boxes', sent) = send sched (pos d) bytes (pos len) from boxes in
      let (boxes'', got) = recv (pos d) (pos max_len) boxes' in
      (sent ≡ true)
      × (got ≡ some (record { length_out = pos len; bytes = take len bytes; sender = from }))
      × (get_or boxes'' d [] ≡ record (filled len bytes from m) { used = false } ∷ ms)
      × (get_or boxes'' e [] ≡ get_or boxes e [])
recv-send sched d len max_len bytes from boxes m ms e lt ne n used box free size small long fits =
    let f = filled len bytes from m in
    let (sent, got) = pull-put len bytes from max_len m ms free long (omega arith) fits in
    let here = get_or-set_self boxes d (f ∷ ms) [] (omega arith) in
    let after_send =
      send-put sched d len bytes from boxes (m ∷ ms) (f ∷ ms) lt used small box sent in
    let after_recv = recv-pull d max_len (set boxes d (f ∷ ms)) (f ∷ ms) _ _ lt here got in
    rw (after_send, after_recv)
      (
        refl,
        refl,
        get_or-set_self (set boxes d (f ∷ ms)) d _ [] (omega (arith, length-set boxes d (f ∷ ms))),
        get_or-set_ne (set boxes d (f ∷ ms)) d e _ [] ne ∙ get_or-set_ne boxes d e (f ∷ ms) [] ne,
      )
