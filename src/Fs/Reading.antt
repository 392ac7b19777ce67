-- ===== src/Fs/Reading.antt =====
-- What is read after a text has been written.
use mathlib.Core.Path.{subst}
use mathlib.Core.Bool.{true≢false}
use sistem_operasi.Base.{
  modify-modify, ℕ, ◌<◌, ◌≤◌, ◌≡◌, refl, sym, ap, ◌∙◌, Bool, true, false, ◌&&◌, not, Option, none,
  some, List, [], ◌∷◌, ◌++◌, ◌⊎◌, inl, inr, Bool-cases, Option-cases, length, length-append, take,
  take_all, drop, get_or-modify_self, modify, arith, c_string, c_string-append, NoZero,
  append_assoc, str_eq, str_eq_refl, str_eq→eq, if◌then◌else◌, leb, and_left, and_right, and_false,
  find_index, find_index-some,
}
use sistem_operasi.Heap
use sistem_operasi.Fs.{
  File, Buffer, State, free_file, file_at, on_file, is_file, is_dir, find_file, find_free,
}
use sistem_operasi.Fs.Disk.{disk_save}
use sistem_operasi.Fs.Write.{
  overwrite, store_text, rewrite_text, new_text, set_name, finish, write, read,
}
use sistem_operasi.Fs.Slots.{
  look, read-look, look-elsewhere, look-hit, look-new, slot, disk_save-files, ensure_data-files,
}

-- The text in a buffer.
abbrev pub text_of : Option Buffer → Option (List ℕ)
text_of none = none
text_of (some b) = some (c_string b.bytes)

overwrite-eq :
    (xs ys : List ℕ) → length ys ≤ length xs → overwrite xs ys ≡ ys ++ drop (length ys) xs
overwrite-eq [] [] h = refl
overwrite-eq [] (y ∷ ys) h = absurd (omega arith)
overwrite-eq (x ∷ xs) [] h = refl
overwrite-eq (x ∷ xs) (y ∷ ys) h = ap (λ r. y ∷ r) (overwrite-eq xs ys (omega arith))

-- A text in a buffer with room for it and its 0 reads back whole.
stored :
    (bytes text : List ℕ)
    → NoZero text
    → length text < 65536
    → length text < length bytes
    → c_string (overwrite bytes (take 65535 text ++ (0 ∷ []))) ≡ text
stored bytes text z short room =
    let ys = text ++ (0 ∷ []) in
    let fits : length ys ≤ length bytes = omega (arith, length-append text (0 ∷ []), room) in
    let assoc : (text ++ (0 ∷ [])) ++ drop (length ys) bytes
        ≡ text ++ (0 ∷ drop (length ys) bytes) =
      append_assoc text (0 ∷ []) (drop (length ys) bytes) in
    rw (take_all 65535 text (omega arith), overwrite-eq bytes ys fits, assoc)
      (c_string-append text (drop (length ys) bytes) z)

-- A file answers to its own name alone.
named_file : (f : File) (name n : List ℕ) → is_file name f ≡ true → is_file n f ≡ str_eq name n
named_file f name n h =
    let rest = and_right f.used (not (is_dir f) && str_eq f.name name) h in
    let used = and_left f.used (not (is_dir f) && str_eq f.name name) h in
    let plain = and_left (not (is_dir f)) (str_eq f.name name) rest in
    let same = str_eq→eq f.name name (and_right (not (is_dir f)) (str_eq f.name name) rest) in
    simp (used, plain) (ap (λ m. str_eq m n) same)

module _ (name other text : List ℕ) (files : List File) (i : ℕ) (h : File → File) where
  -- One slot, found under the name or free, gets the name and the text.
  look-stored :
      (find_index (is_file name) files ≡ some i)
        ⊎ ((find_index (is_file name) files ≡ none)
            × (i < length files)
            × ((slot name files i h).used ≡ false))
      → ((n : List ℕ) → is_file n (h (slot name files i h)) ≡ str_eq name n)
      → text_of (h (slot name files i h)).buffer ≡ some text
      → text_of (look other (modify files i h))
        ≡ (if str_eq name other then some text else text_of (look other files))
  look-stored target after got = elim (Bool-cases (str_eq name other)) [
    | inl same ↦
        let e : name ≡ other = str_eq→eq name other same in
        let here : is_file name (h (slot name files i h)) ≡ true = after name ∙ str_eq_refl name in
        rw (same, ← e)
          (elim target [
            | inl found ↦ rw (look-hit name files i h found here) got
            | inr (absent, l, _) ↦ rw (look-new name files i h absent l here) got
          ])
    | inr differ ↦
        let before : is_file other (slot name files i h) ≡ false = elim target [
          | inl found ↦
              named_file (slot name files i h) name other
                (find_index-some (is_file name) free_file files i found).1
              ∙ differ
          | inr (absent, l, unused) ↦ rw unused refl
        ] in
        rw (differ, look-elsewhere other files i h before (after other ∙ differ)) refl
  ]

-- The slot may take the text: it has no buffer, or one with room for the text and its 0.
abbrev pub HasRoom : List ℕ → File → Type 0
HasRoom text f =
    (f.buffer ≡ none) ⊎ ((b : Buffer) × ((f.buffer ≡ some b) × (length text < length b.bytes)))

-- Saving keeps what a search goes by, and the buffer.
saved :
    (g : File → File) (y : File)
    → (g y ≡ y) ⊎ (g y ≡ record y { dirty = false })
    → ((n : List ℕ) → is_file n (g y) ≡ is_file n y) × ((g y).buffer ≡ y.buffer)
saved g y (inl e) = (λ n. ap (is_file n) e, ap (λ (f : File). f.buffer) e)
saved g y (inr e) = (λ n. ap (is_file n) e, ap (λ (f : File). f.buffer) e)

-- The buffer that the slot gets has the room.
room_in :
    (text : List ℕ) (x : File) (b : Buffer)
    → HasRoom text x
    → length text < 65536
    → (x.buffer ≡ some b) ⊎ ((x.buffer ≡ none) × (length b.bytes ≡ 65536))
    → length text < length b.bytes
room_in text x b room short (inr (_, size)) = omega (arith, size)
room_in text x b (inl empty) short (inl own) = absurd (cc)
room_in text x b (inr (c, (e, l))) short (inl own) =
    let same : some c ≡ some b = sym e ∙ own in
    subst (λ (o : Option Buffer). length text < length (elim o [ none ↦ [] | some d ↦ d.bytes ]))
      same l

-- Storing the text in a slot with room, and the search after it.
module _ (name text : List ℕ) (i : ℕ) (f : File → File) (s : State) where
  finish_lem :
      NoZero text
      → length text < 65536
      → HasRoom text (file_at s i)
      → ((y : File) → (f y).buffer ≡ (store_text text y).buffer)
      → ((n : List ℕ) (b : Buffer)
          → is_file n (f (record (file_at s i) { buffer = some b })) ≡ str_eq name n)
      → (((finish i f s).1 ≡ false) × (Heap.malloc 65536 s.heap ≡ none))
        ⊎ (((finish i f s).1 ≡ true)
            × ((h : File → File) × ((finish i f s).0.files ≡ modify s.files i h)
                × ((n : List ℕ) → is_file n (h (file_at s i)) ≡ str_eq name n)
                × (text_of (h (file_at s i)).buffer ≡ some text)))
  unfolding finish
  finish_lem z short room keep after = elim (ensure_data-files i s) [
    | inl (e, m) ↦ inl (rw (e, finish) refl, m)
    | inr (t, b, e, files, size) ↦
        let (g, (d, gs)) = disk_save-files i (on_file i f t) in
        let put : File → File = λ x. record x { buffer = some b } in
        let x = file_at s i in
        let fin : finish i f s ≡ (disk_save i (on_file i f t), true) = rw (e, finish) refl in
        let (names, buf) = saved g (f (put x)) (gs (f (put x))) in
        let fits = room_in text x b room short size in
        let all : (finish i f s).0.files ≡ modify s.files i (λ y. g (f (put y))) =
          ap (λ p. p.0.files) fin
          ∙ (d
              ∙ (ap (λ fs. modify (modify fs i f) i g) files
                  ∙ (ap (λ fs. modify fs i g) (modify-modify s.files i put f)
                      ∙ modify-modify s.files i (λ y. f (put y)) g))) in
        inr (
          ap (λ p. p.1) fin,
          (
            (λ y. g (f (put y))),
            all,
            (λ n. names n ∙ after n b),
            ap text_of (buf ∙ keep (put x)) ∙ ap some (stored b.bytes text z short fits),
          ),
        )
  ]

-- What `fs_write` may give: a table that reads as the old one with the text under the name, or a
-- refusal for want of a slot or of memory.
abbrev pub Wrote : List ℕ → List ℕ → List ℕ → State → State × Bool → Type 0
Wrote name other text s r =
    ((r.1 ≡ true)
      × (text_of (read other r.0)
          ≡ (if str_eq name other then some text else text_of (read other s))))
    ⊎ ((r.1 ≡ false)
        × (((find_file name s ≡ none) × (find_free s ≡ none)) ⊎ (Heap.malloc 65536 s.heap ≡ none)))

-- The slot that `fs_write` chooses may take the text.
abbrev pub CanTake : List ℕ → List ℕ → File → Type 0
CanTake name text f = ((f.used && not (is_file name f)) ≡ true) ⊎ HasRoom text f

wrote-look :
    (name other text : List ℕ) (s t : State) (files : List File)
    → t.files ≡ files
    → text_of (look other files)
      ≡ (if str_eq name other then some text else text_of (look other s.files))
    → text_of (read other t) ≡ (if str_eq name other then some text else text_of (read other s))
wrote-look name other text s t files e h = rw (read-look other t, read-look other s, e) h

module _ (name other text : List ℕ) (tick : ℕ) (s : State) (i : ℕ) (z : NoZero text)
    (fits : length text < 65536) (room : CanTake name text (file_at s i)) where
  rewrite-Wrote :
      find_file name s ≡ some i → Wrote name other text s (finish i (rewrite_text text tick) s)
  rewrite-Wrote e =
      let hit = find_index-some (is_file name) free_file s.files i e in
      let x = file_at s i in
      let own : HasRoom text x = elim room [
        | inr r ↦ r
        | inl b ↦ absurd (true≢false (sym b ∙ (simp (hit.1, and_false) refl)))
      ] in
      elim (finish_lem name text i (rewrite_text text tick) s z fits own (λ y. refl)
        (λ n b. named_file x name n hit.1)) [
          | inl (off, m) ↦ inr (off, inr m)
          | inr (on, (h, files, after, got)) ↦ inl (
            on,
            wrote-look name other text s (finish i (rewrite_text text tick) s).0
                (modify s.files i h) files
                (look-stored name other text s.files i h (inl e) after got),
          )
        ]

  new-Wrote :
      length name < 32
      → find_file name s ≡ none
      → find_free s ≡ some i
      → Wrote name other text s (finish i (new_text text tick) (on_file i (set_name name) s))
  new-Wrote short e n =
      let hit = find_index-some (λ (f : File). not f.used) free_file s.files i n in
      let x = file_at s i in
      let idle : x.used ≡ false = ground (arith, hit.1) in
      let own : HasRoom text x = elim room [
        | inr r ↦ r
        | inl b ↦ absurd (true≢false (sym b ∙ (rw idle refl)))
      ] in
      let s0 = on_file i (set_name name) s in
      let at0 : file_at s0 i ≡ set_name name x =
        get_or-modify_self s.files i (set_name name) free_file hit.0 in
      let own0 : HasRoom text (file_at s0 i) = rw at0 own in
      let named : (m : List ℕ) (b : Buffer)
          → is_file m (new_text text tick (record (file_at s0 i) { buffer = some b }))
            ≡ str_eq name m =
        λ m b. rw at0 (ap (λ k. str_eq k m) (take_all 31 name (omega arith))) in
      elim (finish_lem name text i (new_text text tick) s0 z fits own0 (λ y. refl) named) [
        | inl (off, m) ↦ inr (off, inr m)
        | inr (on, (h, files, after, got)) ↦ inl (
          on,
          wrote-look name other text s (finish i (new_text text tick) s0).0
              (modify s.files i (λ y. h (set_name name y)))
              (files ∙ modify-modify s.files i (set_name name) h)
              (look-stored name other text s.files i (λ y. h (set_name name y))
                (inr (e, hit.0, idle)) (λ m. ap (λ y. is_file m (h y)) (sym at0) ∙ after m)
                (ap (λ (y : File). text_of (h y).buffer) (sym at0) ∙ got)),
        )
      ]

-- When `fs_write` of a text without a 0 and shorter than 64 KB, under a name of less than 32 bytes,
-- returns 1, `fs_read` of that name gives the text and of any other name what it gave before. It
-- returns 0 only when no file has the name and no slot is free, or when the heap has no 64 KB. The
-- slots it may choose have no buffer, or one with room for the text.
pub read-write :
    (name other text : List ℕ) (tick : ℕ) (s : State)
    → length name < 32
    → NoZero text
    → length text < 65536
    → ((i : ℕ) → CanTake name text (file_at s i))
    → Wrote name other text s (write name text tick s)
unfolding write
read-write name other text tick s short z fits room =
    let small : leb 65536 (length text) ≡ false = ground arith in
    elim (Option-cases (find_file name s)) [
      | inr (i, e) ↦
          let run : write name text tick s ≡ finish i (rewrite_text text tick) s =
            rw (small, e, write) refl in
          subst (Wrote name other text s) (sym run)
            (rewrite-Wrote name other text tick s i z fits (room i) e)
      | inl e ↦ elim (Option-cases (find_free s)) [
        | inl n ↦
            let run : write name text tick s ≡ (s, false) = rw (small, e, write, n) refl in
            subst (Wrote name other text s) (sym run) (inr (refl, inl (e, n)))
        | inr (i, n) ↦
            let run : write name text tick s
                ≡ finish i (new_text text tick) (on_file i (set_name name) s) =
              rw (small, e, write, n) refl in
            subst (Wrote name other text s) (sym run)
              (new-Wrote name other text tick s i z fits (room i) short e n)
      ]
    ]
