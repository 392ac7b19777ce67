-- ===== src/Fs/Slots.antt =====
-- Writes to one slot of the table, and what a search of the table sees of them.
use mathlib.Core.Path.{subst}
use sistem_operasi.Base.{
  ℕ, zero, suc, ◌<◌, ◌≡◌, ◌≢◌, refl, sym, ap, ◌∙◌, true, false, Option, none, some, List, [], ◌∷◌,
  ◌⊎◌, inl, inr, Bool-cases, Option-cases, length, get_or, get_or-modify_self, get_or-modify_ne,
  modify, replicate, length-replicate, find_index, Finds, find_index-Finds, find_index-some,
  find_index-modify, find_index-modify_new,
}
use sistem_operasi.Heap
use sistem_operasi.Fs.{File, Buffer, State, free_file, file_at, is_file, find_file, allocate}
use sistem_operasi.Fs.Disk.{disk_save}
use sistem_operasi.Fs.Write.{ensure_data, read}

-- The buffer that a search of the table gives.
abbrev pub slot_buffer : List File → Option ℕ → Option Buffer
slot_buffer files none = none
slot_buffer files (some i) = (get_or files i free_file).buffer

abbrev pub look : List ℕ → List File → Option Buffer
look name files = slot_buffer files (find_index (is_file name) files)

pub read-look : (name : List ℕ) (s : State) → read name s ≡ look name s.files
unfolding read
read-look name s = elim (Option-cases (find_file name s)) [
  | inl e ↦ rw (e, read) refl
  | inr (i, e) ↦ rw (e, read) refl
]

module _ (name : List ℕ) (files : List File) (i : ℕ) (h : File → File) where
  abbrev pub slot : File
  slot = get_or files i free_file

  -- A write to a slot that has another name before and after is not seen.
  pub look-elsewhere :
      is_file name slot ≡ false
      → is_file name (h slot) ≡ false
      → look name (modify files i h) ≡ look name files
  look-elsewhere before after =
      rw (find_index-modify (is_file name) free_file files i h (after ∙ sym before))
        (elim (Option-cases (find_index (is_file name) files)) [
          | inl e ↦ rw e refl
          | inr (k, e) ↦
              let hit = find_index-some (is_file name) free_file files k e in
              let ne : i ≢ k = λ q. absurd (cc (before, hit.1, q)) in
              rw e (ap (λ (f : File). f.buffer) (get_or-modify_ne files i k h free_file ne))
        ])

  pub look-hit :
      find_index (is_file name) files ≡ some i
      → is_file name (h slot) ≡ true
      → look name (modify files i h) ≡ (h slot).buffer
  look-hit e after =
      let hit = find_index-some (is_file name) free_file files i e in
      rw (find_index-modify (is_file name) free_file files i h (after ∙ sym hit.1), e)
        (ap (λ (f : File). f.buffer) (get_or-modify_self files i h free_file hit.0))

  pub look-new :
      find_index (is_file name) files ≡ none
      → i < length files
      → is_file name (h slot) ≡ true
      → look name (modify files i h) ≡ (h slot).buffer
  look-new e l after =
      let all =
        subst (Finds (is_file name) free_file files) e
          (find_index-Finds (is_file name) free_file files) in
      rw (find_index-modify_new (is_file name) free_file files i h all l after)
        (ap (λ (f : File). f.buffer) (get_or-modify_self files i h free_file l))

modify_id : (files : List File) (i : ℕ) → modify files i (λ x. x) ≡ files
modify_id [] i = refl
modify_id (x ∷ xs) zero = refl
modify_id (x ∷ xs) (suc i) = ap (λ r. x ∷ r) (modify_id xs i)

modify_same :
    (files : List File) (i : ℕ) (f : File → File)
    → f (get_or files i free_file) ≡ get_or files i free_file
    → modify files i f ≡ files
modify_same [] i f h = refl
modify_same (x ∷ xs) zero f h = ap (λ y. y ∷ xs) h
modify_same (x ∷ xs) (suc i) f h = ap (λ r. x ∷ r) (modify_same xs i f h)

-- Saving a slot changes no more of the table than its `dirty`.
pub disk_save-files :
    (i : ℕ) (s : State)
    → (g : File → File) × (((disk_save i s).files ≡ modify s.files i g)
        × ((x : File) → (g x ≡ x) ⊎ (g x ≡ record x { dirty = false })))
unfolding disk_save
disk_save-files i s = elim (Option-cases s.disk) [
  | inl e ↦ (λ x. x, (rw e (sym (modify_id s.files i)), λ x. inl refl))
  | inr (d, e) ↦ elim (Bool-cases (file_at s i).tmpfs) [
    | inl t ↦ (λ x. x, (rw (e, t) (sym (modify_id s.files i)), λ x. inl refl))
    | inr t ↦ elim (Option-cases (file_at s i).buffer) [
      | inl b ↦ (λ x. x, (rw (e, t, b) (sym (modify_id s.files i)), λ x. inl refl))
      | inr (b, q) ↦ (λ x. record x { dirty = false }, (rw (e, t, q) refl, λ x. inr refl))
    ]
  ]
]

-- `fs_ensure_data` gives the slot's own buffer or a new one of 65536 bytes; it fails only for want
-- of memory.
pub ensure_data-files :
    (i : ℕ) (s : State)
    → ((ensure_data i s ≡ none) × (Heap.malloc 65536 s.heap ≡ none))
      ⊎ ((t : State) × (b : Buffer) × (ensure_data i s ≡ some t)
          × (t.files ≡ modify s.files i (λ f. record f { buffer = some b }))
          × (((file_at s i).buffer ≡ some b)
              ⊎ (((file_at s i).buffer ≡ none) × (length b.bytes ≡ 65536))))
unfolding ensure_data allocate
ensure_data-files i s = elim (Option-cases (file_at s i).buffer) [
  | inr (b, e) ↦ inr (
    s,
    b,
    rw (e, ensure_data) refl,
    sym (
        modify_same s.files i (λ f. record f { buffer = some b })
          (ap (λ o. record (file_at s i) { buffer = o }) (sym e))),
    inl e,
  )
  | inl e ↦ elim (Option-cases (Heap.malloc 65536 s.heap)) [
    | inl m ↦ inl (rw (e, ensure_data, m, allocate) refl, m)
    | inr ((addr, heap), m) ↦ inr (
      record s {
        heap = heap;
        files =
            modify s.files i
              (λ f. record f { buffer = some (record { addr = addr; bytes = replicate 65536 0 }) });
      },
      record { addr = addr; bytes = replicate 65536 0 },
      rw (e, ensure_data, m, allocate) refl,
      refl,
      inr (e, length-replicate {A = ℕ} 65536 0),
    )
  ]
]
