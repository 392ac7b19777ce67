-- ===== src/Shm/Keys.antt =====
-- Keys: a region is found again under the key it was created with.
use mathlib.Core.Path.{subst}
use sistem_operasi.Base.{
  ℕ, ◌<◌, ◌≡◌, refl, sym, ap, ◌∙◌, true, not, none, some, List, ◌⊎◌, inl, inr, Bool-cases,
  Option-cases, ◌==◌, ==_iff, str_eq_refl, take_all, length, get_or, modify, arith, pos, minus_one,
  find_index, Finds, find_index-Finds, find_index-some, find_index-modify_new,
}
use sistem_operasi.Frames
use sistem_operasi.Shm.{
  State, Slot, empty_slot, has_key, is_taken, find_slot, find, create, take_slot,
}

-- Under a key of less than 16 bytes `shm_create` returns a slot that `shm_find` then gives for the
-- key, and a second `shm_create` gives the same slot and changes nothing. It returns -1 only when
-- the key is new and no slot is empty or no frame is free.
pub find-create :
    (key : List ℕ) (s : State)
    → length key < 16
    → ((i : ℕ) × (((create key s).1 ≡ pos i)
          × ((find key (create key s).0 ≡ pos i)
              × (create key (create key s).0 ≡ ((create key s).0, pos i)))))
      ⊎ (((create key s).1 ≡ minus_one)
          × ((find_slot key s ≡ none)
              × ((find_index (λ (x : Slot). not (is_taken x)) s.slots ≡ none)
                  ⊎ ((Frames.alloc_frame s.frames).1 ≡ 0))))
unfolding create find
find-create key s short = elim (Option-cases (find_slot key s)) [
  | inr (i, e) ↦
      let run : create key s ≡ (s, pos i) = rw (e, create) refl in
      inl (
        i,
        (
          ap (λ p. p.1) run,
          (
            ap (λ p. find key p.0) run ∙ (rw (e, find) refl),
            ap (λ p. create key p.0) run ∙ (run ∙ ap (λ p. (p.0, pos i)) (sym run)),
          ),
        ),
      )
  | inl e ↦ elim (Option-cases (find_index (λ (x : Slot). not (is_taken x)) s.slots)) [
    | inl full ↦
        let run : create key s ≡ (s, minus_one) = rw (e, create, full) refl in
        inr (ap (λ p. p.1) run, (e, inl full))
    | inr (i, n) ↦ elim (Bool-cases ((Frames.alloc_frame s.frames).1 == 0)) [
      | inl z ↦
          let frame = (Frames.alloc_frame s.frames).1 in
          let run : create key s
              ≡ (record s { frames = (Frames.alloc_frame s.frames).0 }, minus_one) =
            rw (e, create, n, z) refl in
          inr (ap (λ p. p.1) run, (e, inr ((==_iff frame 0).0 z)))
      | inr z ↦
          let (frames, frame) = Frames.alloc_frame s.frames in
          let t = record s { frames = frames; slots = modify s.slots i (take_slot key frame) } in
          let run : create key s ≡ (t, pos i) = rw (e, create, n, z) refl in
          let hit = find_index-some (λ (x : Slot). not (is_taken x)) empty_slot s.slots i n in
          let named : has_key key (take_slot key frame (get_or s.slots i empty_slot)) ≡ true =
            rw (z, take_all 15 key (omega arith)) (str_eq_refl key) in
          let found : find_slot key t ≡ some i =
            find_index-modify_new (has_key key) empty_slot s.slots i (take_slot key frame)
              (subst (Finds (has_key key) empty_slot s.slots) e
                (find_index-Finds (has_key key) empty_slot s.slots))
              hit.0 named in
          let again : create key t ≡ (t, pos i) = rw (found, create) refl in
          inl (
            i,
            (
              ap (λ p. p.1) run,
              (
                ap (λ p. find key p.0) run ∙ (rw (found, find) refl),
                ap (λ p. create key p.0) run ∙ (again ∙ ap (λ p. (p.0, pos i)) (sym run)),
              ),
            ),
          )
    ]
  ]
]
