-- ===== src/Mfs4/Links.antt =====
-- Adding a hard link and taking it away again.
use mathlib.Core.Path.{subst}
use sistem_operasi.Base.{
  modify-modify, ℕ, zero, suc, ◌≤◌, ◌<◌, ◌≡◌, refl, ap, ◌∙◌, true, false, ◌&&◌, not, none, some,
  List, [], ◌∷◌, leb, str_eq, str_eq_refl, take_all, length, get_or, modify, arith,
  get_or-modify_self, and_left, find_index, Finds, find_index-Finds, find_index-some,
  find_index-modify, find_index-modify_new, ==_refl,
}
use sistem_operasi.Mfs4.{
  Inode, Kind, State, inode_at, on_inode, free_inode, has_path, find_inode, alloc_inode, is_file,
  fill, shares, count_refs, add_hardlink, unlink,
}

-- Filling a slot that is not in use with a file of the number adds one to the count.
count_refs-modify :
    (id : ℕ) (nds : List Inode) (i : ℕ) (f : Inode → Inode)
    → i < length nds
    → shares id (get_or nds i free_inode) ≡ false
    → shares id (f (get_or nds i free_inode)) ≡ true
    → count_refs id (modify nds i f) ≡ suc (count_refs id nds)
unfolding count_refs
count_refs-modify id [] i f l before after = absurd (omega arith)
count_refs-modify id (nd ∷ nds) zero f l before after = rw (before, after) (omega arith)
count_refs-modify id (nd ∷ nds) (suc i) f l before after =
    omega (arith, count_refs-modify id nds i f (omega arith) before after)

count_refs_pos :
    (id : ℕ) (nds : List Inode) (o : ℕ)
    → o < length nds
    → shares id (get_or nds o free_inode) ≡ true
    → 1 ≤ count_refs id nds
unfolding count_refs
count_refs_pos id [] o l h = absurd (omega arith)
count_refs_pos id (nd ∷ nds) zero l h = rw h (omega arith)
count_refs_pos id (nd ∷ nds) (suc o) l h = omega (arith, count_refs_pos id nds o (omega arith) h)

-- For an original of the table, a new path of less than 64 bytes and a free slot, `mfs4_hardlink`
-- and then `mfs4_unlink` of the new path both succeed, leave the files as they were, and leave each
-- path with the inode that it had.
pub unlink-add_hardlink :
    (link original other : List ℕ) (tick o i : ℕ) (s : State)
    → length link < 64
    → find_inode link s ≡ none
    → find_inode original s ≡ some o
    → is_file (inode_at s o).kind ≡ true
    → alloc_inode s ≡ some i
    → ((add_hardlink link original tick s).1 ≡ true)
      × (((unlink link (add_hardlink link original tick s).0).1 ≡ true)
          × (((unlink link (add_hardlink link original tick s).0).0.fs ≡ s.fs)
              × (find_inode other (unlink link (add_hardlink link original tick s).0).0
                  ≡ find_inode other s)))
unfolding add_hardlink unlink
unlink-add_hardlink link original other tick o i s short fresh found file_kind free =
    let orig = inode_at s o in
    let put : Inode → Inode = fill Kind.file orig.inode_id link orig.target tick in
    let off : Inode → Inode = λ n. record n { used = false } in
    let added : add_hardlink link original tick s ≡ (on_inode i put s, true) =
      rw (fresh, add_hardlink, found, file_kind, free) refl in
    let hit = find_index-some (λ (nd : Inode). not nd.used) free_inode s.inodes i free in
    let own = find_index-some (has_path original) free_inode s.inodes o found in
    let idle : (inode_at s i).used ≡ false = ground (arith, hit.1) in
    let s1 = on_inode i put s in
    let at1 : inode_at s1 i ≡ put (inode_at s i) =
      get_or-modify_self s.inodes i put free_inode hit.0 in
    let named : has_path link (put (inode_at s i)) ≡ true =
      rw (take_all 63 link (omega arith)) (str_eq_refl link) in
    let found1 : find_inode link s1 ≡ some i =
      find_index-modify_new (has_path link) free_inode s.inodes i put
        (subst (Finds (has_path link) free_inode s.inodes) fresh
          (find_index-Finds (has_path link) free_inode s.inodes))
        hit.0 named in
    let id = orig.inode_id in
    let original_counts : shares id (inode_at s o) ≡ true =
      rw (and_left (inode_at s o).used (str_eq (inode_at s o).path original) own.1, file_kind)
        (==_refl id) in
    let one = count_refs_pos id s.inodes o own.0 original_counts in
    let more = count_refs-modify id s.inodes i put hit.0 (rw idle refl) (==_refl id) in
    let shared : leb (count_refs id s1.inodes) 1 ≡ false = ground (arith, one, more) in
    let last : (is_file (inode_at s1 i).kind
          && leb (count_refs (inode_at s1 i).inode_id s1.inodes) 1)
        ≡ false =
      rw at1 shared in
    let gone : unlink link s1 ≡ (on_inode i off s1, true) = rw (found1, unlink, last) refl in
    let run : unlink link (add_hardlink link original tick s).0 ≡ (on_inode i off s1, true) =
      ap (λ p. unlink link p.0) added ∙ gone in
    (
      ap (λ p. p.1) added,
      (
        ap (λ p. p.1) run,
        (
          ap (λ p. p.0.fs) run,
          ap (λ p. find_inode other p.0) run
              ∙ (ap (find_index (has_path other)) (modify-modify s.inodes i put off)
                  ∙ find_index-modify (has_path other) free_inode s.inodes i (λ x. off (put x))
                      (rw idle refl)),
        ),
      ),
    )
