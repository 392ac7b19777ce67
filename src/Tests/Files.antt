-- ===== src/Tests/Files.antt =====
-- The file system, the inode layer and shared memory at concrete tables.
use sistem_operasi.Base.{
  ℕ, zero, suc, ◌≡◌, refl, true, false, none, some, [], ◌∷◌, arith, inl, inr, ◌⊎◌, str_eq,
  find_index, ltb, pos, minus_one, not,
}
use sistem_operasi.Fs
use sistem_operasi.Fs.{File, Sectors, free_file, file_at}
use sistem_operasi.Fs.Write.{write}
use sistem_operasi.Fs.Reading.{Wrote, CanTake, read-write}
use sistem_operasi.Mfs4
use sistem_operasi.Mfs4.{
  Inode, Kind, free_inode, find_inode, resolve, resolve_from, add_hardlink, unlink,
}
use sistem_operasi.Mfs4.Resolve.{Outcome, resolve-Outcome}
use sistem_operasi.Mfs4.Links.{unlink-add_hardlink}
use sistem_operasi.Shm
use sistem_operasi.Shm.{empty_slot, find_slot, is_taken}
use sistem_operasi.Shm.Keys.{find-create}
use sistem_operasi.Frames

-- A binary file of two bytes under the name "b", and a free slot.
abbrev binary : File
binary = record free_file {
  name = 98 ∷ [];
  size = 2;
  used = true;
  perms = 7;
  buffer = some (record { addr = 0x100010; bytes = 7 ∷ 9 ∷ [] });
}

abbrev disk_files : Fs.State
disk_files = record {
  files = binary ∷ free_file ∷ [];
  heap = record { size = 4; free = false } ∷ record { size = 0x5FFFDC; free = true } ∷ [];
  disk = none;
}

slots_take : (i : ℕ) → CanTake (97 ∷ []) (104 ∷ 105 ∷ []) (file_at disk_files i)
unfolding str_eq
slots_take zero = inl refl
slots_take (suc zero) = inr (inl refl)
slots_take (suc (suc i)) = inr (inl refl)

read-write_example :
    Wrote
      (97 ∷ [])
      (98 ∷ [])
      (104 ∷ 105 ∷ [])
      disk_files
      (write (97 ∷ []) (104 ∷ 105 ∷ []) 5 disk_files)
read-write_example =
    read-write (97 ∷ []) (98 ∷ []) (104 ∷ 105 ∷ []) 5 disk_files (omega arith) (omega arith)
      (omega arith) slots_take

-- A disk on which nothing is written, and a system that has just started.
abbrev blank_disk : Sectors
blank_disk j = none

abbrev on_disk : Fs.State
on_disk = record disk_files { disk = some blank_disk }

abbrev restarted : Fs.State
restarted = record {
  files = free_file ∷ free_file ∷ [];
  heap = record { size = 0x5FFFF4; free = true } ∷ [];
  disk = none;
}

-- "l" is a symbolic link to the file "a".
abbrev link_inode : Inode
link_inode = record {
  kind = Kind.symlink;
  used = true;
  inode_id = 2;
  path = 108 ∷ [];
  target = 97 ∷ [];
  ctime = 0;
  mtime = 0;
}

abbrev file_inode : Inode
file_inode = record link_inode { kind = Kind.file; inode_id = 1; path = 97 ∷ [] }

abbrev inodes : Mfs4.State
inodes = record {
  inodes = link_inode ∷ file_inode ∷ free_inode ∷ [];
  next_inode_id = 3;
  fs = disk_files;
}

-- "p" and "q" are links to each other.
abbrev cycle : Mfs4.State
cycle = record inodes {
  inodes =
      record link_inode { path = 112 ∷ []; target = 113 ∷ [] }
      ∷ record link_inode { path = 113 ∷ []; target = 112 ∷ [] }
      ∷ [];
}

resolve-Outcome_example : Outcome cycle 8 (112 ∷ []) (resolve (112 ∷ []) 8 cycle)
resolve-Outcome_example = resolve-Outcome (112 ∷ []) 8 cycle

resolved : resolve (112 ∷ []) 8 cycle ≡ []
unfolding resolve_from find_index str_eq
resolved = refl

followed : resolve (108 ∷ []) 8 inodes ≡ 97 ∷ []
unfolding resolve_from find_index str_eq
followed = refl

link_found : find_inode (97 ∷ []) inodes ≡ some 1
unfolding find_index str_eq
link_found = refl

fresh_path : find_inode (104 ∷ []) inodes ≡ none
unfolding find_index str_eq
fresh_path = refl

free_third :
    find_index (λ (nd : Inode). not nd.used) (link_inode ∷ file_inode ∷ free_inode ∷ []) ≡ some 2
unfolding find_index
free_third = refl

unlink-add_hardlink_example :
    ((add_hardlink (104 ∷ []) (97 ∷ []) 5 inodes).1 ≡ true)
    × (((unlink (104 ∷ []) (add_hardlink (104 ∷ []) (97 ∷ []) 5 inodes).0).1 ≡ true)
        × (((unlink (104 ∷ []) (add_hardlink (104 ∷ []) (97 ∷ []) 5 inodes).0).0.fs ≡ disk_files)
            × (find_inode
                  (108 ∷ [])
                  (unlink (104 ∷ []) (add_hardlink (104 ∷ []) (97 ∷ []) 5 inodes).0).0
                ≡ find_inode (108 ∷ []) inodes)))
unlink-add_hardlink_example =
    unlink-add_hardlink (104 ∷ []) (97 ∷ []) (108 ∷ []) 5 1 2 inodes (omega arith) fresh_path
      link_found refl free_third

abbrev regions : Shm.State
regions = record { slots = empty_slot ∷ []; frames = λ j. ltb j 2048 }

find-create_example :
    ((i : ℕ) × (((Shm.create (107 ∷ []) regions).1 ≡ pos i)
        × ((Shm.find (107 ∷ []) (Shm.create (107 ∷ []) regions).0 ≡ pos i)
            × (Shm.create (107 ∷ []) (Shm.create (107 ∷ []) regions).0
                ≡ ((Shm.create (107 ∷ []) regions).0, pos i)))))
    ⊎ (((Shm.create (107 ∷ []) regions).1 ≡ minus_one)
        × ((find_slot (107 ∷ []) regions ≡ none)
            × ((find_index (λ (x : Shm.Slot). not (is_taken x)) (empty_slot ∷ []) ≡ none)
                ⊎ ((Frames.alloc_frame (λ j. ltb j 2048)).1 ≡ 0))))
find-create_example = find-create (107 ∷ []) regions (omega arith)
