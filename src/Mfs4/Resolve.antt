-- ===== src/Mfs4/Resolve.antt =====
-- Following symbolic links.
use sistem_operasi.Base.{
  ℕ, zero, suc, ◌≡◌, refl, true, false, none, some, List, [], ◌⊎◌, inl, inr, str_copy, arith, ◌<◌,
  take, Option-cases, Bool-cases,
}
use sistem_operasi.Mfs4.{State, inode_at, find_inode, is_symlink, resolve_from, resolve}

-- A path that is no symbolic link.
abbrev pub IsSettled : State → List ℕ → Type 0
IsSettled s path =
    (find_inode path s ≡ none)
    ⊎ ((i : ℕ) × ((find_inode path s ≡ some i) × (is_symlink (inode_at s i).kind ≡ false)))

-- `n` symbolic links lead from one path to another.
pub data Chain (s : State) : ℕ → List ℕ → List ℕ → Type 0 where
  here : {path : List ℕ} → Chain s zero path path
  follow :
      {n : ℕ} {path end : List ℕ} (i : ℕ)
      → find_inode path s ≡ some i
      → is_symlink (inode_at s i).kind ≡ true
      → Chain s n (str_copy 64 (inode_at s i).target) end
      → Chain s (suc n) path end

-- What following links from a path leads to: a path that is no link, by fewer than `d` links, or
-- nothing, where `d` links can be followed.
abbrev pub Outcome : State → ℕ → List ℕ → List ℕ → Type 0
Outcome s d path result =
    ((n : ℕ) × (n < d) × Chain s n path result × IsSettled s result)
    ⊎ ((end : List ℕ) × Chain s d path end × (result ≡ []))

-- One more link in front.
follow-Outcome :
    (d i : ℕ) (path result : List ℕ) (s : State)
    → find_inode path s ≡ some i
    → is_symlink (inode_at s i).kind ≡ true
    → Outcome s d (str_copy 64 (inode_at s i).target) result
    → Outcome s (suc d) path result
follow-Outcome d i path result s e k (inl (n, lt, c, settled)) =
    inl (suc n, omega arith, Chain.follow i e k c, settled)
follow-Outcome d i path result s e k (inr (end, c, empty)) = inr (end, Chain.follow i e k c, empty)

resolve_from-Outcome :
    (d : ℕ) (path : List ℕ) (s : State) → Outcome s d path (resolve_from d path s)
unfolding resolve_from
resolve_from-Outcome zero path s = inr (path, Chain.here, refl)
resolve_from-Outcome (suc d) path s = elim (Option-cases (find_inode path s)) [
  | inl e ↦ rw (e, resolve_from) (inl (0, omega arith, Chain.here, inl e))
  | inr (i, e) ↦ elim (Bool-cases (is_symlink (inode_at s i).kind)) [
    | inr k ↦ rw (e, resolve_from, k) (inl (0, omega arith, Chain.here, inr (i, (e, k))))
    | inl k ↦
        rw (e, resolve_from, k)
          (follow-Outcome d i path _ s e k
            (resolve_from-Outcome d (str_copy 64 (inode_at s i).target) s))
  ]
]

-- `mfs4_resolve` with `d` rounds cuts its path to 63 bytes; from there it either follows fewer than `d`
-- symbolic links to a path that is none, which it returns, or `d` links can be followed, as on every
-- cycle, and it returns the empty path.
pub resolve-Outcome :
    (path : List ℕ) (d : ℕ) (s : State) → Outcome s d (take 63 path) (resolve path d s)
resolve-Outcome path d s = resolve_from-Outcome d (take 63 path) s
