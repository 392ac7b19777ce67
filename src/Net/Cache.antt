-- ===== src/Net/Cache.antt =====
-- The ARP cache of src/kernel/net.c as a map from addresses to hardware addresses.
use sistem_operasi.Base.{
  ℕ, ◌≡◌, refl, sym, ap, ap₂, ◌∙◌, true, false, ◌||◌, not, Option, none, some, List, [], ◌∷◌,
  length, arith, if◌then◌else◌, ◌==◌, ==_iff, and_left, and_right, Bool-cases, inl, inr, find_index,
  next_slot,
}
use sistem_operasi.Net.{ArpEntry, meq}
use sistem_operasi.Net.Arp.{takes, holds, arp_cache_put, mac_at, arp_cache_get}

-- Texts of the same length that `meq` finds equal are equal.
pub meq→eq : (xs ys : List ℕ) → length xs ≡ length ys → meq xs ys ≡ true → xs ≡ ys
unfolding meq
meq→eq [] [] l h = refl
meq→eq [] (y ∷ ys) l h = absurd (omega arith)
meq→eq (x ∷ xs) [] l h = absurd (omega arith)
meq→eq (x ∷ xs) (y ∷ ys) l h =
    ap₂ ◌∷◌ ((==_iff x y).0 (and_left (x == y) (meq xs ys) h))
      (meq→eq xs ys (omega arith) (and_right (x == y) (meq xs ys) h))

-- Every address in the cache has four bytes.
abbrev pub AreWide : List ArpEntry → Type 0
AreWide [] = Unit {0}
AreWide (e ∷ es) = (length e.ip ≡ 4) × AreWide es

mac_at-next :
    (o : Option ℕ) (e : ArpEntry) (es : List ArpEntry) → mac_at (next_slot o) (e ∷ es) ≡ mac_at o es
mac_at-next none e es = refl
mac_at-next (some i) e es = refl

-- The cache with one entry more in front, for an address that the entry is not for.
get-skip :
    (ip : List ℕ) (e : ArpEntry) (es : List ArpEntry)
    → holds ip e ≡ false
    → arp_cache_get ip (e ∷ es) ≡ arp_cache_get ip es
unfolding arp_cache_get find_index
get-skip ip e es h = rw h (mac_at-next (find_index (holds ip) es) e es)

get-hit :
    (ip : List ℕ) (e : ArpEntry) (es : List ArpEntry)
    → holds ip e ≡ true
    → arp_cache_get ip (e ∷ es) ≡ some e.mac
unfolding arp_cache_get find_index
get-hit ip e es h = rw h refl

put-hit :
    (ip mac : List ℕ) (e : ArpEntry) (es : List ArpEntry)
    → takes ip e ≡ true
    → arp_cache_put ip mac (e ∷ es) ≡ record { ip = ip; mac = mac; valid = true } ∷ es
unfolding arp_cache_put find_index
put-hit ip mac e es h = rw h refl

put-skip :
    (ip mac : List ℕ) (e : ArpEntry) (es : List ArpEntry) (i : ℕ)
    → takes ip e ≡ false
    → find_index (takes ip) es ≡ some i
    → arp_cache_put ip mac (e ∷ es) ≡ e ∷ arp_cache_put ip mac es
unfolding arp_cache_put find_index
put-skip ip mac e es i h r = rw (h, r) refl

-- An entry that takes `ip` is not for another address.
taken-other :
    (ip j : List ℕ) (e : ArpEntry)
    → length ip ≡ 4
    → length e.ip ≡ 4
    → takes ip e ≡ true
    → meq ip j ≡ false
    → holds j e ≡ false
taken-other ip j e li le h other = elim (Bool-cases e.valid) [
  | inr old ↦ rw old refl
  | inl live ↦
      let same : meq e.ip ip ≡ true = rw live at h in
      rw (live, meq→eq e.ip ip (le ∙ sym li) same, other) refl
]

-- An entry that is for another address does not take `ip`.
kept-other :
    (ip j : List ℕ) (e : ArpEntry)
    → length ip ≡ 4
    → length j ≡ 4
    → takes ip e ≡ false
    → holds j e ≡ true
    → meq ip j ≡ false
kept-other ip j e li lj miss here = elim (Bool-cases (meq ip j)) [
  | inr other ↦ other
  | inl same ↦
      let hit : meq e.ip ip ≡ true =
        ap (meq e.ip) (meq→eq ip j (li ∙ sym lj) same) ∙ and_right e.valid (meq e.ip j) here in
      let live : e.valid ≡ true = and_left e.valid (meq e.ip j) here in
      let split : (not e.valid || meq e.ip ip) ≡ true = rw (live, hit) refl in cc
]

-- A slot found behind the first one.
later-slot : (o : Option ℕ) {i : ℕ} → next_slot o ≡ some i → (k : ℕ) × (o ≡ some k)
later-slot none h = cc
later-slot (some k) h = (k, refl)

-- With room for the address or an entry for it, `arp_cache_put` of `ip` makes `arp_cache_get` give the
-- hardware address for `ip` and what it gave before for every other address of four bytes.
pub get-put :
    (ip mac j : List ℕ) (es : List ArpEntry) (i : ℕ)
    → length ip ≡ 4
    → length j ≡ 4
    → AreWide es
    → find_index (takes ip) es ≡ some i
    → arp_cache_get j (arp_cache_put ip mac es)
      ≡ (if meq ip j then some mac else arp_cache_get j es)
unfolding find_index
get-put ip mac j [] i li lj wide room = cc
get-put ip mac j (e ∷ es) i li lj (le, wide) room = elim (Bool-cases (takes ip e)) [
  | inl hit ↦
      let new : ArpEntry = record { ip = ip; mac = mac; valid = true } in
      rw (put-hit ip mac e es hit) (elim (Bool-cases (meq ip j)) [
        | inl same ↦ rw same (get-hit j new es same)
        | inr other ↦
            rw other
              (get-skip j new es other ∙ sym (get-skip j e es (taken-other ip j e li le hit other)))
      ])
  | inr miss ↦
      let (k, r) = later-slot (find_index (takes ip) es) (rw miss at room) in
      rw (put-skip ip mac e es k miss r) (elim (Bool-cases (holds j e)) [
        | inl here ↦
            rw
              (
                kept-other ip j e li lj miss here,
                get-hit j e (arp_cache_put ip mac es) here,
                get-hit j e es here,
              )
              refl
        | inr away ↦
            rw (get-skip j e (arp_cache_put ip mac es) away, get-skip j e es away)
              (get-put ip mac j es k li lj wide r)
      ])
]
