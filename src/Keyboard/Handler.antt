-- ===== src/Keyboard/Handler.antt =====
-- What a scan code does to the ring of typed bytes.
use sistem_operasi.Base.{
  ℕ, ◌+◌, ◌-◌, ◌≡◌, refl, ap, Bool, true, false, ◌&&◌, Option, none, some, List, [], ◌∷◌, ◌++◌, ◌⊎◌,
  inl, inr, Bool-cases, Option-cases, if◌then◌else◌, leb, ltb, ◌==◌, ==_iff, arith,
}
use sistem_operasi.Ring.Queue.{IsRing, count, contents, push-room, push-full}
use sistem_operasi.Keyboard.{
  State, push_key, push_some, handle_modifier, handle_extended, handle_function, handle_plain,
  handler, translate, wake, interrupt, extended_key,
}

-- The bytes that wait to be read, oldest first.
abbrev pub typed : State → List ℕ
typed s = contents 64 0 s.ring

-- The ring is whole, and holds what it held or one byte more.
abbrev pub Grows : State → State → Type 0
Grows s t = IsRing 64 t.ring × ((typed t ≡ typed s) ⊎ ((c : ℕ) × (typed t ≡ typed s ++ (c ∷ []))))

same-Grows : (s t : State) → IsRing 64 s.ring → t.ring ≡ s.ring → Grows s t
same-Grows s t v e = (rw e v, inl (ap (contents 64 0) e))

push_key-Grows : (c : ℕ) (s : State) → IsRing 64 s.ring → Grows s (push_key c s)
unfolding push_key
push_key-Grows c s v = elim (Bool-cases (count 64 s.ring == 63)) [
  | inl full ↦
      rw (push-full c s.ring v ((==_iff (count 64 s.ring) 63).0 full), push_key) (v, inl refl)
  | inr room ↦
      let (r, ok, w, e, n) = push-room 0 c s.ring v (ground arith) in
      rw (ok, push_key) (w, inr (c, e))
]

handle_modifier-ring : (sc : ℕ) (s t : State) → handle_modifier sc s ≡ some t → t.ring ≡ s.ring
unfolding handle_modifier
handle_modifier-ring sc s t e = ground arith

if-Grows : (b : Bool) (s t u : State) → Grows s t → Grows s u → Grows s (if b then t else u)
if-Grows true s t u p q = p
if-Grows false s t u p q = q

choice-Grows :
    (b : Bool) (s : State) (p q : State × Option ℕ)
    → Grows s p.0
    → Grows s q.0
    → Grows s (if b then p else q).0
choice-Grows true s p q g h = g
choice-Grows false s p q g h = h

interrupt-ring : (s : State) → (interrupt s).ring ≡ s.ring
interrupt-ring s = ground arith

handle_plain-Grows : (sc : ℕ) (s : State) → IsRing 64 s.ring → Grows s (handle_plain sc s)
unfolding handle_plain
handle_plain-Grows sc s v =
    let key = λ (c : ℕ). push_key-Grows c s v in
    let same = same-Grows s s v refl in
    let text =
      if-Grows (translate sc s == 0) s s (push_key (translate sc s) s) same
        (key (translate sc s)) in
    let held : Grows s (interrupt s) = same-Grows s (interrupt s) v (interrupt-ring s) in
    if-Grows (sc == 0x0E) s (wake (push_key 8 s)) _ (key 8) (
      if-Grows (sc == 0x1C) s (wake (push_key 10 s)) _ (key 10) (
        if-Grows (sc == 0x01) s (wake (push_key 0x1B s)) _ (key 0x1B) (
          if-Grows (ltb sc 58) s _ (wake s)
            (if-Grows (s.ctrl && (sc == 0x2E)) s (interrupt s) (wake (push_some (translate sc s) s))
              held text)
            same)))

handle_extended-Grows : (sc : ℕ) (s : State) → IsRing 64 s.ring → Grows s (handle_extended sc s)
unfolding handle_extended
handle_extended-Grows sc s v = elim (Option-cases (extended_key sc)) [
  | inl e ↦ rw (e, handle_extended) (v, inl refl)
  | inr (key, e) ↦ rw (e, handle_extended) (push_key-Grows key (record s { extended = false }) v)
]

handle_function-Grows : (sc : ℕ) (s : State) → IsRing 64 s.ring → Grows s (handle_function sc s).0
unfolding handle_function
handle_function-Grows sc s v = elim (Bool-cases (s.ctrl && (s.alt && ltb (sc - 0x3B) 6))) [
  | inl h ↦ rw h (same-Grows s s v refl)
  | inr h ↦ rw h (push_key-Grows (16 + (sc - 0x3B)) s v)
]

-- On a whole ring, each scan code leaves the typed bytes as they were or adds one behind them; the
-- ring stays whole.
pub handler-Grows : (sc : ℕ) (s : State) → IsRing 64 s.ring → Grows s (handler sc s).0
unfolding handler
handler-Grows sc s v = elim (Option-cases (handle_modifier sc s)) [
  | inr (t, e) ↦ rw (e, handler) (same-Grows s t v (handle_modifier-ring sc s t e))
  | inl e ↦
      rw (e, handler)
        (choice-Grows s.extended s (handle_extended sc s, none) _ (handle_extended-Grows sc s v)
          (choice-Grows (sc == 0x0F) s (wake (push_key 3 s), none) _ (push_key-Grows 3 s v)
            (choice-Grows (leb 0x3B sc && leb sc 0x44) s (handle_function sc s)
              (handle_plain sc s, none) (handle_function-Grows sc s v)
              (handle_plain-Grows sc s v))))
]

-- After the codes 0xE0 and 0x1D of the right Ctrl key, the next code that is no modifier and no
-- arrow or Delete is lost: all that the three codes have changed is that Ctrl is held and no code is
-- expected to be an extended one; no terminal is switched to.
pub handler-right_ctrl :
    (sc : ℕ) (s : State)
    → ((t : State) → handle_modifier sc t ≡ none)
    → extended_key sc ≡ none
    → handler sc (handler 0x1D (handler 0xE0 s).0).0
      ≡ (record s { extended = false; ctrl = true }, none)
unfolding handler handle_modifier handle_extended
handler-right_ctrl sc s plain key =
    rw (plain (record s { extended = true; ctrl = true }), handler, key, handle_extended) refl
