-- ===== src/Connect/Noting.antt =====
-- The list of slices that went by has each number once.
use udpcast_rs.Base.{
  ℕ, ◌^◌, ◌<◌, ◌≡◌, refl, arith, Bool, false, ◌||◌, ◌==◌, List, [], ◌∷◌, Bool-cases, inl, inr, ◌∙◌,
}
use udpcast_rs.Connect.{Late, note}

-- Is the number in the list?
unfoldable pub knows : ℕ → List Late → Bool
knows n [] = false
knows n (e ∷ es) = e.slice_no == n || knows n es

-- No number is there twice, and none is negative as an i32.
unfoldable pub NoTwice : List Late → Type 0
NoTwice [] = Unit
NoTwice (e ∷ es) = (knows e.slice_no es ≡ false) × (e.slice_no < 2 ^ 31) × NoTwice es

pub knows-note :
    (n : ℕ) (l : Late) (es : List Late) → knows n (note l es) ≡ (l.slice_no == n || knows n es)
unfolding knows note
knows-note n l [] = refl
knows-note n l (e ∷ es) = elim (Bool-cases (e.slice_no == l.slice_no)) [
  | inl h ↦ ground (arith, h)
  | inr h ↦ ground (arith, h, knows-note n l es)
]

pub note-NoTwice :
    (l : Late) (es : List Late) → l.slice_no < 2 ^ 31 → NoTwice es → NoTwice (note l es)
unfolding NoTwice note knows
note-NoTwice l [] lt h = (refl, lt, tt)
note-NoTwice l (e ∷ es) lt (fresh, small, rest) = elim (Bool-cases (e.slice_no == l.slice_no)) [
  | inl h ↦ rw h (fresh, small, rest)
  | inr h ↦
      rw h (knows-note e.slice_no l es ∙ ground (arith, h, fresh), small, note-NoTwice l es lt rest)
]
