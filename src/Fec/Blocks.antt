-- ===== src/Fec/Blocks.antt =====
-- Blocks of bytes as vectors over the field: `mul` and `addmul` as operations on whole blocks.
use udpcast_rs.Base.{
  ℕ, zero, suc, ◌<◌, ◌≡◌, ◌≢◌, refl, sym, ap, ap₂, ◌∙◌, arith, [], ◌∷◌, some, Bytes, bit_xor,
  bit_xor-lt, bit_xor_assoc, bit_xor_comm, bit_xor_self, bit_xor-zero,
}
use udpcast_rs.Fec.{gf_mul, addmul, addmul_loop, mul, mul_loop}
use udpcast_rs.Fec.Field.{gf_mul-lt, gf_mul_assoc, one-gf_mul}

-- A block of `n` bytes.
abbrev pub IsBlock : ℕ → Bytes → Type 0
IsBlock zero [] = Unit
IsBlock zero (x ∷ xs) = ⊥
IsBlock (suc n) [] = ⊥
IsBlock (suc n) (x ∷ xs) = (x < 256) × IsBlock n xs

-- The product with a field element, and the sum.
abbrev pub scale : ℕ → Bytes → Bytes
scale c [] = []
scale c (x ∷ xs) = gf_mul c x ∷ scale c xs

abbrev pub plus : Bytes → Bytes → Bytes
plus [] ys = []
plus (x ∷ xs) [] = []
plus (x ∷ xs) (y ∷ ys) = bit_xor x y ∷ plus xs ys

pub scale-IsBlock : (n c : ℕ) (v : Bytes) → c < 256 → IsBlock n v → IsBlock n (scale c v)
scale-IsBlock zero c [] lc b = tt
scale-IsBlock zero c (x ∷ xs) lc b = b
scale-IsBlock (suc n) c [] lc b = b
scale-IsBlock (suc n) c (x ∷ xs) lc b = (gf_mul-lt c x lc b.0, scale-IsBlock n c xs lc b.1)

pub plus-IsBlock : (n : ℕ) (v w : Bytes) → IsBlock n v → IsBlock n w → IsBlock n (plus v w)
plus-IsBlock zero [] w b b' = tt
plus-IsBlock zero (x ∷ xs) w b b' = elim b [ ]
plus-IsBlock (suc n) [] w b b' = b
plus-IsBlock (suc n) (x ∷ xs) [] b b' = b'
plus-IsBlock (suc n) (x ∷ xs) (y ∷ ys) b b' =
    (bit_xor-lt 8 x y b.0 b'.0, plus-IsBlock n xs ys b.1 b'.1)

pub plus_assoc : (u v w : Bytes) → plus (plus u v) w ≡ plus u (plus v w)
plus_assoc [] v w = refl
plus_assoc (x ∷ xs) [] w = refl
plus_assoc (x ∷ xs) (y ∷ ys) [] = refl
plus_assoc (x ∷ xs) (y ∷ ys) (z ∷ zs) =
    ap₂ (λ h t. h ∷ t) (bit_xor_assoc x y z) (plus_assoc xs ys zs)

pub plus_comm : (v w : Bytes) → plus v w ≡ plus w v
plus_comm [] [] = refl
plus_comm [] (y ∷ ys) = refl
plus_comm (x ∷ xs) [] = refl
plus_comm (x ∷ xs) (y ∷ ys) = ap₂ (λ h t. h ∷ t) (bit_xor_comm x y) (plus_comm xs ys)

-- Adding a block twice changes nothing.
pub plus_twice : (n : ℕ) (v w : Bytes) → IsBlock n v → IsBlock n w → plus (plus v w) w ≡ v
plus_twice zero [] w b b' = refl
plus_twice zero (x ∷ xs) w b b' = elim b [ ]
plus_twice (suc n) [] w b b' = refl
plus_twice (suc n) (x ∷ xs) [] b b' = elim b' [ ]
plus_twice (suc n) (x ∷ xs) (y ∷ ys) b b' =
    ap₂ (λ h t. h ∷ t) (bit_xor_assoc x y y ∙ ap (bit_xor x) (bit_xor_self y) ∙ bit_xor-zero x)
      (plus_twice n xs ys b.1 b'.1)

pub scale-scale :
    (n c d : ℕ) (v : Bytes)
    → c < 256
    → d < 256
    → IsBlock n v
    → scale c (scale d v) ≡ scale (gf_mul c d) v
scale-scale zero c d [] lc ld b = refl
scale-scale zero c d (x ∷ xs) lc ld b = elim b [ ]
scale-scale (suc n) c d [] lc ld b = refl
scale-scale (suc n) c d (x ∷ xs) lc ld b =
    ap₂ (λ h t. h ∷ t) (sym (gf_mul_assoc c d x lc ld b.0)) (scale-scale n c d xs lc ld b.1)

pub one-scale : (n : ℕ) (v : Bytes) → IsBlock n v → scale 1 v ≡ v
one-scale zero [] b = refl
one-scale zero (x ∷ xs) b = elim b [ ]
one-scale (suc n) [] b = refl
one-scale (suc n) (x ∷ xs) b = ap₂ (λ h t. h ∷ t) (one-gf_mul x b.0) (one-scale n xs b.1)

addmul_loop_eq :
    (n c : ℕ) (dst src : Bytes)
    → IsBlock n dst
    → IsBlock n src
    → addmul_loop c n dst src ≡ some (plus dst (scale c src))
unfolding addmul_loop
addmul_loop_eq zero c [] [] b b' = refl
addmul_loop_eq zero c (d ∷ ds) src b b' = elim b [ ]
addmul_loop_eq zero c [] (s ∷ ss) b b' = elim b' [ ]
addmul_loop_eq (suc n) c [] src b b' = elim b [ ]
addmul_loop_eq (suc n) c (d ∷ ds) [] b b' = elim b' [ ]
addmul_loop_eq (suc n) c (d ∷ ds) (s ∷ ss) b b' = rw (addmul_loop_eq n c ds ss b.1 b'.1) refl

mul_loop_eq :
    (n c : ℕ) (dst src : Bytes)
    → IsBlock n dst
    → IsBlock n src
    → mul_loop c n dst src ≡ some (scale c src)
unfolding mul_loop
mul_loop_eq zero c [] [] b b' = refl
mul_loop_eq zero c (d ∷ ds) src b b' = elim b [ ]
mul_loop_eq zero c [] (s ∷ ss) b b' = elim b' [ ]
mul_loop_eq (suc n) c [] src b b' = elim b [ ]
mul_loop_eq (suc n) c (d ∷ ds) [] b b' = elim b' [ ]
mul_loop_eq (suc n) c (d ∷ ds) (s ∷ ss) b b' = rw (mul_loop_eq n c ds ss b.1 b'.1) refl

pub addmul_eq :
    (n c : ℕ) (dst src : Bytes)
    → c ≢ 0
    → IsBlock n dst
    → IsBlock n src
    → addmul dst src c n ≡ some (plus dst (scale c src))
unfolding addmul
addmul_eq n c dst src p b b' = ground (arith, p, addmul_loop_eq n c dst src b b')

pub mul_eq :
    (n c : ℕ) (dst src : Bytes)
    → c ≢ 0
    → IsBlock n dst
    → IsBlock n src
    → mul dst src c n ≡ some (scale c src)
unfolding mul
mul_eq n c dst src p b b' = ground (arith, p, mul_loop_eq n c dst src b b')
