-- ===== src/Etl/Markers.antt =====
-- getMarkers of src/etl/ETLHelpers.h.
use clio_migrator.Prelude.{
  ℕ, zero, suc, ◌+◌, ◌*◌, ◌/◌, ◌%◌, ◌^◌, ◌-◌, ◌≤◌, ◌<◌, ◌≡◌, refl, sym, ap, ◌∙◌, subst, List, [],
  ◌∷◌, some, get_elem?, length, arith,
}
use native.Mathlib.Nat.{div-add-mod, mul-div-le, mul-le-mul_right, le-div_iff_mul-le, suc-mul}

-- The markers from one on whose first byte is `byte`, while `base.data()[0]` wraps at 8 bits.
unfoldable pub markers_from : ℕ → ℕ → ℕ → List ℕ
markers_from incr zero byte = []
markers_from incr (suc left) byte = (byte * 2 ^ 248) ∷ markers_from incr left ((byte + incr) % 256)

-- `incr` is an unsigned char.
unfoldable pub get_markers : ℕ → List ℕ
unfolding markers_from
get_markers num_markers = markers_from (256 / num_markers % 256) num_markers 0

length-markers_from : (incr n byte : ℕ) → length (markers_from incr n byte) ≡ n
unfolding markers_from
length-markers_from incr zero byte = refl
length-markers_from incr (suc n) byte = ap suc (length-markers_from incr n ((byte + incr) % 256))

markers_from_lem :
    (incr n byte i : ℕ)
    → i < n
    → byte + i * incr < 256
    → get_elem? (markers_from incr n byte) i ≡ some ((byte + i * incr) * 2 ^ 248)
unfolding markers_from
markers_from_lem incr zero byte i l h = absurd (omega arith)
markers_from_lem incr (suc n) byte zero l h = ap (λ b. some (b * 2 ^ 248)) (omega arith)
markers_from_lem incr (suc n) byte (suc i) l h =
    let next : (byte + incr) % 256 ≡ byte + incr = omega (arith, h) in
    let sum : (byte + incr) + i * incr ≡ byte + suc i * incr = omega arith in
    subst (λ b. get_elem? (markers_from incr n b) i ≡ some ((byte + suc i * incr) * 2 ^ 248))
      (sym next)
      (markers_from_lem incr n (byte + incr) i (omega (arith, l)) (omega (arith, sum, h))
        ∙ ap (λ b. some (b * 2 ^ 248)) sum)

-- The product that the first byte reaches stays below 256.
below_256 : (n q i : ℕ) → n * q ≤ 256 → i < n → 0 < q → i * q < 256
below_256 n q i h l p =
    omega (arith, h, p, mul-le-mul_right {m = suc i} {n = n} q (omega (arith, l)))

step_of : (n : ℕ) → 0 < n → (i : ℕ) → i < n → i * (256 / n % 256) ≡ i * (256 / n)
step_of zero p i l = absurd (omega arith)
step_of (suc zero) p zero l = omega arith
step_of (suc zero) p (suc i) l = absurd (omega (arith, l))
step_of (suc (suc n)) p i l =
    let q = 256 / suc (suc n) in
    let small : 2 * q ≤ 256 = omega (
      arith,
      mul-div-le 256 (suc (suc n)),
      mul-le-mul_right {m = 2} {n = suc (suc n)} q (omega arith),
    ) in
    let same : q % 256 ≡ q = omega (arith, small) in ap (λ r. i * r) same

-- For 1 to 256 markers there are as many, the i-th is i times a part of (256 / n) * 2 ^ 248 keys with
-- nothing lost to the byte's wrap-around, so that they ascend from 0; the last part runs to
-- the end of the key space and is larger than the others by 256 % n of the 256 slices.
pub get_markers_lem :
    (n : ℕ)
    → 0 < n
    → n ≤ 256
    → (length (get_markers n) ≡ n)
      × (0 < 256 / n)
      × ((i : ℕ)
          → i < n
          → (get_elem? (get_markers n) i ≡ some (i * (256 / n) * 2 ^ 248)) × (i * (256 / n) < 256))
      × ((n - 1) * (256 / n) + (256 / n + 256 % n) ≡ 256)
unfolding get_markers
get_markers_lem n p h = (
  length-markers_from (256 / n % 256) n 0,
  positive,
  λ i l. (
    (let q = step_of n p i l in
        markers_from_lem (256 / n % 256) n 0 i l
          (omega (arith, q, below_256 n (256 / n) i (mul-div-le 256 n) l positive))
        ∙ ap (λ b. some (b * 2 ^ 248)) (omega (arith, q))),
    below_256 n (256 / n) i (mul-div-le 256 n) l positive,
  ),
  last n p,
)
  where
    positive : 0 < 256 / n
    positive = (le-div_iff_mul-le {k = n} {x = 1} {y = 256} p).1 (omega (arith, h))

    last : (m : ℕ) → 0 < m → (m - 1) * (256 / m) + (256 / m + 256 % m) ≡ 256
    last zero l = absurd (omega arith)
    last (suc m) l =
        let e : suc m - 1 ≡ m = omega arith in
        rw e (omega (arith, suc-mul m (256 / suc m), div-add-mod 256 (suc m)))
