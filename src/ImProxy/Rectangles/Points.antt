-- ===== src/ImProxy/Rectangles/Points.antt =====
-- What the answers of `intersectRectangles` say of the points.
use fbterm.Prelude.{
  ℕ, ◌+◌, ◌-◌, ◌<◌, ◌≡◌, ◌≢◌, true, false, inl, inr, Bool-cases, ◌&&◌, ◌||◌, leb, ltb, ◌==◌,
  if◌then◌else◌, if_cases, arith,
}
use fbterm.Screen.Rotate.{Rect}
use fbterm.Screen.Rotate.Points.{Holds}
use fbterm.ImProxy.Rectangles.{
  IntersectState, intersect, inside, outside, apart, contained, intersect_rectangles,
}

-- The ends of the rectangle are numbers of 32 bits.
pub record IsSmall (r : Rect) : Type 0 where
  pub right : r.x + r.w < 4294967296
  pub bottom : r.y + r.h < 4294967296

-- What an answer means.
unfoldable pub Means : Rect → Rect → IntersectState → Type 0
Means r1 r2 inside = (x y : ℕ) → Holds r1 x y → Holds r2 x y
Means r1 r2 outside = (x y : ℕ) → Holds r1 x y → Holds r2 x y → ⊥
Means r1 r2 intersect =
    ((x : ℕ) × (y : ℕ) × Holds r1 x y × Holds r2 x y)
    × ((x : ℕ) × (y : ℕ) × Holds r1 x y × (Holds r2 x y → ⊥))

max : ℕ → ℕ → ℕ
max a b = if ltb a b then b else a

module _ (r1 r2 : Rect) (a : IsSmall r1) (b : IsSmall r2) where
  apart-outside : apart r1 r2 ≡ true → Means r1 r2 outside
  unfolding Means Holds
  apart-outside y x z (c, d, e, f) (g, h, k, l) =
      ground (arith, y, a.right, a.bottom, b.right, b.bottom, c, d, e, f, g, h, k, l)

  contained-inside : contained r1 r2 ≡ true → Means r1 r2 inside
  unfolding Means Holds
  contained-inside y x z (c, d, e, f) =
      ground (arith, y, a.right, a.bottom, b.right, b.bottom, c, d, e, f)

  -- Where the rectangles are not apart, each begins before the other ends.
  overlap :
      apart r1 r2 ≡ false
      → (r1.x < r2.x + r2.w) × (r1.y < r2.y + r2.h) × (r2.x < r1.x + r1.w) × (r2.y < r1.y + r1.h)
  overlap y = ground (arith, y, a.right, a.bottom, b.right, b.bottom)

  common :
      r1.w ≢ 0
      → r1.h ≢ 0
      → r2.w ≢ 0
      → r2.h ≢ 0
      → apart r1 r2 ≡ false
      → (x : ℕ) × (y : ℕ) × Holds r1 x y × Holds r2 x y
  unfolding Holds max
  common c d e f y =
      let (g, h, k, l) = overlap y in
      (
        max r1.x r2.x,
        max r1.y r2.y,
        ground (arith, c, d, e, f, g, h, k, l),
        ground (arith, c, d, e, f, g, h, k, l),
      )

  uncovered :
      r1.w ≢ 0
      → r1.h ≢ 0
      → contained r1 r2 ≡ false
      → (x : ℕ) × (y : ℕ) × Holds r1 x y × (Holds r2 x y → ⊥)
  unfolding Holds
  uncovered c d y = elim (Bool-cases (leb r2.x r1.x && leb r2.y r1.y)) [
    | inr n ↦ (
      r1.x,
      r1.y,
      (omega arith, omega (arith, c), omega arith, omega (arith, d)),
      λ (e, f, g, h). ground (arith, n, e, f, g, h),
    )
    | inl z ↦ elim (Bool-cases (leb (r1.x + r1.w) (r2.x + r2.w))) [
      | inr n ↦ (
        r1.x + r1.w - 1,
        r1.y,
        (omega (arith, c), omega (arith, c), omega arith, omega (arith, d)),
        λ (e, f, g, h). ground (arith, n, e, f, g, h),
      )
      | inl v ↦ (
        r1.x,
        r1.y + r1.h - 1,
        (omega arith, omega (arith, c), omega (arith, d), omega (arith, d)),
        λ (e, f, g, h).
            ground (arith, y, z, v, d, e, f, g, h, a.right, a.bottom, b.right, b.bottom),
      )
    ]
  ]

no_points : (r1 r2 : Rect) → (r1.w == 0 || r1.h == 0) ≡ true → Means r1 r2 inside
unfolding Means Holds
no_points r1 r2 h x y (c, d, e, f) = absurd (ground (arith, h, c, d, e, f))

none_held : (r1 r2 : Rect) → (r2.w == 0 || r2.h == 0) ≡ true → Means r1 r2 outside
unfolding Means Holds
none_held r1 r2 h x y k (c, d, e, f) = ground (arith, h, c, d, e, f)

-- Of rectangles with ends of 32 bits, the first is inside the second only if the second holds all its
-- points, outside only if it holds none of them, and they intersect only if it holds some and not all.
pub intersect_rectangles-Means :
    (r1 r2 : Rect) → IsSmall r1 → IsSmall r2 → Means r1 r2 (intersect_rectangles r1 r2)
unfolding intersect_rectangles
intersect_rectangles-Means r1 r2 a b =
    if_cases (Means r1 r2) (r1.w == 0 || r1.h == 0) (λ y. no_points r1 r2 y)
      (λ n.
        if_cases (Means r1 r2) (r2.w == 0 || r2.h == 0) (λ y. none_held r1 r2 y)
          (λ m. if_cases (Means r1 r2) (apart r1 r2) (apart-outside r1 r2 a b) (λ o.
            if_cases (Means r1 r2) (contained r1 r2) (contained-inside r1 r2 a b) (λ p.
              unfold Means in
              (
                common r1 r2 a b (ground (arith, n)) (ground (arith, n)) (ground (arith, m))
                    (ground (arith, m)) o,
                uncovered r1 r2 a b (ground (arith, n)) (ground (arith, n)) p,
              )))))
