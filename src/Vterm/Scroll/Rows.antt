-- ===== src/Vterm/Scroll/Rows.antt =====
-- Scrolling permutes the lines of the rows.
use fbterm.Prelude.{
  if_both, if_cases, ℕ, ◌+◌, ◌-◌, ◌≤◌, ◌<◌, ◌≡◌, refl, ◌∙◌, ap, ℤ, pos, negsuc, pos_part, neg_part,
  ltb_ℤ, ◌+ℤ◌, ◌-ℤ◌, Bool, true, false, ◌&&◌, ◌||◌, inl, inr, Bool-cases, ltb, leb, ◌==◌,
  if◌then◌else◌, sub16, Store, put, arith,
}
use fbterm.Prelude.Loops.{for_range-keeps, for_range_inv}
use fbterm.Vterm.Types.{Cell}
use fbterm.Vterm.State.{Screen}
use fbterm.Vterm.Area.{changed_line, clear_row, clear_area}
use fbterm.Vterm.Scroll.{take_row, is_cleared, scroll_row, renumber}

-- The row that `take_row` names, without signs: the region is turned by `n` rows up or down.
abbrev pub turned : ℕ → ℕ → ℤ → ℕ → ℕ
turned a b (pos n) y = if ltb b (y + n) then y + n - (b + 1 - a) else y + n
turned a b (negsuc n) y = if ltb y (a + n + 1) then y + (b - a) - n else y - n - 1

-- A count that is within the size of the region.
abbrev pub IsWithin : ℕ → ℕ → ℤ → Type 0
IsWithin a b num = pos_part num + neg_part num < b + 1 - a

add_pos : (y n : ℕ) → pos y +ℤ pos n ≡ pos (y + n)
unfolding ◌+ℤ◌
add_pos y n = ground arith

sub_pos : (a b : ℕ) → b ≤ a → pos a -ℤ pos b ≡ pos (a - b)
unfolding ◌-ℤ◌
sub_pos a b h = ground arith

turn_down : (a k : ℕ) → 0 < k → pos a -ℤ pos 1 +ℤ pos k ≡ pos (a + k - 1)
unfolding ◌+ℤ◌ ◌-ℤ◌
turn_down a k h = ground arith

above_region : (a y n : ℕ) → y < a + n + 1 → ltb_ℤ (pos y +ℤ negsuc n) (pos a) ≡ true
unfolding ◌+ℤ◌
above_region a y n h = ground arith

rows_above : (a y n : ℕ) → y < a + n + 1 → pos a -ℤ (pos y +ℤ negsuc n) ≡ pos (a + n + 1 - y)
unfolding ◌+ℤ◌ ◌-ℤ◌
rows_above a y n h = ground arith

sub_neg : (y n : ℕ) → n < y → pos y +ℤ negsuc n ≡ pos (y - n - 1)
unfolding ◌+ℤ◌
sub_neg y n h = ground arith

take_row-turned :
    (a b : ℕ) (num : ℤ) (y : ℕ)
    → a ≤ y
    → y ≤ b
    → IsWithin a b num
    → pos_part (take_row a b num y) ≡ turned a b num y
unfolding take_row
take_row-turned a b (pos n) y h k w =
    ground (arith, add_pos y n, sub_pos (y + n) b, turn_down a (y + n - b))
take_row-turned a b (negsuc n) y h k w = elim (Bool-cases (ltb y (a + n + 1))) [
  | inl out ↦ ground (arith, above_region a y n, rows_above a y n, sub_pos (b + 1) (a + n + 1 - y))
  | inr inside ↦ ground (arith, sub_neg y n)
]

pub turned-in :
    (a b : ℕ) (num : ℤ) (y : ℕ)
    → a ≤ y
    → y ≤ b
    → IsWithin a b num
    → (a ≤ turned a b num y) × (turned a b num y ≤ b)
turned-in a b (pos n) y h k w = ground arith
turned-in a b (negsuc n) y h k w = ground arith

pub turned_inj :
    (a b : ℕ) (num : ℤ) (y z : ℕ)
    → a ≤ y
    → y ≤ b
    → a ≤ z
    → z ≤ b
    → IsWithin a b num
    → turned a b num y ≡ turned a b num z
    → y ≡ z
turned_inj a b (pos n) y z h k i j w e = ground arith
turned_inj a b (negsuc n) y z h k i j w e = ground arith

linenumbers-clear_row :
    (blank : Cell) (x ex : ℕ) (s : Screen) (y : ℕ) (u : Screen)
    → u.linenumbers ≡ s.linenumbers
    → (clear_row blank x ex y u).linenumbers ≡ s.linenumbers
unfolding clear_row changed_line
linenumbers-clear_row blank x ex s y u e = ground arith

linenumbers-clear_area :
    (blank : Cell) (x y ex ey : ℕ) (s : Screen)
    → (clear_area blank x y ex ey s).linenumbers ≡ s.linenumbers
unfolding clear_area
linenumbers-clear_area blank x y ex ey s =
    let ex' = if leb s.width ex then sub16 s.width 1 else ex in
    let ey' = if leb s.height ey then sub16 s.height 1 else ey in
    let P = λ (u : Screen). u.linenumbers ≡ s.linenumbers in
    if_both P (leb s.width x || leb s.height y || ltb ex' x || ltb ey' y) refl (
      for_range-keeps P (clear_row blank x ex') (ey' + 1 - y) y s
        (linenumbers-clear_row blank x ex' s) refl)

-- A round of the loop changes one line number.
linenumbers-scroll_row :
    (blank : Cell) (old : Screen) (fast : Bool) (a b : ℕ) (num : ℤ) (y : ℕ) (s : Screen)
    → (scroll_row blank old fast a b num y s).linenumbers
      ≡ put s.linenumbers y (old.linenumbers (pos_part (take_row a b num y)))
unfolding scroll_row
linenumbers-scroll_row blank old fast a b num y s =
    let Q = λ (u : Screen).
      u.linenumbers ≡ put s.linenumbers y (old.linenumbers (pos_part (take_row a b num y))) in
    if_both Q (is_cleared a b num y) (linenumbers-clear_area blank 0 y (sub16 s.width 1) y _) refl

-- The line of row `z` when the rows of the region before `k` have been renumbered.
abbrev pub placed : Store ℕ → ℕ → ℕ → ℤ → ℕ → ℕ → ℕ
placed l a b num k z = if leb a z && ltb z k then l (turned a b num z) else l z

scroll_row-placed :
    (blank : Cell) (old : Screen) (fast : Bool) (a b : ℕ) (num : ℤ)
    → IsWithin a b num
    → (k : ℕ) (s : Screen) → a ≤ k
    → k < b + 1
    → ((z : ℕ) → s.linenumbers z ≡ placed old.linenumbers a b num k z)
    → (z : ℕ)
    → (scroll_row blank old fast a b num k s).linenumbers z
      ≡ placed old.linenumbers a b num (k + 1) z
scroll_row-placed blank old fast a b num w k s h j before z =
    let row = take_row-turned a b num k h (omega arith) w in
    ap (λ f. f z) (linenumbers-scroll_row blank old fast a b num k s)
    ∙ ap (λ r. put s.linenumbers k (old.linenumbers r) z) row
    ∙ put_placed old.linenumbers s.linenumbers a b num k z h (before z)
  where
    put_placed :
        (l m : Store ℕ) (a b : ℕ) (num : ℤ) (k z : ℕ)
        → a ≤ k
        → m z ≡ placed l a b num k z
        → put m k (l (turned a b num k)) z ≡ placed l a b num (k + 1) z
    put_placed l m a b num k z h e = elim (Bool-cases (z == k)) [
      | inl y ↦ ground (arith, e)
      | inr n ↦ ground (arith, e)
    ]

-- The test of `scroll_region` before the loop.
abbrev pub turns : ℕ → ℕ → ℤ → Bool
turns a b num = ltb_ℤ num (pos (b + 1 - a)) && ltb_ℤ (pos 0 -ℤ num) (pos (b + 1 - a))

pub turns-IsWithin : (a b : ℕ) (num : ℤ) → turns a b num ≡ true → IsWithin a b num
unfolding ◌-ℤ◌
turns-IsWithin a b (pos n) h = ground arith
turns-IsWithin a b (negsuc n) h = ground arith

-- After the loop every row of the region has the line of the row that it is turned to.
pub renumber-placed :
    (blank : Cell) (a b : ℕ) (num : ℤ) (s : Screen)
    → a ≤ b
    → turns a b num ≡ true
    → (z : ℕ) → (renumber blank a b num s).linenumbers z ≡ placed s.linenumbers a b num (b + 1) z
unfolding renumber
renumber-placed blank a b num s h t =
    let w = turns-IsWithin a b num t in
    let fast = a == s.scroll_top && b == s.scroll_bot in
    let P = λ (k : ℕ) (u : Screen). (z : ℕ) → u.linenumbers z ≡ placed s.linenumbers a b num k z in
    let loop =
      for_range_inv P (scroll_row blank s fast a b num) (b + 1 - a) a (b + 1) s
        (scroll_row-placed blank s fast a b num w) (omega arith) (λ z. ground arith) in
    if_cases (P (b + 1)) (turns a b num) (λ y. loop) (λ n. absurd (ground arith))

pub renumber-stays :
    (blank : Cell) (a b : ℕ) (num : ℤ) (s : Screen)
    → turns a b num ≡ false
    → (renumber blank a b num s).linenumbers ≡ s.linenumbers
unfolding renumber
renumber-stays blank a b num s t =
    if_cases (λ (u : Screen). u.linenumbers ≡ s.linenumbers) (turns a b num)
      (λ y. absurd (ground arith)) (λ n. refl)
