-- ===== src/Vterm/Scroll/Lines.antt =====
-- After `scroll_region` the rows have lines of their own.
use fbterm.Prelude.{
  if_both, if_cases, subst, ℕ, ◌+◌, ◌-◌, ◌≤◌, ◌<◌, ◌≡◌, refl, sym, ◌∙◌, ℤ, pos_part, neg_part, ◌&&◌,
  ◌||◌, inl, inr, Bool-cases, ltb, leb, ◌==◌, if◌then◌else◌, sub16, Store, arith,
}
use fbterm.Prelude.Loops.{for_range-keeps}
use fbterm.Vterm.Types.{Cell}
use fbterm.Vterm.State.{Term, Screen, erased}
use fbterm.Vterm.Scroll.{
  renumber, clamp_count, save_line, history_scroll, save_scrolled, add_pending, scroll_region,
}
use fbterm.Vterm.Scroll.Rows.{
  turned, IsWithin, placed, turns, turned-in, turned_inj, turns-IsWithin, renumber-placed,
  renumber-stays,
}

-- The first `n` rows have lines of their own, from `lo` to below `hi`.
pub record OwnLines (lo hi n : ℕ) (l : Store ℕ) : Type 0 where
  pub from : (y : ℕ) → y < n → lo ≤ l y
  pub below : (y : ℕ) → y < n → l y < hi
  pub apart : (y z : ℕ) → y < n → z < n → l y ≡ l z → y ≡ z

-- The row whose line a row has afterwards: a permutation of the rows.
abbrev source_row : ℕ → ℕ → ℤ → ℕ → ℕ
source_row a b num z = if leb a z && ltb z (b + 1) then turned a b num z else z

placed-source_row :
    (l : Store ℕ) (a b : ℕ) (num : ℤ) (z : ℕ)
    → placed l a b num (b + 1) z ≡ l (source_row a b num z)
placed-source_row l a b num z = elim (Bool-cases (leb a z && ltb z (b + 1))) [
  | inl y ↦ rw y refl
  | inr n ↦ rw n refl
]

source_row_lt :
    (a b n : ℕ) (num : ℤ) (z : ℕ) → b < n → IsWithin a b num → z < n → source_row a b num z < n
source_row_lt a b n num z h w k = elim (Bool-cases (leb a z && ltb z (b + 1))) [
  | inl y ↦
      let (lower, upper) = turned-in a b num z (ground arith) (ground arith) w in
      rw y (omega (arith, upper))
  | inr n ↦ rw n k
]

source_row_inj :
    (a b : ℕ) (num : ℤ) (y z : ℕ)
    → IsWithin a b num
    → source_row a b num y ≡ source_row a b num z
    → y ≡ z
source_row_inj a b num y z w e =
    grind (arith, turned_inj a b num y z, turned-in a b num y, turned-in a b num z)

placed-OwnLines :
    (lo hi n : ℕ) (l m : Store ℕ) (a b : ℕ) (num : ℤ)
    → b < n
    → IsWithin a b num
    → ((z : ℕ) → m z ≡ placed l a b num (b + 1) z)
    → OwnLines lo hi n l
    → OwnLines lo hi n m
placed-OwnLines lo hi n l m a b num h w e o =
    let at : (z : ℕ) → m z ≡ l (source_row a b num z) = λ z. e z ∙ placed-source_row l a b num z in
    record {
      from = λ y k.
          subst (λ x. lo ≤ x) (sym (at y))
            (o.from (source_row a b num y) (source_row_lt a b n num y h w k));
      below = λ y k.
          subst (λ x. x < hi) (sym (at y))
            (o.below (source_row a b num y) (source_row_lt a b n num y h w k));
      apart = λ y z j k q. source_row_inj a b num y z w (
          o.apart (source_row a b num y) (source_row a b num z) (source_row_lt a b n num y h w j)
            (source_row_lt a b n num z h w k) (sym (at y) ∙ q ∙ at z));
    }

renumber-OwnLines :
    (lo hi n : ℕ) (blank : Cell) (a b : ℕ) (num : ℤ) (s : Screen)
    → a ≤ b
    → b < n
    → OwnLines lo hi n s.linenumbers
    → OwnLines lo hi n (renumber blank a b num s).linenumbers
renumber-OwnLines lo hi n blank a b num s h k o = elim (Bool-cases (turns a b num)) [
  | inl t ↦
      placed-OwnLines lo hi n s.linenumbers (renumber blank a b num s).linenumbers a b num k
        (turns-IsWithin a b num t) (renumber-placed blank a b num s h t) o
  | inr t ↦ subst (OwnLines lo hi n) (sym (renumber-stays blank a b num s t)) o
]

-- The history is saved without a change of line numbers.
linenumbers-save_line :
    (l : Store ℕ) (i : ℕ) (t : Term)
    → t.screen.linenumbers ≡ l
    → (save_line i t).screen.linenumbers ≡ l
unfolding save_line
linenumbers-save_line l i t e = ground arith

linenumbers-history_scroll :
    (n : ℕ) (t : Term) → (history_scroll n t).screen.linenumbers ≡ t.screen.linenumbers
unfolding history_scroll
linenumbers-history_scroll n t =
    if_both (λ (u : Term). u.screen.linenumbers ≡ t.screen.linenumbers)
      (t.settings.history_lines == 0) refl
      (for_range-keeps (λ (u : Term). u.screen.linenumbers ≡ t.screen.linenumbers) save_line n 0 t
        (linenumbers-save_line t.screen.linenumbers) refl)

linenumbers-saved :
    (a b : ℕ) (m : ℤ) (t : Term)
    → (add_pending a b m (save_scrolled a m t).screen).linenumbers ≡ t.screen.linenumbers
unfolding add_pending save_scrolled
linenumbers-saved a b m t = ground (arith, linenumbers-history_scroll (pos_part m) t)

-- On a screen of 1 to 65535 rows that have lines of their own, `scroll_region` gives them lines of
-- their own in the same range again: whatever the region and the count, no two rows come to share a
-- line, and none comes to stand on a line of the history.
pub scroll_region-OwnLines :
    (lo hi : ℕ) (start_y end_y : ℕ) (num : ℤ) (t : Term)
    → 0 < t.screen.height
    → t.screen.height < 65536
    → OwnLines lo hi t.screen.height t.screen.linenumbers
    → OwnLines lo hi t.screen.height (scroll_region start_y end_y num t).screen.linenumbers
unfolding scroll_region
scroll_region-OwnLines lo hi start_y end_y num t p q o =
    let n = t.screen.height in
    let ey = if leb n end_y then sub16 n 1 else end_y in
    let m = clamp_count num (ey + 1 - start_y) in
    let P = λ (u : Term). OwnLines lo hi n u.screen.linenumbers in
    if_cases P (pos_part num == 0 && neg_part num == 0 || ltb ey start_y) (λ y. o)
      (λ r.
        renumber-OwnLines lo hi n (erased t) start_y ey m
          (add_pending start_y ey m (save_scrolled start_y m t).screen) (ground arith)
          (ground arith) (subst (OwnLines lo hi n) (sym (linenumbers-saved start_y ey m t)) o))
