-- ===== src/Vterm/Fits/Columns.antt =====
-- No operation of the emulator but `resize` changes the number of columns: the areas.
pub mod Actions
pub mod Chars
use fbterm.Prelude.{
  ℕ, zero, suc, ◌+◌, ◌-◌, ◌≡◌, refl, ◌∙◌, ap, ℤ, pos, negsuc, Bool, true, false, List, [], ◌∷◌,
  ◌||◌, ltb, leb, ◌==◌, if◌then◌else◌, if_both, sub16, Bool-cases, inl, inr, pos_part, neg_part,
  ltb_ℤ, arith,
}
use fbterm.Prelude.Loops.{for_range-keeps}
use fbterm.Vterm.Types.{Cell, Event}
use fbterm.Vterm.State.{Term, Screen, emit, with_screen}
use fbterm.Vterm.Area.{
  changed_line, move_cursor, clear_row, clear_area, shift_text, shift_right, shift_left,
}
use fbterm.Vterm.Draw.{
  emit_all, expose, mark_rows, scroll_copy, scroll_pending, flush_scroll, update_row, update,
  show_cursor,
}
use fbterm.Vterm.Scroll.{
  save_line, history_scroll, scroll_row, renumber, save_scrolled, add_pending, scroll_region,
  show_history, history_display, clamp_count, is_cleared,
}

pub changed_line-width : (y a b : ℕ) (s : Screen) → (changed_line y a b s).width ≡ s.width
unfolding changed_line
changed_line-width y a b s = ground arith

pub move_cursor-width : (x y : ℕ) (s : Screen) → (move_cursor x y s).width ≡ s.width
unfolding move_cursor
move_cursor-width x y s = ground arith

clear_row-width : (c : Cell) (a b y : ℕ) (s : Screen) → (clear_row c a b y s).width ≡ s.width
unfolding clear_row changed_line
clear_row-width c a b y s = ground arith

pub clear_area-width :
    (c : Cell) (a b x y : ℕ) (s : Screen) → (clear_area c a b x y s).width ≡ s.width
unfolding clear_area
clear_area-width c a b x y s =
    if_both (λ (u : Screen). u.width ≡ s.width) _ refl
      (for_range-keeps (λ (u : Screen). u.width ≡ s.width) _ _ _ s
        (λ k u e. clear_row-width c a _ k u ∙ e) refl)

pub shift_text-width :
    (c : Cell) (y a b : ℕ) (n : ℤ) (s : Screen) → (shift_text c y a b n s).width ≡ s.width
unfolding shift_text shift_right shift_left changed_line
shift_text-width c y a b (pos n) s = ground arith
shift_text-width c y a b (negsuc n) s = ground arith

emit_all-width : (es : List Event) (t : Term) → (emit_all es t).screen.width ≡ t.screen.width
unfolding emit_all
emit_all-width [] t = refl
emit_all-width (e ∷ es) t = emit_all-width es (emit e t)

pub expose-width : (x y w h : ℕ) (t : Term) → (expose x y w h t).screen.width ≡ t.screen.width
unfolding expose
expose-width x y w h t =
    if_both (λ (u : Term). u.screen.width ≡ t.screen.width) _ refl
      (for_range-keeps (λ (u : Term). u.screen.width ≡ t.screen.width) _ _ _ t
        (λ k u e. emit_all-width _ u ∙ e) refl)

mark_rows-width : (h dy : ℕ) (s : Screen) → (mark_rows h dy s).width ≡ s.width
unfolding mark_rows
mark_rows-width zero dy s = refl
mark_rows-width (suc h) dy s =
    if_both (λ (u : Screen). u.width ≡ s.width) (leb s.height dy) refl
      (mark_rows-width h (dy + 1) _)

scroll_pending-width : (t : Term) → (scroll_pending t).screen.width ≡ t.screen.width
unfolding scroll_pending scroll_copy
scroll_pending-width t = grind (arith, mark_rows-width)

update_row-width : (i : ℕ) (t : Term) → (update_row i t).screen.width ≡ t.screen.width
unfolding update_row
update_row-width i t = ground arith

pub update-width : (t : Term) → (update t).screen.width ≡ t.screen.width
unfolding update flush_scroll
update-width t =
    let kept =
      for_range-keeps (λ (u : Term). u.screen.width ≡ t.screen.width) update_row t.screen.height 0
        (flush_scroll t) (λ k u e. update_row-width k u ∙ e) (scroll_pending-width t) in
    ground (arith, kept)

pub show_cursor-width : (t : Term) → (show_cursor t).screen.width ≡ t.screen.width
unfolding show_cursor
show_cursor-width t = ground arith

save_line-width : (i : ℕ) (t : Term) → (save_line i t).screen.width ≡ t.screen.width
unfolding save_line
save_line-width i t = ground arith

history_scroll-width : (n : ℕ) (t : Term) → (history_scroll n t).screen.width ≡ t.screen.width
unfolding history_scroll
history_scroll-width n t = ground (
  arith,
  for_range-keeps (λ (u : Term). u.screen.width ≡ t.screen.width) save_line n 0 t
      (λ k u e. save_line-width k u ∙ e) refl,
)

scroll_row-width :
    (c : Cell) (old : Screen) (fast : Bool) (a b : ℕ) (n : ℤ) (y : ℕ) (s : Screen)
    → (scroll_row c old fast a b n y s).width ≡ s.width
unfolding scroll_row
scroll_row-width c old fast a b n y s =
    if_both (λ (u : Screen). u.width ≡ s.width) (is_cleared a b n y) (clear_area-width c 0 y _ y _)
      (ground arith)

renumber-width : (c : Cell) (a b : ℕ) (n : ℤ) (s : Screen) → (renumber c a b n s).width ≡ s.width
unfolding renumber
renumber-width c a b n s =
    if_both (λ (u : Screen). u.width ≡ s.width) _
      (for_range-keeps (λ (u : Screen). u.width ≡ s.width) _ _ _ s
        (λ y u e. scroll_row-width c s _ a b n y u ∙ e) refl)
      refl

pub scroll_region-width :
    (a b : ℕ) (n : ℤ) (t : Term) → (scroll_region a b n t).screen.width ≡ t.screen.width
unfolding scroll_region save_scrolled add_pending
scroll_region-width a b n t = grind (arith, renumber-width, history_scroll-width)

show_history-width : (n : ℕ) (t : Term) → (show_history n t).screen.width ≡ t.screen.width
unfolding show_history
show_history-width n t = grind (arith, expose-width, show_cursor-width)

pub history_display-width :
    (absolute : Bool) (n : ℤ) (t : Term)
    → (history_display absolute n t).screen.width ≡ t.screen.width
unfolding history_display
history_display-width absolute n t = grind (arith, show_history-width)
