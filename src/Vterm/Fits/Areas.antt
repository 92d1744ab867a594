-- ===== src/Vterm/Fits/Areas.antt =====
-- The functions on lines and regions keep the geometry.
use fbterm.Prelude.{
  if_both, ℕ, zero, suc, ◌+◌, ◌-◌, ◌≡◌, refl, ◌∙◌, ℤ, pos, negsuc, pos_part, neg_part, Bool, true,
  false, ◌||◌, ◌&&◌, inl, inr, Bool-cases, List, [], ◌∷◌, ltb_ℤ, ltb, leb, ◌==◌, if◌then◌else◌,
  sub16, arith,
}
use fbterm.Prelude.Loops.{for_range-keeps}
use fbterm.Vterm.Types.{Cell, Event}
use fbterm.Vterm.State.{Term, Screen, emit, erased, with_screen}
use fbterm.Vterm.Area.{
  changed_line, move_cursor, clear_row, clear_area, shift_right, shift_left, shift_text,
}
use fbterm.Vterm.Draw.{
  emit_all, expose, mark_rows, scroll_copy, scroll_pending, flush_scroll, update_row, update,
  show_cursor,
}
use fbterm.Vterm.Scroll.{
  clamp_count, is_cleared, save_line, history_scroll, scroll_row, renumber, save_scrolled,
  add_pending, scroll_region, show_history, history_display,
}
use fbterm.Vterm.Fits.{Fits}

-- What both branches keep.
pub keeps_both :
    (b : Bool) (t u v : Term)
    → (Fits t.screen → Fits u.screen)
    → (Fits t.screen → Fits v.screen)
    → Fits t.screen
    → Fits (if b then u else v).screen
keeps_both true t u v f g = f
keeps_both false t u v f g = g

pub Fits-pending : (s : Screen) (n : ℤ) → Fits s → Fits (record s { pending_scroll = n })
Fits-pending s n f = ground arith

pub changed_line-Fits : (y a b : ℕ) (s : Screen) → Fits s → Fits (changed_line y a b s)
unfolding changed_line
changed_line-Fits y a b s f = ground arith

pub move_cursor-Fits : (x y : ℕ) (s : Screen) → Fits s → Fits (move_cursor x y s)
unfolding move_cursor
move_cursor-Fits x y s f = ground arith

pub clear_row-Fits : (c : Cell) (a b y : ℕ) (s : Screen) → Fits s → Fits (clear_row c a b y s)
unfolding clear_row
clear_row-Fits c a b y s f = changed_line-Fits y a b _ (ground arith)

pub clear_area-Fits : (c : Cell) (a b x y : ℕ) (s : Screen) → Fits s → Fits (clear_area c a b x y s)
unfolding clear_area
clear_area-Fits c a b x y s f =
    let ex = if leb s.width x then sub16 s.width 1 else x in
    let ey = if leb s.height y then sub16 s.height 1 else y in
    elim (Bool-cases (leb s.width a || leb s.height b || ltb ex a || ltb ey b)) [
      | inl out ↦ rw out f
      | inr within ↦ rw within (for_range-keeps Fits _ _ _ s (clear_row-Fits c a ex) f)
    ]

pub shift_text-Fits :
    (c : Cell) (y a b : ℕ) (n : ℤ) (s : Screen) → Fits s → Fits (shift_text c y a b n s)
unfolding shift_text shift_right shift_left
shift_text-Fits c y a b (pos n) s f = elim (Bool-cases (n == 0)) [
  | inl z ↦ rw z f
  | inr nz ↦ rw nz (changed_line-Fits y a b _ (ground arith))
]
shift_text-Fits c y a b (negsuc n) s f = changed_line-Fits y a b _ (ground arith)

-- The drawing functions leave the object as it is, but for the calls that they make.
pub emit_all-Fits : (es : List Event) (t : Term) → Fits t.screen → Fits (emit_all es t).screen
unfolding emit_all
emit_all-Fits [] t f = f
emit_all-Fits (e ∷ es) t f = emit_all-Fits es (emit e t) f

pub expose-Fits : (x y w h : ℕ) (t : Term) → Fits t.screen → Fits (expose x y w h t).screen
unfolding expose
expose-Fits x y w h t f =
    elim (Bool-cases
      (t.screen.width == 0 || w == 0 || h == 0 || leb t.screen.width x || leb t.screen.height y)) [
        | inl out ↦ rw out f
        | inr within ↦
            rw within
              (for_range-keeps (λ (u : Term). Fits u.screen) _ _ _ t (λ k u. emit_all-Fits _ u) f)
      ]

mark_rows-Fits : (h dy : ℕ) (s : Screen) → Fits s → Fits (mark_rows h dy s)
unfolding mark_rows
mark_rows-Fits zero dy s f = f
mark_rows-Fits (suc h) dy s f =
    if_both Fits (leb s.height dy) f (mark_rows-Fits h (dy + 1) _ (ground arith))

scroll_copy-Fits : (sy dy h : ℕ) (t : Term) → Fits t.screen → Fits (scroll_copy sy dy h t).screen
unfolding scroll_copy
scroll_copy-Fits sy dy h t f =
    if_both (λ (u : Term). Fits u.screen) _ f (mark_rows-Fits h dy t.screen f)

scroll_pending-Fits : (t : Term) → Fits t.screen → Fits (scroll_pending t).screen
unfolding scroll_pending
scroll_pending-Fits t f =
    let p = t.screen.pending_scroll in
    keeps_both _ t _ _
      (keeps_both (ltb_ℤ p (pos 0)) t _ _ (scroll_copy-Fits _ _ _ t) (scroll_copy-Fits _ _ _ t))
      (λ g. g) f

flush_scroll-Fits : (t : Term) → Fits t.screen → Fits (flush_scroll t).screen
unfolding flush_scroll
flush_scroll-Fits t f = Fits-pending (scroll_pending t).screen (pos 0) (scroll_pending-Fits t f)

update_row-Fits : (i : ℕ) (t : Term) → Fits t.screen → Fits (update_row i t).screen
unfolding update_row
update_row-Fits i t f = ground arith

pub update-Fits : (t : Term) → Fits t.screen → Fits (update t).screen
unfolding update
update-Fits t f = elim (Bool-cases (t.screen.width == 0)) [
  | inl z ↦ rw z f
  | inr nz ↦ rw nz (
      for_range-keeps (λ (u : Term). Fits u.screen) update_row _ _ _ update_row-Fits
        (flush_scroll-Fits t f))
]

pub show_cursor-Fits : (t : Term) → Fits t.screen → Fits (show_cursor t).screen
unfolding show_cursor
show_cursor-Fits t f = ground arith

save_line-Fits : (i : ℕ) (t : Term) → Fits t.screen → Fits (save_line i t).screen
unfolding save_line
save_line-Fits i t f = ground arith

history_scroll-Fits : (n : ℕ) (t : Term) → Fits t.screen → Fits (history_scroll n t).screen
unfolding history_scroll
history_scroll-Fits n t f =
    ground (arith, for_range-keeps (λ (u : Term). Fits u.screen) save_line n 0 t save_line-Fits f)

scroll_row-Fits :
    (c : Cell) (old : Screen) (fast : Bool) (a b : ℕ) (n : ℤ) (y : ℕ) (s : Screen)
    → Fits s
    → Fits (scroll_row c old fast a b n y s)
unfolding scroll_row
scroll_row-Fits c old fast a b n y s f =
    if_both Fits (is_cleared a b n y) (clear_area-Fits c 0 y _ y _ (ground arith)) (ground arith)

renumber-Fits : (c : Cell) (a b : ℕ) (n : ℤ) (s : Screen) → Fits s → Fits (renumber c a b n s)
unfolding renumber
renumber-Fits c a b n s f =
    if_both Fits _ (for_range-keeps Fits _ _ _ s (λ y. scroll_row-Fits c s _ a b n y) f) f

save_scrolled-Fits : (a : ℕ) (n : ℤ) (t : Term) → Fits t.screen → Fits (save_scrolled a n t).screen
unfolding save_scrolled
save_scrolled-Fits a n t = keeps_both _ t _ t (history_scroll-Fits _ t) (λ f. f)

add_pending-Fits : (a b : ℕ) (n : ℤ) (s : Screen) → Fits s → Fits (add_pending a b n s)
unfolding add_pending
add_pending-Fits a b n s f = if_both Fits _ (Fits-pending s _ f) f

pub scroll_region-Fits :
    (a b : ℕ) (n : ℤ) (t : Term) → Fits t.screen → Fits (scroll_region a b n t).screen
unfolding scroll_region
scroll_region-Fits a b n t =
    let ey = if leb t.screen.height b then sub16 t.screen.height 1 else b in
    let m = clamp_count n (ey + 1 - a) in
    let saved = save_scrolled a m t in
    let moved = renumber (erased t) a ey m (add_pending a ey m saved.screen) in
    keeps_both (pos_part n == 0 && neg_part n == 0 || ltb ey a) t t (with_screen saved moved)
      (λ f. f)
      (λ f.
        renumber-Fits (erased t) a ey m _ (add_pending-Fits a ey m _ (save_scrolled-Fits a m t f)))

show_history-Fits : (n : ℕ) (t : Term) → Fits t.screen → Fits (show_history n t).screen
unfolding show_history
show_history-Fits n t f = show_cursor-Fits _ (grind (arith, expose-Fits))

pub history_display-Fits :
    (absolute : Bool) (n : ℤ) (t : Term)
    → Fits t.screen
    → Fits (history_display absolute n t).screen
unfolding history_display
history_display-Fits absolute n t f = grind (arith, show_history-Fits)

-- `update` leaves the size of the screen.
mark_rows-height : (h dy : ℕ) (s : Screen) → (mark_rows h dy s).height ≡ s.height
unfolding mark_rows
mark_rows-height zero dy s = refl
mark_rows-height (suc h) dy s =
    if_both (λ (u : Screen). u.height ≡ s.height) (leb s.height dy) refl
      (mark_rows-height h (dy + 1) _)

scroll_pending-height : (t : Term) → (scroll_pending t).screen.height ≡ t.screen.height
unfolding scroll_pending scroll_copy
scroll_pending-height t = grind (arith, mark_rows-height)

update_row-height : (i : ℕ) (t : Term) → (update_row i t).screen.height ≡ t.screen.height
unfolding update_row
update_row-height i t = ground arith

pub height-update : (t : Term) → (update t).screen.height ≡ t.screen.height
unfolding update flush_scroll
height-update t =
    let kept =
      for_range-keeps (λ (u : Term). u.screen.height ≡ t.screen.height) update_row t.screen.height 0
        (flush_scroll t) (λ k u e. update_row-height k u ∙ e) (scroll_pending-height t) in
    ground (arith, kept)
