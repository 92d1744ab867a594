-- ===== src/Vterm/Input/Frame.antt =====
-- What writing a character leaves alone.
use fbterm.Prelude.{
  ℕ, ◌+◌, ◌-◌, ◌≡◌, refl, ℤ, pos, Bool, Option, none, some, List, [], ◌∷◌, ltb, if◌then◌else◌,
  arith,
}
use fbterm.Prelude.Loops.{for_range-keeps}
use fbterm.Prelude.Results.{◌>>=◌}
use fbterm.Vterm.Types.{Event}
use fbterm.Vterm.State.{Term, Screen, normal_char_attr, with_screen, emit}
use fbterm.Vterm.Draw.{
  emit_all, expose, expose_row, scroll_copy, scroll_pending, flush_scroll, update_row, update,
  show_cursor,
}
use fbterm.Vterm.Scroll.{
  save_line, history_scroll, save_scrolled, scroll_region, show_history, history_display,
}
use fbterm.Vterm.Cursor.{cr, lf, next_line, index_up}
use fbterm.Vterm.Input.{wrap_line, write_char, place_char, put_char}

-- Everything but the screen, the history and the calls made.
pub record Kept (t u : Term) : Type 0 where
  pub parser : u.parser ≡ t.parser
  pub flags : u.flags ≡ t.flags
  pub charsets : u.charsets ≡ t.charsets
  pub pen : u.pen ≡ t.pen
  pub settings : u.settings ≡ t.settings

pub Kept-refl : (t : Term) → Kept t t
Kept-refl t = record { parser = refl; flags = refl; charsets = refl; pen = refl; settings = refl }

save_line-Kept : (t : Term) (i : ℕ) (u : Term) → Kept t u → Kept t (save_line i u)
unfolding save_line
save_line-Kept t i u k = ground arith

history_scroll-Kept : (n : ℕ) (t : Term) → Kept t (history_scroll n t)
unfolding history_scroll
history_scroll-Kept n t =
    ground (arith, for_range-keeps (Kept t) save_line n 0 t (save_line-Kept t) (Kept-refl t))

save_scrolled-Kept : (a : ℕ) (n : ℤ) (t : Term) → Kept t (save_scrolled a n t)
unfolding save_scrolled
save_scrolled-Kept a n t = grind (arith, history_scroll-Kept)

pub scroll_region-Kept : (a b : ℕ) (n : ℤ) (t : Term) → Kept t (scroll_region a b n t)
unfolding scroll_region
scroll_region-Kept a b n t = grind (arith, save_scrolled-Kept)

pub lf-Kept : (t : Term) → Kept t (lf t)
unfolding lf cr
lf-Kept t = grind (arith, scroll_region-Kept)

pub next_line-Kept : (t : Term) → Kept t (next_line t)
unfolding next_line cr
next_line-Kept t = ground (arith, lf-Kept t)

pub index_up-Kept : (t : Term) → Kept t (index_up t)
unfolding index_up
index_up-Kept t = grind (arith, scroll_region-Kept)

wrap_line-Kept : (dw : Bool) (t u : Term) → wrap_line dw t ≡ some u → Kept t u
unfolding wrap_line
wrap_line-Kept dw t u e = grind (arith, next_line-Kept)

bind-Kept :
    (t u : Term) (m : Option Screen) (g : Screen → Screen)
    → (m >>= λ s. some (with_screen t (g s))) ≡ some u
    → Kept t u
bind-Kept t u none g e = absurd (ground arith)
bind-Kept t u (some s) g e = ground arith

place_char-Kept : (c : ℕ) (dw : Bool) (t u : Term) → place_char c dw t ≡ some u → Kept t u
unfolding place_char
place_char-Kept c dw t u e = bind-Kept t u _ (write_char c (normal_char_attr t.pen) dw) e

-- A character that is written, if the run returns, leaves the parser, the modes, the character sets, the attributes and
-- the settings as they were, also where it wraps the line and scrolls.
pub put_char-Kept : (c : ℕ) (dw : Bool) (t u : Term) → put_char c dw t ≡ some u → Kept t u
put_char-Kept c dw t u e = go (wrap_line dw t) refl (unfold put_char in e)
  where
    go :
        (o : Option Term)
        → wrap_line dw t ≡ o
        → elim o [ none ↦ some t | some v ↦ place_char c dw v ] ≡ some u
        → Kept t u
    go none w e = ground arith
    go (some v) w e = ground (arith, wrap_line-Kept dw t v w, place_char-Kept c dw v u e)

emit_all-Kept : (es : List Event) (t u : Term) → Kept t u → Kept t (emit_all es u)
unfolding emit_all
emit_all-Kept [] t u k = k
emit_all-Kept (e ∷ es) t u k = emit_all-Kept es t (emit e u) (ground arith)

pub expose-Kept : (x y w h : ℕ) (t : Term) → Kept t (expose x y w h t)
unfolding expose
expose-Kept x y w h t =
    let loop =
      for_range-keeps (Kept t)
        (λ row u.
          emit_all
            (expose_row t x (if ltb t.screen.width (x + w) then t.screen.width - x else w) row) u)
        (if ltb t.screen.height (y + h) then t.screen.height - y else h) y t
        (λ row u.
          emit_all-Kept
            (expose_row t x (if ltb t.screen.width (x + w) then t.screen.width - x else w) row) t u)
        (Kept-refl t) in
    ground (arith, loop)

scroll_pending-Kept : (t : Term) → Kept t (scroll_pending t)
unfolding scroll_pending scroll_copy
scroll_pending-Kept t = ground arith

update_row-Kept : (t : Term) (i : ℕ) (u : Term) → Kept t u → Kept t (update_row i u)
unfolding update_row
update_row-Kept t i u k = grind (arith, expose-Kept)

-- `update` keeps the parser, the modes, the character sets, the attributes and the settings.
pub update-Kept : (t : Term) → Kept t (update t)
unfolding update flush_scroll
update-Kept t = ground (
  arith,
  for_range-keeps (Kept t) update_row t.screen.height 0
      (with_screen (scroll_pending t)
        (record ((scroll_pending t).screen) { pending_scroll = pos 0 }))
      (update_row-Kept t) (ground (arith, scroll_pending-Kept t)),
)

pub show_cursor-Kept : (t : Term) → Kept t (show_cursor t)
unfolding show_cursor
show_cursor-Kept t = grind arith

show_history-Kept : (n : ℕ) (t : Term) → Kept t (show_history n t)
unfolding show_history
show_history-Kept n t = grind (arith, expose-Kept, show_cursor-Kept)

pub history_display-Kept :
    (absolute : Bool) (n : ℤ) (t : Term) → Kept t (history_display absolute n t)
unfolding history_display
history_display-Kept absolute n t = grind (arith, show_history-Kept)
