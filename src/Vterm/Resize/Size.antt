-- ===== src/Vterm/Resize/Size.antt =====
-- `resize` brings the geometry in order for the new size.
use fbterm.Prelude.{
  if_both, if_cases, ℕ, ◌+◌, ◌-◌, ◌≤◌, ◌<◌, ◌≡◌, refl, ◌∙◌, ℤ, pos, pos_part, neg_part, Bool, ◌&&◌,
  ◌||◌, ltb_ℤ, ◌-ℤ◌, ltb, leb, ◌==◌, if◌then◌else◌, sub16, Store, arith,
}
use fbterm.Prelude.Loops.{for_range-keeps}
use fbterm.Prelude.Int.{s16}
use fbterm.Vterm.Types.{Cell, history_changed}
use fbterm.Vterm.State.{Term, emit, total_history_lines, Screen, erased, with_screen}
use fbterm.Vterm.Area.{clear, changed_line, clear_row, clear_area, move_cursor}
use fbterm.Vterm.Fits.{Fits}
use fbterm.Vterm.Fits.Areas.{scroll_region-Fits, clear_area-Fits}
use fbterm.Vterm.Scroll.{
  is_cleared, scroll_row, renumber, clamp_count, save_line, history_scroll, save_scrolled,
  add_pending, scroll_region,
}
use fbterm.Vterm.Resize.{grow_tabs, grow_rows, grow_cells, keep_cursor, set_size, resize}

-- The sizes of a screen.
pub record SameSize (s u : Screen) : Type 0 where
  pub width : u.width ≡ s.width
  pub height : u.height ≡ s.height
  pub max_width : u.max_width ≡ s.max_width
  pub max_height : u.max_height ≡ s.max_height

SameSize-refl : (s : Screen) → SameSize s s
SameSize-refl s = record { width = refl; height = refl; max_width = refl; max_height = refl }

clear_row-SameSize :
    (blank : Cell) (x ex : ℕ) (s : Screen) (y : ℕ) (u : Screen)
    → SameSize s u
    → SameSize s (clear_row blank x ex y u)
unfolding clear_row changed_line
clear_row-SameSize blank x ex s y u k = ground arith

clear_area-SameSize :
    (blank : Cell) (x y ex ey : ℕ) (s u : Screen)
    → SameSize s u
    → SameSize s (clear_area blank x y ex ey u)
unfolding clear_area
clear_area-SameSize blank x y ex ey s u k =
    let ex' = if leb u.width ex then sub16 u.width 1 else ex in
    let ey' = if leb u.height ey then sub16 u.height 1 else ey in
    if_both (SameSize s) (leb u.width x || leb u.height y || ltb ex' x || ltb ey' y) k (
      for_range-keeps (SameSize s) (clear_row blank x ex') (ey' + 1 - y) y u
        (clear_row-SameSize blank x ex' s) k)

scroll_row-SameSize :
    (blank : Cell) (old : Screen) (fast : Bool) (a b : ℕ) (num : ℤ) (s : Screen) (y : ℕ)
    (u : Screen)
    → SameSize s u
    → SameSize s (scroll_row blank old fast a b num y u)
unfolding scroll_row
scroll_row-SameSize blank old fast a b num s y u k =
    if_both (SameSize s) (is_cleared a b num y)
      (clear_area-SameSize blank 0 y (sub16 u.width 1) y s _ (ground arith)) (ground arith)

renumber-SameSize :
    (blank : Cell) (a b : ℕ) (num : ℤ) (s u : Screen)
    → SameSize s u
    → SameSize s (renumber blank a b num u)
unfolding renumber
renumber-SameSize blank a b num s u k =
    let m = pos (b + 1 - a) in
    let fast = a == u.scroll_top && b == u.scroll_bot in
    if_both (SameSize s) (ltb_ℤ num m && ltb_ℤ (pos 0 -ℤ num) m)
      (for_range-keeps (SameSize s) (scroll_row blank u fast a b num) (b + 1 - a) a u
        (scroll_row-SameSize blank u fast a b num s) k)
      k

-- The same for the screen of a terminal.
abbrev KeepsSize : Screen → Term → Type 0
KeepsSize s t = SameSize s t.screen

save_line-KeepsSize : (s : Screen) (i : ℕ) (t : Term) → KeepsSize s t → KeepsSize s (save_line i t)
unfolding save_line
save_line-KeepsSize s i t k = ground arith

history_scroll-KeepsSize :
    (s : Screen) (n : ℕ) (t : Term) → KeepsSize s t → KeepsSize s (history_scroll n t)
unfolding history_scroll
history_scroll-KeepsSize s n t k =
    if_both (KeepsSize s) (t.settings.history_lines == 0) k
      (for_range-keeps (KeepsSize s) save_line n 0 t (save_line-KeepsSize s) k)

saved-SameSize :
    (a b : ℕ) (m : ℤ) (t : Term)
    → SameSize t.screen (add_pending a b m (save_scrolled a m t).screen)
unfolding add_pending save_scrolled
saved-SameSize a b m t =
    ground (arith, history_scroll-KeepsSize t.screen (pos_part m) t (SameSize-refl t.screen))

pub scroll_region-KeepsSize :
    (a b : ℕ) (num : ℤ) (t : Term) → KeepsSize t.screen (scroll_region a b num t)
unfolding scroll_region
scroll_region-KeepsSize a b num t =
    let ey = if leb t.screen.height b then sub16 t.screen.height 1 else b in
    let m = clamp_count num (ey + 1 - a) in
    if_both (KeepsSize t.screen) (pos_part num == 0 && neg_part num == 0 || ltb ey a)
      (SameSize-refl t.screen)
      (renumber-SameSize (erased t) a ey m t.screen
        (add_pending a ey m (save_scrolled a m t).screen) (saved-SameSize a ey m t))

-- The cursor behind `keep_cursor` is within both sizes.
keep_cursor-Fits :
    (w h : ℕ) (t : Term)
    → Fits t.screen
    → 0 < w
    → 0 < h
    → w < 65536
    → h < 65536
    → Fits (keep_cursor w h t).screen
      × ((keep_cursor w h t).screen.cursor_x < w)
      × ((keep_cursor w h t).screen.cursor_y < h)
      × SameSize t.screen (keep_cursor w h t).screen
unfolding keep_cursor move_cursor
keep_cursor-Fits w h t f p q i j =
    let n = s16 (t.screen.cursor_y + 1 - h) in
    let e = sub16 t.screen.height 1 in
    let sf = scroll_region-Fits 0 e n t f in
    let ss = scroll_region-KeepsSize 0 e n t in ground (arith, sf, ss)

sized-Fits :
    (w h : ℕ) (s : Screen)
    → Fits s
    → 2 ≤ w
    → 0 < h
    → w ≤ s.max_width
    → h ≤ s.max_height
    → s.cursor_x < w
    → s.cursor_y < h
    → Fits (record s {
      width = w;
      height = h;
      scroll_bot = h - 1;
      scroll_top = if leb h s.scroll_top then 0 else s.scroll_top;
    })
sized-Fits w h s f a b c d x y = ground arith

-- The geometry is in order, for the size `w` by `h`.
abbrev pub IsSized : ℕ → ℕ → Term → Type 0
IsSized w h t = Fits t.screen × (t.screen.width ≡ w) × (t.screen.height ≡ h)

clear-IsSized : (w h x y ex ey : ℕ) (t : Term) → IsSized w h t → IsSized w h (clear x y ex ey t)
clear-IsSized w h x y ex ey t (f, a, b) =
    let k = clear_area-SameSize (erased t) x y ex ey t.screen t.screen (SameSize-refl t.screen) in
    (clear_area-Fits (erased t) x y ex ey t.screen f, k.width ∙ a, k.height ∙ b)

set_size-IsSized :
    (w h : ℕ) (t : Term)
    → Fits t.screen
    → 2 ≤ w
    → 0 < h
    → w ≤ t.screen.max_width
    → h ≤ t.screen.max_height
    → t.screen.cursor_x < w
    → t.screen.cursor_y < h
    → IsSized w h (set_size w h t)
unfolding set_size
set_size-IsSized w h t f a b c d x y =
    let s = t.screen in
    let minw = if ltb s.width w then s.width else w in
    let minh = if ltb s.height h then s.height else h in
    let sized = with_screen t (record s {
      width = w;
      height = h;
      scroll_bot = h - 1;
      scroll_top = if leb h s.scroll_top then 0 else s.scroll_top;
    }) in
    let asked = emit (history_changed t.history.visual_start_line (total_history_lines t)) sized in
    let told = if h == s.height then sized else asked in
    let columns = if ltb minw w then clear minw 0 (w - 1) (h - 1) told else told in
    let k : IsSized w h sized = (sized-Fits w h s f a b c d x y, refl, refl) in
    let k_told : IsSized w h told =
      if_both (IsSized w h) (h == s.height) {x = sized} {y = asked} k k in
    let k_columns : IsSized w h columns =
      if_both (IsSized w h) (ltb minw w) {x = clear minw 0 (w - 1) (h - 1) told} {y = told}
        (clear-IsSized w h minw 0 (w - 1) (h - 1) told k_told) k_told in
    if_both (IsSized w h) (ltb minh h) {x = clear 0 minh minw (h - 1) columns} {y = columns}
      (clear-IsSized w h 0 minh minw (h - 1) columns k_columns) k_columns

-- The arrays behind the growth have room for both sizes.
grown-Fits :
    (fresh : Store Cell) (w h : ℕ) (t : Term)
    → Fits t.screen
    → w < 65536
    → h < 65536
    → let mw = if ltb t.screen.max_width w then w else t.screen.max_width in
      let mh = if ltb t.screen.max_height h then h else t.screen.max_height in
      let u =
        grow_cells fresh mw mh
          (with_screen t (grow_rows t.settings.history_lines mh w (grow_tabs mw t.screen))) in
      Fits u.screen × (w ≤ u.screen.max_width) × (h ≤ u.screen.max_height)
unfolding grow_cells grow_rows grow_tabs
grown-Fits fresh w h t f i j = ground arith

-- On a terminal whose geometry is in order, `resize` to 2 to 65535 columns and 1 to 65535 rows brings
-- it in order for the new size: the cursor is inside it, and the lower margin is.
pub resize-IsSized :
    (fresh : Store Cell) (w h : ℕ) (t : Term)
    → Fits t.screen
    → 2 ≤ w
    → w < 65536
    → 0 < h
    → h < 65536
    → IsSized w h (resize fresh w h t)
unfolding resize
resize-IsSized fresh w h t f a i b j =
    let s = t.screen in
    let mw = if ltb s.max_width w then w else s.max_width in
    let mh = if ltb s.max_height h then h else s.max_height in
    let u =
      grow_cells fresh mw mh
        (with_screen t (grow_rows t.settings.history_lines mh w (grow_tabs mw s))) in
    let (g, wide, high) = grown-Fits fresh w h t f i j in
    let (k, x, y, size) = keep_cursor-Fits w h u g (omega arith) b i j in
    let v = keep_cursor w h u in
    if_cases (IsSized w h) (w == 0 || h == 0 || w == s.width && h == s.height) {x = t}
      {y = set_size w h v} (λ e. (f, ground arith, ground arith))
      (λ n. set_size-IsSized w h v k a b (ground (arith, size)) (ground (arith, size)) x y)
