-- ===== src/FbShell/Cursor.antt =====
-- src/fbshell.cpp: drawing of characters and of the cursor.
use fbterm.Prelude.{
  ℕ, ◌+◌, ◌-◌, Bool, true, false, not, ◌&&◌, ◌||◌, List, [], ◌∷◌, ltb, ◌==◌, if◌then◌else◌, u16,
}
use fbterm.Vterm.Types.{CharAttr, ModeType, is_single, is_right}
use fbterm.Vterm.State.{mode}
use fbterm.FbShell.State.{
  FbShell, draw_text, fill_rect, move_screen, redraw_im_win, im_cursor_pos, call, term, fw, fh,
}

-- The colour of the text in `adjustCharAttr`, before the brightness.
unfoldable pub emphasis : CharAttr → ℕ
emphasis a =
    if a.italic then 2 else if a.underline then 6 else if a.intensity == 0 then 8 else a.fcolor

-- `color ^= 8` on a colour below 8.
abbrev pub brighten : Bool → ℕ → ℕ
brighten b c = if b && ltb c 8 then c + 8 else c

-- `FbShell::adjustCharAttr`
unfoldable pub adjust_char_attr : CharAttr → CharAttr
adjust_char_attr a =
    let back = brighten a.blink a.bcolor in
    let front = brighten (a.intensity == 2) (emphasis a) in
    if a.reverse
    then record a {
      fcolor = back;
      bcolor = if ltb 8 front && ltb front 16 then front - 8 else front;
    }
    else record a { fcolor = front; bcolor = back }

-- `mImProxy->redrawImWin`, where there is an input method.
unfoldable pub redraw_im : ℕ → ℕ → ℕ → ℕ → FbShell → FbShell
redraw_im x y w h f = if f.has_im then call (redraw_im_win x y w h) f else f

-- `FbShell::drawChars`
unfoldable pub draw_chars : CharAttr → ℕ → ℕ → ℕ → ℕ → List ℕ → List Bool → FbShell → FbShell
draw_chars attr x y w num chars dws f =
    let a = adjust_char_attr attr in
    if f.is_active
    then redraw_im (fw f x) (fh f y) (fw f w) (fh f 1)
        (call (draw_text (fw f x) (fh f y) a.fcolor a.bcolor num chars dws) f)
    else f

-- `FbShell::moveChars`; `answer` is that of `Screen::move`.
unfoldable pub move_chars : Bool → ℕ → ℕ → ℕ → ℕ → ℕ → ℕ → FbShell → Bool × FbShell
move_chars answer sx sy dx dy w h f =
    if f.is_active then (answer, call (move_screen sx sy dx dy w h) f) else (true, f)

-- The shape to draw: 1 for none, 2 for a line, and others for a block.
unfoldable pub cursor_shape : FbShell → ℕ
cursor_shape f =
    let shape = mode (term f) ModeType.cursor_shape in
    if shape == 0 then if f.config.cursor_block then 6 else 2 else shape

-- `case CurUnderline` of `updateCursor`
unfoldable pub draw_line : FbShell → FbShell
draw_line f =
    let c = f.cursor in
    let top = fh f (c.y + 1) - 1 in
    redraw_im (fw f c.x) top (fw f 1) 1 (
      call (fill_rect (fw f c.x) top (fw f 1) 1 (if c.showed then c.attr.fcolor else c.attr.bcolor))
        f)

-- The last case of `updateCursor`.
unfoldable pub draw_block : FbShell → FbShell
draw_block f =
    let c = f.cursor in
    let dw = not (is_single c.attr.type) in
    let x = if is_right c.attr.type then u16 (c.x + 65535) else c.x in
    let attr =
      if c.showed
      then record (c.attr) { fcolor = c.attr.bcolor; bcolor = c.attr.fcolor }
      else c.attr in
    draw_chars attr x c.y (u16 (if dw then fw f 2 else fw f 1)) 1 (c.code ∷ []) (dw ∷ []) f

-- The cursor is on the screen.
abbrev pub has_cursor : FbShell → Bool
has_cursor f = ltb f.cursor.x (term f).screen.width && ltb f.cursor.y (term f).screen.height

-- `FbShell::updateCursor`
unfoldable pub update_cursor : FbShell → FbShell
update_cursor f =
    let u = record f { cursor = record (f.cursor) { showed = not f.cursor.showed } } in
    let shape = cursor_shape u in
    if f.is_active && has_cursor f
    then if shape == 1 then u else if shape == 2 then draw_line u else draw_block u
    else f

-- `FbShell::reportCursor`
unfoldable pub report_cursor : FbShell → FbShell
report_cursor f = if f.has_im then call (im_cursor_pos f.cursor.x f.cursor.y) f else f

-- `FbShell::drawCursor`
unfoldable pub draw_cursor : CharAttr → ℕ → ℕ → ℕ → FbShell → FbShell
draw_cursor attr x y c f =
    let u = update_cursor (record f {
      cursor = record { showed = false; x = x; y = y; code = c; attr = adjust_char_attr attr };
    }) in
    if f.is_active && (not (f.cursor.x == x) || not (f.cursor.y == y)) then report_cursor u else u
