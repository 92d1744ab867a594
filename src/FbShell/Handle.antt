-- ===== src/FbShell/Handle.antt =====
-- src/fbshell.h: the virtual functions, by which the terminal acts on the shell, and the palette.
pub mod Palette
use fbterm.Prelude.{ℕ, ◌≡◌, refl, Bool, true, false, List, [], ◌∷◌, if◌then◌else◌, arith}
use fbterm.Vterm.Types as V
use fbterm.Vterm.Types.{Event, ModeType, RequestType}
use fbterm.Shell.Select.{send_string}
use fbterm.FbShell.State.{FbShell, call}
use fbterm.FbShell.Cursor.{
  draw_chars, move_chars, draw_cursor, update_cursor, draw_line, draw_block, redraw_im,
  report_cursor,
}
use fbterm.FbShell.Modes.{mode_changed, request, set_color, clear_colors}

-- A call of the terminal; `answer` is what the screen says to a move. `historyChanged` is not
-- overridden.
unfoldable pub handle : Bool → Event → FbShell → FbShell
handle answer (V.draw_chars attr x y w num chars dws) f = draw_chars attr x y w num chars dws f
handle answer (V.move_chars sx sy dx dy w h) f = (move_chars answer sx sy dx dy w h f).1
handle answer (V.draw_cursor attr x y c) f = draw_cursor attr x y c f
handle answer (V.send_back bytes) f = record f { shell = send_string bytes f.shell }
handle answer (V.mode_changed type) f = mode_changed type f
handle answer (V.history_changed cur total) f = f
handle answer (V.request type val) f = request type val f

request-silent :
    (type : RequestType) (val : ℕ) (f : FbShell)
    → f.is_active ≡ false
    → (request type val f).calls ≡ f.calls
unfolding request set_color clear_colors
request-silent type val f h = ground (arith, h)

draw_cursor-silent :
    (attr : V.CharAttr) (x y c : ℕ) (f : FbShell)
    → f.is_active ≡ false
    → (draw_cursor attr x y c f).calls ≡ f.calls
unfolding draw_cursor update_cursor
draw_cursor-silent attr x y c f h = ground (arith, h)

-- A shell that is not the active one does not draw, and sends nothing to the console, to the input
-- method or to the timer, whatever its terminal calls.
pub handle-silent :
    (answer : Bool) (e : Event) (f : FbShell)
    → f.is_active ≡ false
    → (handle answer e f).calls ≡ f.calls
unfolding handle draw_chars move_chars mode_changed
handle-silent answer (V.draw_chars attr x y w num chars dws) f h = ground (arith, h)
handle-silent answer (V.move_chars sx sy dx dy w k) f h = ground (arith, h)
handle-silent answer (V.draw_cursor attr x y c) f h = draw_cursor-silent attr x y c f h
handle-silent answer (V.send_back bytes) f h = refl
handle-silent answer (V.mode_changed type) f h = ground (arith, h)
handle-silent answer (V.history_changed cur total) f h = refl
handle-silent answer (V.request type val) f h = request-silent type val f h
