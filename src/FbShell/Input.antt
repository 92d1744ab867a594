-- ===== src/FbShell/Input.antt =====
-- src/fbshell.cpp: keys, mouse and text of the program, and the input method.
use fbterm.Prelude.{
  ℕ, ◌+◌, Bool, true, false, not, ◌&&◌, Option, some, List, [], ◌∷◌, ltb, leb, ◌==◌, if◌then◌else◌,
  u16, Store,
}
use fbterm.Prelude.Results.{◌>>=◌}
use fbterm.Vterm.Types.{CharAttr, Event, ModeType, is_single, is_right}
use fbterm.Vterm.Types as V
use fbterm.Vterm.State.{Term, mode, cell_at}
use fbterm.Vterm.Draw as D
use fbterm.Shell.Mouse.{MouseType, press, release, dbl_click, move, wheel}
use fbterm.Shell.Mouse as M
use fbterm.FbShell.State.{
  FbShell, draw_text, im_send_key, im_create, im_toggle, im_delete, call, term, fw, fh,
}
use fbterm.FbShell.Cursor.{adjust_char_attr, draw_chars, update_cursor, report_cursor}
use fbterm.FbShell.Modes.{report_mode}

-- The drawing of `VTerm::expose`, oldest call first. It makes no other calls.
unfoldable pub draw_all : List Event → FbShell → FbShell
draw_all [] f = f
draw_all (V.draw_chars attr x y w num chars dws ∷ es) f =
    draw_all es (draw_chars attr x y w num chars dws f)
draw_all (_ ∷ es) f = draw_all es f

-- The calls that `VTerm::expose` makes, oldest first.
unfoldable pub drawings : ℕ → ℕ → ℕ → ℕ → Term → List Event
drawings x y w h t = oldest_first [] (D.expose x y w h (record t { trace = [] })).trace
  where
    oldest_first : List Event → List Event → List Event
    oldest_first done [] = done
    oldest_first done (e ∷ es) = oldest_first (e ∷ done) es

-- `FbShell::expose`
unfoldable pub expose : ℕ → ℕ → ℕ → ℕ → FbShell → FbShell
expose x y w h f =
    let u = draw_all (drawings x y w h (term f)) f in
    let c = f.cursor in
    let inside = leb y c.y && ltb c.y (y + h) && leb x c.x && ltb c.x (x + w) in
    if not (mode (term f) ModeType.cursor_visible == 0) && inside
    then update_cursor (record u { cursor = record (u.cursor) { showed = false } })
    else u

-- `FbShell::clearMousePointer`
unfoldable pub clear_mouse_pointer : FbShell → FbShell
clear_mouse_pointer f =
    let u = record f { pointer = record (f.pointer) { drawed = false } } in
    if f.pointer.drawed then expose f.pointer.x f.pointer.y 1 1 u else f

-- `FbShell::imInput`
unfoldable pub im_input : List ℕ → FbShell → FbShell
im_input bytes f = let u = clear_mouse_pointer f in record u { shell = M.key_input bytes u.shell }

-- `FbShell::keyInput`
unfoldable pub key_input : List ℕ → FbShell → FbShell
key_input bytes f =
    if f.has_im && f.im_actived then call (im_send_key bytes) f else im_input bytes f

-- The pointer that `mouseInput` draws, on the left half of a double width character.
unfoldable pub draw_pointer : ℕ → ℕ → FbShell → FbShell
draw_pointer x y f =
    let u = clear_mouse_pointer f in
    let c = cell_at (term u) x y in
    let attr = adjust_char_attr c.attr in
    let x' = if is_right c.attr.type then u16 (x + 65535) else x in
    record (call
      (draw_text (fw u x') (fh u y) attr.bcolor attr.fcolor 1 (c.code ∷ [])
        (not (is_single c.attr.type) ∷ []))
      u) { pointer = record { x = x'; y = y; drawed = true } }

-- `FbShell::mouseInput`
unfoldable pub mouse_input : Store ℕ → ℕ → ℕ → MouseType → ℕ → FbShell → FbShell
mouse_input lut x y type buttons f = elim type [
  | move ↦
      let u = draw_pointer x y f in
      record u { shell = M.mouse_input lut u.pointer.x y move buttons u.shell }
  | press ↦ record f { shell = M.mouse_input lut x y press buttons f.shell }
  | release ↦ record f { shell = M.mouse_input lut x y release buttons f.shell }
  | dbl_click ↦ record f { shell = M.mouse_input lut x y dbl_click buttons f.shell }
  | wheel ↦ record f { shell = M.mouse_input lut x y wheel buttons f.shell }
]

-- `FbShell::readyRead`
unfoldable pub ready_read : List ℕ → FbShell → Option FbShell
ready_read bytes f =
    let u = clear_mouse_pointer f in
    M.ready_read bytes u.shell >>= λ s. some (record u { shell = s })

-- `FbShell::killIm`; the destructor of the input method's proxy calls `ImExited`.
unfoldable pub kill_im : FbShell → FbShell
kill_im f = if f.has_im then record (call im_delete f) { has_im = false } else f

-- `ImProxy::toggleActive`, with what it does to `actived`.
unfoldable pub toggle_active : FbShell → FbShell
toggle_active f =
    if f.im_connected then record (call im_toggle f) { im_actived = not f.im_actived } else f

-- `FbShell::toggleIm`; `connects` says that an input method that is started here connects in time.
unfoldable pub toggle_im : Bool → FbShell → FbShell
toggle_im connects f =
    let u = if f.has_im then f else record (call im_create f) {
      has_im = true;
      im_connected = connects;
      im_actived = false;
    } in
    report_mode (report_cursor (toggle_active u))
