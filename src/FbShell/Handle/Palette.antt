-- ===== src/FbShell/Handle/Palette.antt =====
-- The palette of the screen is that of the shell that it shows, as far as `setPalette` looks at it.
use fbterm.Prelude.{
  ℕ, ◌≡◌, refl, sym, ap, ◌∙◌, Bool, true, false, not, ◌&&◌, ◌||◌, Option, none, some, List, [], ◌∷◌,
  ◌==◌, if◌then◌else◌, if_both, Store, arith,
}
use fbterm.Vterm.Types as V
use fbterm.Vterm.Types.{Event, ModeType, RequestType, CharAttr}
use fbterm.Vterm.State.{mode}
use fbterm.FbShell.Palette.{Color}
use fbterm.Screen.Palette as Screen
use fbterm.Screen.Palette.{PalettePointer, ScreenPalette, default_palette_at, same_pointer}
use fbterm.FbShell.State.{FbShell, Call, set_palette, console_messages, im_switch_vt, call}
use fbterm.FbShell.Cursor.{
  adjust_char_attr, draw_chars, move_chars, draw_cursor, update_cursor, draw_line, draw_block,
  redraw_im, report_cursor,
}
use fbterm.FbShell.Modes.{
  concerns, mode_changed, request, set_color, clear_colors, switch_vt, own_palette, own_pointer,
  default_colors, enable_cursor, change_mode, pass_mode, report_mode,
}
use fbterm.FbShell.Handle.{handle}

-- The pointer and the palette of the last call that sets one.
unfoldable pub told_palette : List Call → Option (PalettePointer × Store Color)
told_palette [] = none
told_palette (set_palette p colors ∷ cs) = some (p, colors)
told_palette (_ ∷ cs) = told_palette cs

-- The palette of the screen after the calls, where it was `s` before them.
unfoldable pub screen_palette : ScreenPalette → List Call → ScreenPalette
screen_palette s [] = s
screen_palette s (set_palette p colors ∷ cs) = Screen.set_palette p colors (screen_palette s cs)
screen_palette s (_ ∷ cs) = screen_palette s cs

-- The palette, and what the screen has been told of it, are those of `f`.
record SamePalette (f u : FbShell) : Type 0 where
  own : own_palette u ≡ own_palette f
  pointer : own_pointer u ≡ own_pointer f
  told : told_palette u.calls ≡ told_palette f.calls
  shown : (s : ScreenPalette) → screen_palette s u.calls ≡ screen_palette s f.calls
  active : u.is_active ≡ f.is_active

SamePalette-refl : (f : FbShell) → SamePalette f f
SamePalette-refl f = record {
  own = refl;
  pointer = refl;
  told = refl;
  shown = λ s. refl;
  active = refl;
}

SamePalette-trans : {f u v : FbShell} → SamePalette f u → SamePalette u v → SamePalette f v
SamePalette-trans a b = record {
  own = b.own ∙ a.own;
  pointer = b.pointer ∙ a.pointer;
  told = b.told ∙ a.told;
  shown = λ s. b.shown s ∙ a.shown s;
  active = b.active ∙ a.active;
}

draw_chars-SamePalette :
    (attr : CharAttr) (x y w num : ℕ) (chars : List ℕ) (dws : List Bool) (f : FbShell)
    → SamePalette f (draw_chars attr x y w num chars dws f)
unfolding draw_chars redraw_im told_palette screen_palette
draw_chars-SamePalette attr x y w num chars dws f = ground arith

move_chars-SamePalette :
    (answer : Bool) (sx sy dx dy w h : ℕ) (f : FbShell)
    → SamePalette f (move_chars answer sx sy dx dy w h f).1
unfolding move_chars told_palette screen_palette
move_chars-SamePalette answer sx sy dx dy w h f = ground arith

update_cursor-SamePalette : (f : FbShell) → SamePalette f (update_cursor f)
unfolding update_cursor draw_line draw_block redraw_im told_palette screen_palette
update_cursor-SamePalette f = grind (arith, draw_chars-SamePalette)

report_cursor-SamePalette : (f : FbShell) → SamePalette f (report_cursor f)
unfolding report_cursor told_palette screen_palette
report_cursor-SamePalette f = ground arith

draw_cursor-SamePalette :
    (attr : CharAttr) (x y c : ℕ) (f : FbShell) → SamePalette f (draw_cursor attr x y c f)
unfolding draw_cursor
draw_cursor-SamePalette attr x y c f =
    let u = record f {
      cursor = record { showed = false; x = x; y = y; code = c; attr = adjust_char_attr attr };
    } in
    let v = update_cursor u in
    let at_v : SamePalette f v =
      SamePalette-trans
        (record { own = refl; pointer = refl; told = refl; shown = λ s. refl; active = refl })
        (update_cursor-SamePalette u) in
    if_both (SamePalette f) _ (SamePalette-trans at_v (report_cursor-SamePalette v)) at_v

enable_cursor-SamePalette : (enable : Bool) (f : FbShell) → SamePalette f (enable_cursor enable f)
unfolding enable_cursor told_palette screen_palette
enable_cursor-SamePalette enable f = ground arith

change_mode-SamePalette :
    (type : ModeType) (val : Bool) (f : FbShell) → SamePalette f (change_mode type val f)
unfolding change_mode told_palette screen_palette
change_mode-SamePalette type val f = ground arith

pass_mode-SamePalette : (type flag : ModeType) (f : FbShell) → SamePalette f (pass_mode type flag f)
unfolding pass_mode
pass_mode-SamePalette type flag f =
    if_both (SamePalette f) (concerns type flag) (change_mode-SamePalette flag _ f)
      (SamePalette-refl _)

report_mode-SamePalette : (f : FbShell) → SamePalette f (report_mode f)
unfolding report_mode told_palette screen_palette
report_mode-SamePalette f = ground arith

mode_changed-SamePalette : (type : ModeType) (f : FbShell) → SamePalette f (mode_changed type f)
unfolding mode_changed
mode_changed-SamePalette type f =
    let same : SamePalette f f = SamePalette-refl _ in
    let t = f.shell.term in
    let shown =
      if_both (SamePalette f)
        (concerns type ModeType.cursor_visible || concerns type ModeType.cursor_shape)
        (enable_cursor-SamePalette
          (not (mode t ModeType.cursor_visible == 0) && not (mode t ModeType.cursor_shape == 1)) f)
        same in
    let one = SamePalette-trans shown (pass_mode-SamePalette type ModeType.cursor_key_esc_o _) in
    let two = SamePalette-trans one (pass_mode-SamePalette type ModeType.auto_repeat_key _) in
    let three = SamePalette-trans two (pass_mode-SamePalette type ModeType.applic_keypad _) in
    let passed = SamePalette-trans three (pass_mode-SamePalette type ModeType.cr_with_lf _) in
    if_both (SamePalette f) f.is_active
      (if_both (SamePalette f) _ (SamePalette-trans passed (report_mode-SamePalette _)) passed) same

-- The screen has been told the shell's own palette.
unfoldable pub ShowsOwn : FbShell → Type 0
ShowsOwn f = told_palette f.calls ≡ some (own_pointer f, own_palette f)

SamePalette-ShowsOwn : {f u : FbShell} → SamePalette f u → ShowsOwn f → ShowsOwn u
unfolding ShowsOwn
SamePalette-ShowsOwn {f} {u} s h =
    s.told
    ∙ h
    ∙ ap some (sym (ap (λ p. (p, own_palette u)) s.pointer ∙ ap (λ c. (own_pointer f, c)) s.own))

-- The screen has the pointer to the shell's own palette, and is set up for its colours.
unfoldable pub IsShown : ScreenPalette → FbShell → Type 0
IsShown s f =
    ((screen_palette s f.calls).pointer ≡ own_pointer f)
    × ((screen_palette s f.calls).colors ≡ own_palette f)

-- Whether the event sets a colour of a palette that has been changed before.
abbrev pub sets_again : Event → FbShell → Bool
sets_again (V.request RequestType.palette_set val) f = f.palette_changed
sets_again _ f = false

-- What the screen has after an event.
unfoldable pub Follows : ScreenPalette → Event → FbShell → FbShell → Type 0
Follows s e f u =
    ((screen_palette s u.calls).pointer ≡ own_pointer u)
    × ((screen_palette s u.calls).colors
        ≡ (if sets_again e f then own_palette f else own_palette u))

same-Follows :
    (s : ScreenPalette) (e : Event) {f u : FbShell}
    → sets_again e f ≡ false
    → SamePalette f u
    → IsShown s f
    → Follows s e f u
unfolding IsShown Follows
same-Follows s e {f} {u} n same h = (
  ap (λ v. v.pointer) (same.shown s) ∙ h.0 ∙ sym same.pointer,
  ap (λ v. v.colors) (same.shown s)
      ∙ h.1
      ∙ sym same.own
      ∙ ap (λ b. if b then own_palette f else own_palette u) (sym n),
)

request-Follows :
    (s : ScreenPalette) (type : RequestType) (val : ℕ) (f : FbShell)
    → f.is_active ≡ true
    → IsShown s f
    → Follows s (V.request type val) f (request type val f)
unfolding IsShown Follows request set_color clear_colors screen_palette Screen.set_palette
request-Follows s type val f a h = ground (arith, a, h)

-- After a call of the terminal of the shell that is shown, the screen has the pointer to the palette
-- of the shell, and it is set up for its colours, unless the call sets a colour of a palette that has
-- been changed before: then it is set up for the colours before the call.
pub handle-Follows :
    (s : ScreenPalette) (answer : Bool) (e : Event) (f : FbShell)
    → f.is_active ≡ true
    → IsShown s f
    → Follows s e f (handle answer e f)
unfolding handle
handle-Follows s answer (V.draw_chars attr x y w num chars dws) f a h =
    same-Follows s (V.draw_chars attr x y w num chars dws) refl
      (draw_chars-SamePalette attr x y w num chars dws f) h
handle-Follows s answer (V.move_chars sx sy dx dy w k) f a h =
    same-Follows s (V.move_chars sx sy dx dy w k) refl
      (move_chars-SamePalette answer sx sy dx dy w k f) h
handle-Follows s answer (V.draw_cursor attr x y c) f a h =
    same-Follows s (V.draw_cursor attr x y c) refl (draw_cursor-SamePalette attr x y c f) h
handle-Follows s answer (V.send_back bytes) f a h =
    same-Follows s (V.send_back bytes) refl
      (record { own = refl; pointer = refl; told = refl; shown = λ s. refl; active = refl }) h
handle-Follows s answer (V.mode_changed type) f a h =
    same-Follows s (V.mode_changed type) refl (mode_changed-SamePalette type f) h
handle-Follows s answer (V.history_changed cur total) f a h =
    same-Follows s (V.history_changed cur total) refl (SamePalette-refl f) h
handle-Follows s answer (V.request type val) f a h = request-Follows s type val f a h

entered : Bool → Bool → FbShell → FbShell
entered peer peer_im f =
    let taken = call (console_messages true) f in
    let told = if f.has_im then call (im_switch_vt true (peer && peer_im)) taken else taken in
    call (set_palette (own_pointer f) (own_palette f)) told

entered-ShowsOwn : (peer peer_im : Bool) (f : FbShell) → ShowsOwn (entered peer peer_im f)
unfolding entered ShowsOwn told_palette
entered-ShowsOwn peer peer_im f = ground arith

-- The shell that comes to be shown tells the screen its palette, and the shell that was shown resets
-- it where no other one follows.
pub switch_vt-ShowsOwn :
    (peer peer_im : Bool) (f : FbShell)
    → ShowsOwn (switch_vt true peer peer_im f)
      × (told_palette (switch_vt false false peer_im f).calls
          ≡ some (default_palette_at, default_colors))
unfolding switch_vt entered told_palette
switch_vt-ShowsOwn peer peer_im f = (
  SamePalette-ShowsOwn
      (SamePalette-trans (mode_changed-SamePalette ModeType.all_modes (entered peer peer_im f))
        (report_cursor-SamePalette _))
      (entered-ShowsOwn peer peer_im f),
  refl,
)
