-- ===== src/ImProxy/Windows.antt =====
-- src/improxy.cpp: the windows of the input method, and the drawing that is kept for them.
pub mod Count
pub mod Queue
use fbterm.Prelude.{
  ℕ, zero, suc, ◌+◌, ◌-◌, ◌/◌, ◌%◌, Bool, true, false, not, ◌&&◌, ◌||◌, List, [], ◌∷◌, ◌++◌, length,
  ltb, leb, ◌==◌, if◌then◌else◌, u16, u32, Store, put,
}
use fbterm.Screen.Rotate.{Rect}
use fbterm.ImProxy.Rectangles.{IntersectState, intersect, inside, outside, intersect_rectangles}

-- The messages that draw, with their length; the text is that behind the other fields.
pub data Drawing : Type 0 where
  fill_rect : (rect : Rect) → (color len : ℕ) → Drawing
  draw_text : (x y fc bc len : ℕ) → (text : List ℕ) → Drawing

pub data Call : Type 0 where
  expose : (col row w h : ℕ) → Call
  enable_scroll : (enable : Bool) → Call
  draw : Drawing → Call

-- The part of `ImProxy` for its windows. `sw`, `sh`, `font_w` and `font_h` are sizes in pixels of the
-- screen and of a character; `shell_active` says that the shell is the active one.
pub record Windows : Type 0 where
  pub sw : ℕ
  pub sh : ℕ
  pub font_w : ℕ
  pub font_h : ℕ
  pub shell_active : Bool
  pub valid_win_num : ℕ
  pub wins : Store Rect
  pub win_msgs : Store (List Drawing)
  -- newest first
  pub calls : List Call

abbrev pub call : Call → Windows → Windows
call c p = record p { calls = c ∷ p.calls }

-- `NR_IM_WINS`, `NR_WIN_MSGS` and `MSG_DRAWTEXT_MAX_LEN`
abbrev pub nr_im_wins : ℕ
nr_im_wins = 10

abbrev pub nr_win_msgs : ℕ
nr_win_msgs = 512

abbrev pub msg_drawtext_max_len : ℕ
msg_drawtext_max_len = 10240

abbrev pub no_rect : Rect
no_rect = record { x = 0; y = 0; w = 0; h = 0 }

abbrev pub is_empty : Rect → Bool
is_empty r = r.w == 0 || r.h == 0

-- The part of the rectangle that is on the screen, in `setImWin`.
unfoldable pub visible_part : Windows → Rect → Rect
visible_part p rect =
    let r : Rect = if is_empty rect || leb p.sw rect.x || leb p.sh rect.y then no_rect else rect in
    record r {
      w = if leb p.sw (u32 (r.x + r.w)) then p.sw - r.x else r.w;
      h = if leb p.sh (u32 (r.y + r.h)) then p.sh - r.y else r.h;
    }

abbrev pub is_inside : IntersectState → Bool
is_inside inside = true
is_inside _ = false

abbrev pub is_outside : IntersectState → Bool
is_outside outside = true
is_outside _ = false

-- The window is taken off the screen.
unfoldable pub uncover : ℕ → Windows → Windows
uncover id p =
    let old = p.wins id in
    let col = u16 (old.x / p.font_w) in
    let row = u16 (old.y / p.font_h) in
    let endcol = u16 (u32 (old.x + old.w) / p.font_w) in
    let endrow = u16 (u32 (old.y + old.h) / p.font_h) in
    call (expose col row (u16 (endcol + 65536 - col + 1)) (u16 (endrow + 65536 - row + 1)))
      (record p {
        wins = put p.wins id no_rect;
        valid_win_num = u32 (p.valid_win_num + 4294967295);
      })

-- The window is set to what is visible of it.
unfoldable pub cover : ℕ → Rect → Windows → Windows
cover id r p = record p {
  wins = put p.wins id r;
  valid_win_num =
      if (p.wins id).w == 0 && not (r.w == 0) then u32 (p.valid_win_num + 1) else p.valid_win_num;
}

-- `ImProxy::setImWin`
unfoldable pub set_im_win : ℕ → Rect → Windows → Windows
set_im_win id rect p =
    let r = visible_part p rect in
    let gone = p.shell_active && not (is_inside (intersect_rectangles (p.wins id) r)) in
    let u = cover id r (if gone then uncover id p else p) in
    let v = if p.shell_active then call (enable_scroll (u.valid_win_num == 0)) u else u in
    if leb nr_im_wins id then p else record v { win_msgs = put v.win_msgs id [] }

-- The loop of `addWinMsg`, from window `i` on with `n` windows left, of which `num` are valid; the answer
-- is false if the message is not to be drawn.
unfoldable pub add_loop : ℕ → ℕ → ℕ → Rect → Drawing → Windows → Bool × Windows
add_loop zero i num rect m p = (true, p)
add_loop (suc n) i num rect m p =
    let rest = add_loop n (i + 1) (if is_empty (p.wins i) then num else num - 1) rect m p in
    if num == 0
    then (true, p)
    else if is_empty (p.wins i) || not (is_inside (intersect_rectangles rect (p.wins i)))
    then rest
    else if leb nr_win_msgs (length (p.win_msgs i))
    then (false, p)
    else (true, record p { win_msgs = put p.win_msgs i (p.win_msgs i ++ m ∷ []) })

-- `ImProxy::addWinMsg`
unfoldable pub add_win_msg : Drawing → Windows → Bool × Windows
add_win_msg (fill_rect rect color len) p =
    add_loop nr_im_wins 0 p.valid_win_num rect (fill_rect rect color len) p
add_win_msg (draw_text x y fc bc len text) p =
    let added =
      add_loop nr_im_wins 0 p.valid_win_num (record { x = x; y = y; w = 1; h = 1 })
        (draw_text x y fc bc len text) p in
    if ltb msg_drawtext_max_len len then (false, p) else added

-- A message that draws is kept, and drawn where the shell is shown.
unfoldable pub take_drawing : Drawing → Windows → Windows
take_drawing m p =
    let (ok, u) = add_win_msg m p in if ok && p.shell_active then call (draw m) u else u

-- The messages of a window, in the order of their arrival.
unfoldable pub draw_kept : List Drawing → Windows → Windows
draw_kept [] p = p
draw_kept (m ∷ ms) p = draw_kept ms (call (draw m) p)

-- The loop of `redrawImWin`.
unfoldable pub redraw_loop : ℕ → ℕ → ℕ → Rect → Windows → Windows
redraw_loop zero i num rect p = p
redraw_loop (suc n) i num rect p =
    let hidden = is_empty (p.wins i) in
    let met = not hidden && not (is_outside (intersect_rectangles rect (p.wins i))) in
    let rest =
      redraw_loop n (i + 1) (if hidden then num else num - 1) rect
        (if met then draw_kept (p.win_msgs i) p else p) in
    if num == 0 then p else rest

-- `ImProxy::redrawImWin`
unfoldable pub redraw_im_win : Rect → Windows → Windows
redraw_im_win rect p = redraw_loop nr_im_wins 0 p.valid_win_num rect p
