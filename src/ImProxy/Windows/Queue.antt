-- ===== src/ImProxy/Windows/Queue.antt =====
-- The messages kept for a window.
use fbterm.Prelude.Lists.{length-++}
use fbterm.Prelude.{
  ℕ, zero, suc, ◌+◌, ◌-◌, ◌≤◌, Bool, false, [], ◌∷◌, length, ltb, if◌then◌else◌, if_both, arith,
}
use fbterm.Screen.Rotate.{Rect}
use fbterm.ImProxy.Windows.{
  Windows, Drawing, fill_rect, draw_text, is_empty, cover, uncover, set_im_win, add_loop,
  add_win_msg, take_drawing, msg_drawtext_max_len,
}

-- No window keeps more than 512 messages.
unfoldable pub IsBounded : Windows → Type 0
IsBounded p = (i : ℕ) → length (p.win_msgs i) ≤ 512

add_loop-IsBounded :
    (n i num : ℕ) (rect : Rect) (m : Drawing) (p : Windows)
    → IsBounded p
    → IsBounded (add_loop n i num rect m p).1
unfolding add_loop IsBounded
add_loop-IsBounded zero i num rect m p k = k
add_loop-IsBounded (suc n) i num rect m p k =
    let rest =
      add_loop-IsBounded n (i + 1) (if is_empty (p.wins i) then num else num - 1) rect m p k in
    λ j. ground (arith, rest j, k j, k i, length-++ (p.win_msgs i) (m ∷ []))

add_win_msg-IsBounded : (m : Drawing) (p : Windows) → IsBounded p → IsBounded (add_win_msg m p).1
unfolding add_win_msg
add_win_msg-IsBounded (fill_rect rect color len) p k =
    add_loop-IsBounded 10 0 p.valid_win_num rect (fill_rect rect color len) p k
add_win_msg-IsBounded (draw_text x y fc bc len text) p k =
    if_both (λ (r : Bool × Windows). IsBounded r.1) (ltb msg_drawtext_max_len len) {x = (false, p)}
      k
      (add_loop-IsBounded 10 0 p.valid_win_num (record { x = x; y = y; w = 1; h = 1 })
        (draw_text x y fc bc len text) p k)

drawn-IsBounded : (m : Drawing) (p : Windows) → IsBounded p → IsBounded (take_drawing m p)
unfolding take_drawing IsBounded
drawn-IsBounded m p k = λ j. ground (arith, add_win_msg-IsBounded m p k j)

set_im_win-IsBounded :
    (id : ℕ) (rect : Rect) (p : Windows) → IsBounded p → IsBounded (set_im_win id rect p)
unfolding set_im_win IsBounded uncover cover
set_im_win-IsBounded id rect p k = λ j. ground (arith, k j)

-- A message that draws leaves no window with more than 512 messages, and neither does setting a window.
pub take_drawing-IsBounded :
    (m : Drawing) (id : ℕ) (rect : Rect) (p : Windows)
    → IsBounded p
    → IsBounded (take_drawing m p) × IsBounded (set_im_win id rect p)
take_drawing-IsBounded m id rect p k = (drawn-IsBounded m p k, set_im_win-IsBounded id rect p k)
