-- ===== src/Shell/Mouse/Marked.antt =====
-- The colours of the selected text through the mouse events.
use fbterm.Prelude.{ℕ, ◌≡◌, Bool, true, false, ◌&&◌, Store, ◌==◌, if◌then◌else◌, if_both, arith}
use fbterm.Vterm.State.{Term}
use fbterm.Shell.Select.{
  Shell, reset_text_select, start_text_select, middle_text_select, end_text_select,
  auto_text_select,
}
use fbterm.Shell.Select.Marked.{
  IsMarked, reset_text_select-restores, start_text_select-IsMarked, auto_text_select-IsMarked,
  end_text_select-IsMarked, put_selected_text-IsMarked,
}
use fbterm.Shell.Mouse.{
  MouseType, press, release, dbl_click, move, wheel, is_press, left_button, right_button,
  text_select,
}

-- The event moves the end of a selection.
unfoldable pub drags : MouseType → Shell → Bool
drags move s = s.selecting
drags _ s = false

-- On a shell whose terminal is `base` with the selected stretch inverted, an event of the mouse that
-- does not move the end of a selection leaves the selected stretch inverted on `base`, so that the next
-- reset restores it.
pub text_select-IsMarked :
    (base : Term) (lut : Store ℕ) (x y : ℕ) (type : MouseType) (btn : ℕ) (s : Shell)
    → drags type s ≡ false
    → IsMarked base s
    → IsMarked base (text_select lut x y type btn s)
unfolding text_select drags
text_select-IsMarked base lut x y type btn s d k =
    if_both (IsMarked base) (btn == left_button) (left type d) (
      if_both (IsMarked base) (btn == right_button && is_press type)
        (put_selected_text-IsMarked base s k) k)
  where
    fresh :
        IsMarked base (start_text_select x y (record (reset_text_select s) { selecting = true }))
    fresh = start_text_select-IsMarked base x y _ (reset_text_select-restores base s k)

    left :
        (type : MouseType)
        → drags type s ≡ false
        → IsMarked base (elim type [
          | press ↦ start_text_select x y (record (reset_text_select s) { selecting = true })
          | move ↦
              if s.selecting
              then middle_text_select x y s
              else start_text_select x y (record (reset_text_select s) { selecting = true })
          | release ↦ end_text_select (record s { selecting = false })
          | dbl_click ↦ auto_text_select lut x y (reset_text_select s)
          | wheel ↦ s
        ])
    left press d = fresh
    left move d = ground (arith, d, fresh)
    left release d = end_text_select-IsMarked base s k
    left dbl_click d =
        auto_text_select-IsMarked base lut x y _ (reset_text_select-restores base s k)
    left wheel d = k
