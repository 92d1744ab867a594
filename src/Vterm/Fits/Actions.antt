-- ===== src/Vterm/Fits/Actions.antt =====
-- Every action keeps the geometry.
use fbterm.Prelude.{ℕ, ◌-◌, ◌≡◌, ltb, ◌||◌, if◌then◌else◌, sub16, arith}
use fbterm.Prelude.Loops.{for_range-keeps}
use fbterm.Vterm.Types.{Cell}
use fbterm.Vterm.State.{Term, Screen}
use fbterm.Vterm.Cursor
use fbterm.Vterm.Cursor.{count_param}
use fbterm.Vterm.Edit
use fbterm.Vterm.Edit.{align_row, update_pending, enter_margins}
use fbterm.Vterm.Resize
use fbterm.Vterm.Resize.{reset_fields}
use fbterm.Vterm.Fits.{Fits}
use fbterm.Vterm.Fits.Areas.{
  changed_line-Fits, move_cursor-Fits, clear_area-Fits, shift_text-Fits, update-Fits, height-update,
  scroll_region-Fits,
}

pub cr-Fits : (t : Term) → Fits t.screen → Fits (Cursor.cr t).screen
unfolding Cursor.cr
cr-Fits t f = grind (arith, move_cursor-Fits)

pub bs-Fits : (t : Term) → Fits t.screen → Fits (Cursor.bs t).screen
unfolding Cursor.bs
bs-Fits t f = grind (arith, move_cursor-Fits)

pub tab-Fits : (t : Term) → Fits t.screen → Fits (Cursor.tab t).screen
unfolding Cursor.tab
tab-Fits t f = grind (arith, move_cursor-Fits)

pub set_tab-Fits : (t : Term) → Fits t.screen → Fits (Cursor.set_tab t).screen
unfolding Cursor.set_tab
set_tab-Fits t f = grind (arith, move_cursor-Fits)

pub clear_tab-Fits : (t : Term) → Fits t.screen → Fits (Cursor.clear_tab t).screen
unfolding Cursor.clear_tab
clear_tab-Fits t f = grind (arith, move_cursor-Fits)

pub save_cursor-Fits : (t : Term) → Fits t.screen → Fits (Cursor.save_cursor t).screen
unfolding Cursor.save_cursor
save_cursor-Fits t f = grind (arith, move_cursor-Fits)

pub restore_cursor-Fits : (t : Term) → Fits t.screen → Fits (Cursor.restore_cursor t).screen
unfolding Cursor.restore_cursor
restore_cursor-Fits t f = grind (arith, move_cursor-Fits)

pub cursor_left-Fits : (t : Term) → Fits t.screen → Fits (Cursor.cursor_left t).screen
unfolding Cursor.cursor_left
cursor_left-Fits t f = grind (arith, move_cursor-Fits)

pub cursor_right-Fits : (t : Term) → Fits t.screen → Fits (Cursor.cursor_right t).screen
unfolding Cursor.cursor_right
cursor_right-Fits t f = grind (arith, move_cursor-Fits)

pub cursor_up-Fits : (t : Term) → Fits t.screen → Fits (Cursor.cursor_up t).screen
unfolding Cursor.cursor_up
cursor_up-Fits t f = grind (arith, move_cursor-Fits)

pub cursor_down-Fits : (t : Term) → Fits t.screen → Fits (Cursor.cursor_down t).screen
unfolding Cursor.cursor_down
cursor_down-Fits t f = grind (arith, move_cursor-Fits)

pub cursor_up_cr-Fits : (t : Term) → Fits t.screen → Fits (Cursor.cursor_up_cr t).screen
unfolding Cursor.cursor_up_cr
cursor_up_cr-Fits t f = grind (arith, move_cursor-Fits)

pub cursor_down_cr-Fits : (t : Term) → Fits t.screen → Fits (Cursor.cursor_down_cr t).screen
unfolding Cursor.cursor_down_cr
cursor_down_cr-Fits t f = grind (arith, move_cursor-Fits)

pub cursor_position-Fits : (t : Term) → Fits t.screen → Fits (Cursor.cursor_position t).screen
unfolding Cursor.cursor_position
cursor_position-Fits t f = grind (arith, move_cursor-Fits)

pub cursor_position_col-Fits :
    (t : Term) → Fits t.screen → Fits (Cursor.cursor_position_col t).screen
unfolding Cursor.cursor_position_col
cursor_position_col-Fits t f = grind (arith, move_cursor-Fits)

pub cursor_position_row-Fits :
    (t : Term) → Fits t.screen → Fits (Cursor.cursor_position_row t).screen
unfolding Cursor.cursor_position_row
cursor_position_row-Fits t f = grind (arith, move_cursor-Fits)

pub ring_bell-Fits : (t : Term) → Fits t.screen → Fits (Cursor.ring_bell t).screen
unfolding Cursor.ring_bell
ring_bell-Fits t f = grind (arith, move_cursor-Fits)

pub lf-Fits : (t : Term) → Fits t.screen → Fits (Cursor.lf t).screen
unfolding Cursor.lf
lf-Fits t f = grind (arith, move_cursor-Fits, scroll_region-Fits, cr-Fits)

pub next_line-Fits : (t : Term) → Fits t.screen → Fits (Cursor.next_line t).screen
unfolding Cursor.next_line
next_line-Fits t f = cr-Fits _ (lf-Fits t f)

pub index_down-Fits : (t : Term) → Fits t.screen → Fits (Cursor.index_down t).screen
unfolding Cursor.index_down
index_down-Fits t f = lf-Fits t f

pub index_up-Fits : (t : Term) → Fits t.screen → Fits (Cursor.index_up t).screen
unfolding Cursor.index_up
index_up-Fits t f = grind (arith, move_cursor-Fits, scroll_region-Fits)

pub insert_char-Fits : (t : Term) → Fits t.screen → Fits (Edit.insert_char t).screen
unfolding Edit.insert_char
insert_char-Fits t f = grind (arith, clear_area-Fits, shift_text-Fits)

pub delete_char-Fits : (t : Term) → Fits t.screen → Fits (Edit.delete_char t).screen
unfolding Edit.delete_char
delete_char-Fits t f = grind (arith, clear_area-Fits, shift_text-Fits)

pub erase_char-Fits : (t : Term) → Fits t.screen → Fits (Edit.erase_char t).screen
unfolding Edit.erase_char
erase_char-Fits t f = grind (arith, clear_area-Fits)

pub insert_line-Fits : (t : Term) → Fits t.screen → Fits (Edit.insert_line t).screen
unfolding Edit.insert_line
insert_line-Fits t f = grind (arith, clear_area-Fits, scroll_region-Fits)

pub delete_line-Fits : (t : Term) → Fits t.screen → Fits (Edit.delete_line t).screen
unfolding Edit.delete_line
delete_line-Fits t f = grind (arith, clear_area-Fits, scroll_region-Fits)

pub erase_line-Fits : (t : Term) → Fits t.screen → Fits (Edit.erase_line t).screen
unfolding Edit.erase_line
erase_line-Fits t f = grind (arith, clear_area-Fits)

pub erase_display-Fits : (t : Term) → Fits t.screen → Fits (Edit.erase_display t).screen
unfolding Edit.erase_display
erase_display-Fits t f = grind (arith, clear_area-Fits)

align_row-Fits : (c : Cell) (y : ℕ) (s : Screen) → Fits s → Fits (align_row c y s)
unfolding align_row
align_row-Fits c y s f = grind (arith, changed_line-Fits)

pub screen_align-Fits : (t : Term) → Fits t.screen → Fits (Edit.screen_align t).screen
unfolding Edit.screen_align
screen_align-Fits t f = for_range-keeps Fits _ t.screen.height 0 t.screen (align_row-Fits _) f

pub update_pending-Fits : (t : Term) → Fits t.screen → Fits (update_pending t).screen
unfolding update_pending
update_pending-Fits t f = grind (arith, update-Fits)

height-update_pending : (t : Term) → (update_pending t).screen.height ≡ t.screen.height
unfolding update_pending
height-update_pending t = ground (arith, height-update t)

enter_margins-Fits : (s : Screen) → Fits s → Fits (enter_margins s)
unfolding enter_margins
enter_margins-Fits s f = grind (arith, move_cursor-Fits)

pub set_margins-Fits : (t : Term) → Fits t.screen → Fits (Edit.set_margins t).screen
unfolding Edit.set_margins
set_margins-Fits t f =
    let u = update_pending t in
    let g = update_pending-Fits t f in
    ground (
      arith,
      g,
      height-update_pending t,
      enter_margins-Fits (record (u.screen) {
        scroll_top = count_param 0 t - 1;
        scroll_bot =
            sub16
              (if ltb (t.parser.param 1) 1 || ltb t.screen.height (t.parser.param 1)
                then t.screen.height
                else t.parser.param 1)
              1;
      }),
    )

pub reset_fields-Fits : (t : Term) → Fits t.screen → Fits (reset_fields t).screen
unfolding reset_fields
reset_fields-Fits t f = ground arith

pub reset-Fits : (t : Term) → Fits t.screen → Fits (Resize.reset t).screen
unfolding Resize.reset
reset-Fits t f = grind (arith, reset_fields-Fits t f, clear_area-Fits)
