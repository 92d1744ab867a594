-- ===== src/Vterm/Sample.antt =====
-- A small terminal, on which the tests run the program.
use fbterm.Prelude.{◌+◌, true, false, pos, none, []}
use fbterm.Vterm.Types.{CharAttr, Cell, single, es_normal, lat1_map, graf_map, new_mode_flag}
use fbterm.Vterm.State.{Term}

abbrev pub plain : CharAttr
plain = record {
  fcolor = 7;
  bcolor = 0;
  intensity = 1;
  italic = false;
  underline = false;
  blink = false;
  reverse = false;
  type = single;
}

abbrev pub empty : Cell
empty = record { code = b' '; attr = plain }

-- A terminal of four columns and three rows, in arrays of that size, that reads UTF-8. The cursor is
-- in the second column of the first row.
abbrev pub small : Term
small = record {
  settings = record {
    history_lines = 3;
    default_char_attr = plain;
    ambiguous_wide = false;
    moves = λ es. false;
  };
  parser = record {
    esc_state = es_normal;
    utf8 = true;
    utf8_count = 0;
    cur_char = 0;
    npar = 0;
    param = λ i. 0;
    q_mode = false;
    palette_mode = false;
  };
  charsets = record {
    g0_is_current = true;
    g0_is_active = true;
    s_g0_is_active = true;
    charset = lat1_map;
    g0_charset = lat1_map;
    g1_charset = graf_map;
    s_g0_charset = lat1_map;
    s_g1_charset = graf_map;
  };
  flags = record new_mode_flag { insert_mode = false; display_ctrl = false };
  pen = record {
    char_attr = plain;
    s_char_attr = plain;
    cur_fcolor = 7;
    cur_bcolor = 0;
    cur_underline_color = none;
    cur_halfbright_color = none;
  };
  screen = record {
    allocated = true;
    cells = λ i. empty;
    tab_stops = λ i. false;
    linenumbers = λ i. 3 + i;
    dirty_startx = λ i. 4;
    dirty_endx = λ i. 0;
    width = 4;
    height = 3;
    max_width = 4;
    max_height = 3;
    scroll_top = 0;
    scroll_bot = 2;
    pending_scroll = pos 0;
    cursor_x = 1;
    cursor_y = 0;
    s_cursor_x = 0;
    s_cursor_y = 0;
  };
  history = record { history_full = false; history_save_line = 0; visual_start_line = 0 };
  trace = [];
}
