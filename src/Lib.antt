-- ===== src/Lib.antt =====
-- fbterm, a terminal emulator for the Linux frame buffer. This library models the emulator itself
-- (`VTerm` of src/lib, with the tables that it reads), the shells that own one, the manager that shows
-- one of them, the screen that they draw on, and the input method's proxy.
--
-- `IoPipe` reads bytes from a program and converts them (`translate`). `VTerm::input` takes them. A byte
-- is decoded (UTF-8, or one of four character sets), and is then either written at the cursor
-- (`do_normal_char`) or looked up in the tables of sequences (`do_control_char`), whose entry names an
-- action and the state that follows. Actions change the arrays of cells, the line numbers by which rows
-- find their lines, the history that lines scroll into, the attributes and the modes. What has changed
-- is marked, and drawn at the end by calls of virtual functions. `Shell` adds the selection of text and
-- the reports of the mouse, and `FbShell` implements the virtual functions on `Screen`, which splits
-- text into glyphs, cuts and rotates rectangles, and scrolls by the offset of the memory that is shown.
-- `FbShellManager` holds up to ten shells, of which one is current, and shown while the console is ours.
-- `ImProxy` keeps the windows of an input method, and what it has drawn in them. `Config` holds the
-- options that the others ask for.
--
-- Files, and what they model:
--   Prelude         helpers: tests, u16 arithmetic, arrays, counted loops, runs that may not return
--   Charset         src/lib/charsetmap.cpp: the tables and `translate_char`
--   Width           src/lib/wcwidth.cpp: the interval tables, `bisearch`, `mk_wcwidth`,
--                   `mk_wcwidth_cjk`, `charWidth`
--   Vterm.Types     src/lib/vterm.h: the enumerations, `CharAttr`, `ModeFlag`
--   Vterm.State     src/lib/vterm.h: the fields of `VTerm`, in groups, and the functions that read them
--   Vterm.Area      src/lib/vterm.cpp: `changed_line`, `move_cursor`, `clear_area`, `shift_text`
--   Vterm.Scroll    src/lib/vterm.cpp: `scroll_region`, `history_scroll`, `historyDisplay`
--   Vterm.Draw      src/lib/vterm.cpp: `expose`, `update`, `draw_cursor` (here `show_cursor`)
--   Vterm.Cursor, Vterm.Edit, Vterm.Modes
--                   src/lib/vterm_action.cpp: the actions
--   Vterm.Sequences src/lib/vterm_states.cpp: the tables, `init_state`, and the lookup
--   Vterm.Resize    src/lib/vterm.cpp: `reset` and `resize`
--   Vterm.Decode    src/lib/vterm.cpp: UTF-8 decoding in `input`
--   Vterm.Input     src/lib/vterm.cpp: `do_normal_char`, `do_control_char`, `input`
--   Vterm.Inverse   src/lib/vterm.cpp: `inverse`
--   Io.Write        src/lib/io.cpp: `writeIo`
--   Io.Translate    src/lib/io.cpp: `translate` and `ready`
--   Shell.Text      src/lib/shell.cpp: `utf16_to_utf8`, by which selected text is copied
--   Shell.Select    src/lib/shell.cpp: the selection of text, `inverseTextColor`
--   Shell.Mouse     src/lib/shell.cpp: `textSelect`, `mouseInput`, `keyInput`, `readyRead`, `resize`
--   Shells          src/fbshellman.cpp: `FbShellManager`
--   FbShell.Palette src/fbshell.cpp: `defaultPalette`
--   FbShell.State   src/fbshell.h: the fields of `FbShell`
--   FbShell.Cursor  src/fbshell.cpp: `drawChars`, `drawCursor`, `updateCursor`, `adjustCharAttr`
--   FbShell.Modes   src/fbshell.cpp: `modeChanged`, `changeMode`, `request`, `switchVt`
--   FbShell.Codec   src/fbshell.cpp: `switchCodec`
--   FbShell.Input   src/fbshell.cpp: keys, mouse, `readyRead`, `expose`, `toggleIm`, `killIm`
--   FbShell.Handle  src/fbshell.h: the virtual functions, one for each event of the terminal
--   Config          src/fbconfig.cpp: `Config`
--   Screen.Palette  src/screen_render.cpp: `setPalette`, by the pointer that it is given
--   Screen.Rotate   src/screen.cpp: `rotateRect`, `rotatePoint`
--   Screen.Fill     src/screen.cpp: `fillRect`, `adjustOffset`
--   Screen.Text     src/screen.cpp: `drawText`, `drawGlyphs`
--   Screen.Move     src/screen.cpp: `move`, `eraseMargin`, `switchVc`
--   ImProxy.Rectangles, ImProxy.Windows
--                   src/improxy.cpp: `intersectRectangles`, `setImWin`, `addWinMsg`, `redrawImWin`
--   ImProxy.Text    src/improxy.cpp: `utf8_to_utf16`, `doDrawText`
--   ImProxy.Messages
--                   src/improxy.cpp: `readyRead` and the messages that are sent
-- The modules below these hold the proofs; Vterm.Fits is about the geometry.
--
-- How the source is rendered. An object is a record (`Term`, `Shell`, `FbShell`, `Manager`, `Screen`,
-- `Windows`, `ImProxy`), and a member function is a function on it. Numbers are natural numbers; where
-- a u16 or u32 can wrap, `u16`, `u32` and `sub16` say so. `pending_scroll`, the counts of
-- `scroll_region` and the screen's offset are integers. An array is a function on the index, with its
-- bounds stated as properties of the indices; `text` and `attrs` together are one array of cells. A call
-- that leaves the object is an event, added to a list of the record; `moveChars` alone has an answer, a
-- function of the calls made so far, which is a field of the settings. The manager knows a shell by a
-- number for its address, and 0 is the null pointer. Options of the configuration and sizes of the font
-- are fields. The answers of the kernel, of `iconv`, `getopt_long` and `strtol`, and the layout of an
-- input method's messages, are arguments. New memory in `resize` holds what an argument says. A `goto`
-- back to the decoder, for a byte that has broken off a sequence, is a second call of the decoder, which
-- can happen once only.
--
-- Bounds. A run that does not return is `none`. Two loops over columns may not end, since their u16
-- counters wrap. That of insert mode is given 65537 rounds, enough for every run that ends. That of
-- `expose` is `expose_loop`; the functions that draw use the counted loop `expose_runs`, which agrees
-- with it on screens of fewer than 65535 columns, and not on one of 65535 whose last column holds the
-- left half of a character, where the source goes on for ever. The loops of `inverse` are counted too:
-- they end unless the last column or row is 65535, and a screen ends at 65534. `bisearch` is given one
-- round more than its table has entries, which is enough on every ordered table. `decimal` writes at most
-- five digits, as many as a u16 and its successor have. `write_loop` runs on the answers it is given;
-- `translate_loop`, `frames` and `decode_loop` are given as many rounds as there are bytes, and
-- `parse_lines` one more, since each round takes a byte at least. The other loops over rows, columns,
-- places and windows are counted. Positions in `drawText` are not reduced modulo 2 ^ 32.
--
-- Not modelled: constructors' reading of the configuration, memory management, and the functions on
-- strings of wcwidth.cpp, which nothing calls; starting and ending processes and waiting for them
-- (`createShellProcess`, `initShellProcess`, `createImProcess`, `waitImMessage`); `drawGlyph`, whose
-- glyphs come from the font library, and the pixel formats of src/screen_render.cpp; fonts and devices
-- (src/font.cpp, src/fbdev.cpp, src/vesadev.cpp), which are calls of the kernel and of libraries;
-- keyboard and mouse (src/input.cpp, src/mouse.cpp); the dispatch of input and output (src/fbio.cpp);
-- where the configuration file is found, the default one that is written, and the start
-- (src/fbterm.cpp).
pub mod Prelude
pub mod Charset
pub mod Config
pub mod Width
pub mod Shell
pub mod Vterm
pub mod Shells
pub mod FbShell
pub mod Screen
pub mod ImProxy
pub mod Io
