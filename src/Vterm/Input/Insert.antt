-- ===== src/Vterm/Input/Insert.antt =====
-- Insert mode: the loop of `do_normal_char` that makes room for a character.
use fbterm.Prelude.{
  ℕ, zero, suc, ◌+◌, ◌-◌, ◌*◌, ◌≤◌, ◌<◌, ◌≡◌, refl, ◌∙◌, fun_ext, Bool, true, inl, inr, Bool-cases,
  none, some, ltb, if◌then◌else◌, sub16, Store, put, memmove, arith,
}
use fbterm.Vterm.Types.{Cell}
use fbterm.Vterm.State.{Term, Screen}
use fbterm.Vterm.Area.{changed_line}
use fbterm.Vterm.Input.{insert_loop, insert_rounds, make_room, place_char}

memmove-nothing : (dst src : ℕ) (cells : Store Cell) → memmove dst src 0 cells ≡ cells
memmove-nothing dst src cells = fun_ext λ j. ground arith

-- A round moves the last position, and leaves the move of those before it.
memmove-put :
    (at step n : ℕ) (cells : Store Cell)
    → 0 < step
    → memmove (at + step) at n (put cells (at + n + step) (cells (at + n)))
      ≡ memmove (at + step) at (n + 1) cells
memmove-put at step n cells h = fun_ext λ j. ground arith

insert_loop_lem :
    (fuel i cx yp step : ℕ) (cells : Store Cell)
    → 0 < cx
    → cx ≤ i + 1
    → i < 65536
    → i + 1 - cx < fuel
    → 0 < step
    → insert_loop fuel i cx yp step cells
      ≡ some (memmove (yp + cx + step) (yp + cx) (i + 1 - cx) cells)
unfolding insert_loop
insert_loop_lem zero i cx yp step cells c b w f s = absurd (omega arith)
insert_loop_lem (suc fuel) i cx yp step cells c b w f s = elim (Bool-cases (ltb i cx)) [
  | inl done ↦
      let e : i + 1 - cx ≡ 0 = ground arith in
      rw (done, e, memmove-nothing (yp + cx + step) (yp + cx) cells)
  | inr more ↦
      let n : ℕ = i - cx in
      let e : sub16 i 1 ≡ i - 1 = ground arith in
      let e1 : i + 1 - cx ≡ n + 1 = ground arith in
      let e2 : i - 1 + 1 - cx ≡ n = ground arith in
      let e3 : yp + i ≡ yp + cx + n = ground arith in
      rw (more, e, e1, e3)
        (insert_loop_lem fuel (i - 1) cx yp step _ c (ground arith) (omega arith) (ground arith) s
          ∙ rw (e2, memmove-put (yp + cx) step n cells s))
]

-- In insert mode, with the cursor behind the first column, room for the character, and less than 65536
-- columns, the loop of `do_normal_char` ends, and is one move of the rest of the line by the width of
-- the character.
pub make_room-memmove :
    (step : ℕ) (s : Screen)
    → 0 < step
    → 0 < s.cursor_x
    → s.cursor_x + step ≤ s.width
    → s.width < 65536
    → make_room step s
      ≡ some (record (changed_line s.cursor_y s.cursor_x (sub16 s.width 1) s) {
        cells =
            memmove
              (s.linenumbers s.cursor_y * s.max_width + s.cursor_x + step)
              (s.linenumbers s.cursor_y * s.max_width + s.cursor_x)
              (s.width - s.cursor_x - step)
              s.cells;
      })
unfolding make_room
make_room-memmove step s p c r w =
    let yp = s.linenumbers s.cursor_y * s.max_width in
    let e : sub16 s.width (step + 1) + 1 - s.cursor_x ≡ s.width - s.cursor_x - step = omega arith in
    rw (
      insert_loop_lem insert_rounds (sub16 s.width (step + 1)) s.cursor_x yp step s.cells c
          (omega arith) (omega arith) (omega arith) p,
      e,
    )

-- At column 0 the counter of the loop never falls below the cursor, however many rounds are made.
pub insert_loop_runs_on :
    (fuel i yp step : ℕ) (cells : Store Cell) → insert_loop fuel i 0 yp step cells ≡ none
unfolding insert_loop
insert_loop_runs_on zero i yp step cells = refl
insert_loop_runs_on (suc fuel) i yp step cells = ground (
  arith,
  insert_loop_runs_on fuel (sub16 i 1) yp step (put cells (yp + i + step) (cells (yp + i))),
)

-- In insert mode, with the cursor in column 0, the part of `do_normal_char` that places a character does
-- not return.
pub place_char_runs_on :
    (c : ℕ) (dw : Bool) (t : Term)
    → t.flags.insert_mode ≡ true
    → t.screen.cursor_x ≡ 0
    → place_char c dw t ≡ none
unfolding place_char make_room
place_char_runs_on c dw t m z = ground (
  arith,
  insert_loop_runs_on insert_rounds (sub16 t.screen.width ((if dw then 2 else 1) + 1))
      (t.screen.linenumbers t.screen.cursor_y * t.screen.max_width) (if dw then 2 else 1)
      t.screen.cells,
)
