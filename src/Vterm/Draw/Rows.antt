-- ===== src/Vterm/Draw/Rows.antt =====
-- When the loop of `expose` over the columns ends.
use fbterm.Prelude.{
  ℕ, zero, suc, ◌+◌, ◌-◌, ◌<◌, ◌≤◌, if_both, ltb, Bool-cases, inl, inr, ◌≡◌, refl, Bool, true,
  false, none, some, leb, u16, arith,
}
use fbterm.Vterm.Types.{is_left, Cell}
use fbterm.Vterm.State.{Term}
use fbterm.Vterm.Draw.{
  row_cell, row_start, row_end, row_run, expose_row, Run, expose_step, expose_loop, expose_runs,
}

module _ (inverse_screen : Bool) (y : ℕ) (cell : ℕ → Cell) where
  -- Where the last position is below 65535, the loop ends after a round for each position, and has
  -- drawn what the counted loop draws.
  pub expose_loop-ends :
      (n fuel endx cur : ℕ) (r : Run)
      → cur + n ≡ endx + 1
      → endx < 65535
      → n < fuel
      → expose_loop fuel inverse_screen y cell endx cur r
        ≡ some (expose_runs inverse_screen y cell n cur r)
  unfolding expose_loop expose_runs
  expose_loop-ends n zero endx cur r e b h = absurd (omega arith)
  expose_loop-ends zero (suc fuel) endx cur r e b h = ground (arith, e)
  expose_loop-ends (suc n) (suc fuel) endx cur r e b h =
      let (drawn, r') = expose_step inverse_screen y cur (cell cur) r in
      let next : u16 (cur + 1) ≡ cur + 1 = omega (arith, e, b) in
      let rest =
        expose_loop-ends n fuel endx (cur + 1) r' (omega (arith, e)) b (omega (arith, h)) in
      let within : leb cur endx ≡ true = ground (arith, e) in rw (within, next, rest) refl

  -- From behind the last position there is no round.
  pub expose_loop-passed :
      (fuel endx cur : ℕ) (r : Run)
      → endx < cur
      → expose_loop (suc fuel) inverse_screen y cell endx cur r
        ≡ some (expose_runs inverse_screen y cell (endx + 1 - cur) cur r)
  unfolding expose_loop expose_runs
  expose_loop-passed fuel endx cur r h =
      let no_round : endx + 1 - cur ≡ 0 = omega (arith, h) in
      let past : leb cur endx ≡ false = ground (arith, h) in rw (no_round, past) refl

  -- Where the last position is 65535, it does not end: the counter begins again at 0.
  pub expose_loop-runs_on :
      (fuel cur : ℕ) (r : Run)
      → cur < 65536
      → expose_loop fuel inverse_screen y cell 65535 cur r ≡ none
  unfolding expose_loop
  expose_loop-runs_on zero cur r h = refl
  expose_loop-runs_on (suc fuel) cur r h =
      let r' = (expose_step inverse_screen y cur (cell cur) r).1 in
      let rest = expose_loop-runs_on fuel (u16 (cur + 1)) r' (omega arith) in
      let within : leb cur 65535 ≡ true = ground (arith, h) in rw (within, rest) refl

-- On a screen of fewer than 65535 columns, the loop of `expose` over a stretch of a row ends within
-- 65536 rounds, and has drawn what the counted loop draws.
pub expose_row-ends :
    (t : Term) (x w y : ℕ)
    → t.screen.width < 65535
    → 0 < w
    → x + w ≤ t.screen.width
    → expose_loop 65536 t.flags.inverse_screen y
        (row_cell t y)
        (row_end t x w y)
        (row_start t x y)
        (row_run t x y)
      ≡ some (expose_row t x w y)
unfolding expose_row
expose_row-ends t x w y narrow some_columns inside =
    let end_in : row_end t x w y < 65535 =
      if_both (λ e. e < 65535) (is_left (row_cell t y (x + w - 1)).attr.type)
        (omega (arith, narrow, inside, some_columns))
        (omega (arith, narrow, inside, some_columns)) in
    elim (Bool-cases (ltb (row_end t x w y + 1) (row_start t x y))) [
      | inl none_left ↦
          expose_loop-passed t.flags.inverse_screen y (row_cell t y) 65535 (row_end t x w y)
            (row_start t x y) (row_run t x y) (ground (arith, none_left))
      | inr in_order ↦
          expose_loop-ends t.flags.inverse_screen y (row_cell t y)
            (row_end t x w y + 1 - row_start t x y) 65536 (row_end t x w y) (row_start t x y)
            (row_run t x y) (ground (arith, in_order)) end_in (omega (arith, end_in))
    ]
