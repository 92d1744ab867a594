-- ===== src/Shell/Select/Marked.antt =====
-- The colours of the selected text: what a selection inverts, its end restores.
use fbterm.Prelude.{
  ℕ, ◌+◌, ◌-◌, ◌/◌, ◌%◌, ◌≡◌, refl, sym, ap, ◌∙◌, true, false, inl, inr, Bool-cases, List, [], ◌∷◌,
  ltb, if◌then◌else◌, if_both, if_cases, u16, arith,
}
use fbterm.Prelude.Loops.{for_range-keeps}
use fbterm.Vterm.Types.{Event}
use fbterm.Vterm.State.{Term, emit, total_history_lines, get_line, cell_at}
use fbterm.Vterm.Draw.{emit_all, expose, expose_row}
use fbterm.Vterm.Inverse.{inverse, widen_start, widen_end, flip_rows, flip_row}
use fbterm.Vterm.Inverse.Undo.{inverse-inverse}
use fbterm.Shell.Select.{
  Shell, w, show_inversed, inverse_between, inverse_text_color, start_text_select,
  reset_text_select, end_text_select, auto_text_select, send_string, put_selected_text,
}

-- The terminal but for the calls it has made.
abbrev pub untraced : Term → Term
untraced t = record t { trace = [] }

emit_all-untraced : (es : List Event) (t : Term) → untraced (emit_all es t) ≡ untraced t
unfolding emit_all
emit_all-untraced [] t = refl
emit_all-untraced (e ∷ es) t = emit_all-untraced es (emit e t)

-- Drawing makes calls and changes nothing.
pub expose-untraced : (x y w h : ℕ) (t : Term) → untraced (expose x y w h t) ≡ untraced t
unfolding expose
expose-untraced x y w h t =
    let w' = if ltb t.screen.width (x + w) then t.screen.width - x else w in
    let h' = if ltb t.screen.height (y + h) then t.screen.height - y else h in
    if_both (λ u. untraced u ≡ untraced t) _ refl
      (for_range-keeps (λ u. untraced u ≡ untraced t) (λ row u. emit_all (expose_row t x w' row) u)
        h' y t (λ row u e. emit_all-untraced (expose_row t x w' row) u ∙ e) refl)

show_inversed-untraced :
    (sx sy ex ey : ℕ) (t : Term) → untraced (show_inversed sx sy ex ey t) ≡ untraced t
unfolding show_inversed
show_inversed-untraced sx sy ex ey t = grind (arith, expose-untraced)

inverse-untraced :
    (sx sy ex ey : ℕ) (t : Term)
    → untraced (inverse sx sy ex ey t) ≡ inverse sx sy ex ey (untraced t)
unfolding inverse flip_rows flip_row widen_start widen_end cell_at get_line total_history_lines
inverse-untraced sx sy ex ey t = ground arith

inverse-width : (sx sy ex ey : ℕ) (t : Term) → (inverse sx sy ex ey t).screen.width ≡ t.screen.width
unfolding inverse flip_rows
inverse-width sx sy ex ey t = ground arith

-- The inversion that `inverseTextColor` makes on a screen of `width` columns.
abbrev inverse_at : ℕ → ℕ → ℕ → Term → Term
inverse_at width start end =
    inverse (u16 (start % width)) (u16 (start / width)) (u16 (end % width)) (u16 (end / width))

inverse_between-untraced :
    (start end : ℕ) (t : Term)
    → untraced (inverse_between start end t) ≡ inverse_at t.screen.width start end (untraced t)
unfolding inverse_between
inverse_between-untraced start end t = show_inversed-untraced _ _ _ _ _ ∙ inverse-untraced _ _ _ _ t

inverse_between-width :
    (start end : ℕ) (t : Term) → (inverse_between start end t).screen.width ≡ t.screen.width
inverse_between-width start end t =
    ap (λ u. u.screen.width) (inverse_between-untraced start end t)
    ∙ inverse-width _ _ _ _ (untraced t)

-- The same stretch twice.
inverse_between-twice :
    (start end : ℕ) (t u : Term)
    → untraced u ≡ untraced (inverse_between start end t)
    → untraced (inverse_between start end u) ≡ untraced t
inverse_between-twice start end t u e =
    let width : u.screen.width ≡ t.screen.width =
      ap (λ v. v.screen.width) e ∙ inverse_between-width start end t in
    inverse_between-untraced start end u
    ∙ ap (λ n. inverse_at n start end (untraced u)) width
    ∙ ap (inverse_at t.screen.width start end) (e ∙ inverse_between-untraced start end t)
    ∙ inverse-inverse _ _ _ _ (untraced t)

pub inverse_text_color-twice :
    (start end : ℕ) (t u : Term)
    → untraced u ≡ untraced (inverse_text_color start end t)
    → untraced (inverse_text_color start end u) ≡ untraced t
unfolding inverse_text_color
inverse_text_color-twice start end t u e = elim (Bool-cases (ltb end start)) [
  | inl h ↦ ground (arith, inverse_between-twice end start t u, e, h)
  | inr h ↦ ground (arith, inverse_between-twice start end t u, e, h)
]

-- The shell's terminal is `base`, with the stretch from `start` to `end` inverted where
-- `color_inversed` says so.
unfoldable pub IsMarked : Term → Shell → Type 0
IsMarked base s =
    untraced s.term
    ≡ untraced (if s.color_inversed then inverse_text_color s.start s.end base else base)

-- `resetTextSelect` restores the colours.
pub reset_text_select-restores :
    (base : Term) (s : Shell)
    → IsMarked base s
    → untraced (reset_text_select s).term ≡ untraced base
unfolding reset_text_select IsMarked
reset_text_select-restores base s k = elim (Bool-cases s.color_inversed) [
  | inl h ↦ ground (arith, inverse_text_color-twice s.start s.end base s.term, k, h)
  | inr h ↦ ground (arith, k, h)
]

-- The calls made before do not matter to the colours.
inverse_text_color-untraced :
    (start end : ℕ) (t u : Term)
    → untraced t ≡ untraced u
    → untraced (inverse_text_color start end t) ≡ untraced (inverse_text_color start end u)
unfolding inverse_text_color
inverse_text_color-untraced start end t u e =
    let between : (a b : ℕ) → untraced (inverse_between a b t) ≡ untraced (inverse_between a b u) =
      λ a b.
        inverse_between-untraced a b t
        ∙ ap (λ v. inverse_at v.screen.width a b v) e
        ∙ sym (inverse_between-untraced a b u) in
    if_cases
      (λ z.
        untraced z
        ≡ untraced
            (if ltb end start then inverse_between end start u else inverse_between start end u))
      (ltb end start) (λ h. ground (arith, between end start, h))
      (λ h. ground (arith, between start end, h))

-- A shell with no text selected, on the terminal `base`.
marks :
    (base : Term) (start end : ℕ) (s : Shell)
    → untraced s.term ≡ untraced base
    → IsMarked base (record s {
      start = start;
      end = end;
      term = inverse_text_color start end s.term;
      color_inversed = true;
    })
unfolding IsMarked
marks base start end s e = inverse_text_color-untraced start end s.term base e

pub start_text_select-IsMarked :
    (base : Term) (x y : ℕ) (s : Shell)
    → untraced s.term ≡ untraced base
    → IsMarked base (start_text_select x y s)
unfolding start_text_select
start_text_select-IsMarked base x y s e = marks base _ _ s e

pub auto_text_select-IsMarked :
    (base : Term) (lut : ℕ → ℕ) (x y : ℕ) (s : Shell)
    → untraced s.term ≡ untraced base
    → IsMarked base (auto_text_select lut x y s)
unfolding auto_text_select
auto_text_select-IsMarked base lut x y s e = marks base _ _ s e

pub end_text_select-IsMarked :
    (base : Term) (s : Shell)
    → IsMarked base s
    → IsMarked base (end_text_select (record s { selecting = false }))
unfolding end_text_select IsMarked
end_text_select-IsMarked base s k = k

reset_text_select-ends : (s : Shell) → (reset_text_select s).color_inversed ≡ false
unfolding reset_text_select
reset_text_select-ends s = ground arith

pub put_selected_text-IsMarked :
    (base : Term) (s : Shell)
    → IsMarked base s
    → IsMarked base (put_selected_text (reset_text_select s))
unfolding IsMarked put_selected_text send_string
put_selected_text-IsMarked base s k =
    ground (arith, reset_text_select-ends s, reset_text_select-restores base s k)
