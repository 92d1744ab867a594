-- ===== src/Vterm/Modes/Params.antt =====
-- src/lib/vterm_action.cpp: numbers of control sequences, and the reports.
use fbterm.Prelude.{
  ℕ, zero, suc, ◌+◌, ◌-◌, ◌*◌, ◌/◌, ◌%◌, false, List, [], ◌∷◌, ◌++◌, ltb, ◌==◌, if◌then◌else◌, u16,
  put,
}
use fbterm.Vterm.Types.{send_back}
use fbterm.Vterm.State.{Term, emit, with_parser}

-- `NPAR`
abbrev pub max_params : ℕ
max_params = 16

-- `VTerm::param_digit`
unfoldable pub param_digit : Term → Term
param_digit t =
    let p = t.parser in
    with_parser t (record p {
      param = put p.param p.npar (u16 (p.param p.npar * 10 + p.cur_char + 65536 - b'0'));
    })

-- `VTerm::next_param`
unfoldable pub next_param : Term → Term
next_param t =
    let p = t.parser in
    if ltb p.npar (max_params - 1) then with_parser t (record p { npar = p.npar + 1 }) else t

-- `VTerm::clear_param`
unfoldable pub clear_param : Term → Term
clear_param t =
    with_parser t
      (record (t.parser) { q_mode = false; palette_mode = false; npar = 0; param = λ (i : ℕ). 0 })

-- The text of a sequence that begins with ESC.
abbrev pub esc : List ℕ → List ℕ
esc cs = 27 ∷ cs

-- `VTerm::respond_id`
unfoldable pub respond_id : Term → Term
respond_id t = emit (send_back (esc (b'[' ∷ b'?' ∷ b'6' ∷ b'c' ∷ []))) t

-- `%d` of a number with at most `f` digits.
unfoldable pub decimal : ℕ → ℕ → List ℕ
decimal zero n = []
decimal (suc f) n =
    let front = decimal f (n / 10) in (if ltb n 10 then [] else front) ++ (n % 10 + b'0') ∷ []

-- `VTerm::status_report`
unfoldable pub status_report : Term → Term
status_report t =
    let p = t.parser.param 0 in
    let row = decimal 5 (t.screen.cursor_y + 1) in
    let col = decimal 5 (t.screen.cursor_x + 1) in
    if p == 5
    then emit (send_back (esc (b'[' ∷ b'0' ∷ b'n' ∷ []))) t
    else if p == 6
    then emit (send_back (esc (b'[' ∷ (row ++ (b';' ∷ (col ++ (b'R' ∷ []))))))) t
    else t
