-- ===== src/Shells.antt =====
-- src/fbshellman.cpp: `FbShellManager`, which holds the shells and says which one is shown.
pub mod Index
pub mod Managed
pub mod Reach
pub mod Cycle
mod Tests
use fbterm.Prelude.{
  ℕ, zero, suc, ◌+◌, ◌-◌, ◌%◌, Bool, true, false, not, ◌&&◌, List, [], ◌∷◌, ltb, leb, ◌==◌,
  if◌then◌else◌, u32, Store, put,
}

-- `NR_SHELLS`
abbrev pub nr_shells : ℕ
nr_shells = 10

-- What the manager asks of the shells, of the screen and of the program. A shell is a number, which
-- stands for its address; 0 is the null pointer.
pub data Event : Type 0 where
  switch_vt : (shell : ℕ) (enter : Bool) (peer : ℕ) → Event
  expose : (shell x y w h : ℕ) → Event
  fill_screen : (x y w h : ℕ) → Event
  update_cursor : (shell : ℕ) → Event
  history_display : (shell : ℕ) (down : Bool) → Event
  im_exited : (shell : ℕ) → Event
  deleted : (shell : ℕ) → Event
  exit : Event

pub record Manager : Type 0 where
  pub shells : Store ℕ
  pub active : ℕ
  pub count : ℕ
  pub cur : ℕ
  pub vc_current : Bool
  pub cols : ℕ
  pub rows : ℕ
  -- newest first
  pub trace : List Event

abbrev pub emit : Event → Manager → Manager
emit e m = record m { trace = e ∷ m.trace }

-- The first argument of `getIndex`: a shell, the null pointer for a free place, or `SHELL_ANY`.
pub data Target : Type 0 where
  any : Target
  this : (shell : ℕ) → Target

unfoldable pub matches : Target → ℕ → Bool
matches any s = not (s == 0)
matches (this t) s = t == s

-- `STEP`
unfoldable pub step : Bool → ℕ → ℕ
step forward temp = if forward then u32 (temp + 1) else u32 (temp + 4294967295)

-- The loop of `getIndex` on the rounds left.
unfoldable pub index_loop : ℕ → Target → Bool → Store ℕ → ℕ → ℕ → ℕ
index_loop zero target forward shells temp index = index
index_loop (suc n) target forward shells temp index =
    let rest = index_loop n target forward shells (step forward temp) (temp % nr_shells) in
    if matches target (shells (temp % nr_shells)) then temp % nr_shells else rest

-- `FbShellManager::getIndex`
unfoldable pub get_index : Target → Bool → Bool → Manager → ℕ
get_index target forward stepfirst m =
    let temp = m.cur + nr_shells in
    index_loop nr_shells target forward m.shells (if stepfirst then step forward temp else temp) 0

-- `FbShellManager::redraw`
unfoldable pub redraw : ℕ → ℕ → ℕ → ℕ → Manager → Manager
redraw x y w h m =
    if m.active == 0 then emit (fill_screen x y w h) m else emit (expose m.active x y w h) m

-- `FbShellManager::setActive`, on a shell that is not the active one.
unfoldable pub change_active : ℕ → Manager → Manager
change_active shell m =
    let left = if m.active == 0 then m else emit (switch_vt m.active false shell) m in
    let set = record left { active = shell } in
    if shell == 0 then set else emit (switch_vt shell true m.active) set

-- `FbShellManager::setActive` in `switchShell`, with the redrawing that its answer leads to.
unfoldable pub show_shell : ℕ → Manager → Manager
show_shell shell m =
    if m.active == shell then m else redraw 0 0 m.cols m.rows (change_active shell m)

-- `FbShellManager::switchShell`
unfoldable pub switch_shell : ℕ → Manager → Manager
switch_shell num m =
    let moved = record m { cur = num } in
    if leb nr_shells num then m else if m.vc_current then show_shell (m.shells num) moved else moved

-- `FbShellManager::nextShell`
unfoldable pub next_shell : Manager → Manager
next_shell m = switch_shell (get_index any true true m) m

-- `FbShellManager::prevShell`
unfoldable pub prev_shell : Manager → Manager
prev_shell m = switch_shell (get_index any false true m) m

-- `FbShellManager::createShell`; `shell` is the address of the new shell.
unfoldable pub create_shell : ℕ → Manager → Manager
create_shell shell m =
    let counted = record m { count = m.count + 1 } in
    let index = get_index (this 0) true false counted in
    if m.count == nr_shells
    then m
    else switch_shell index (record counted { shells = put m.shells index shell })

-- `FbShellManager::shellExited`
unfoldable pub shell_exited : ℕ → Manager → Manager
shell_exited shell m =
    let index = get_index (this shell) true false m in
    let freed = record m { shells = put m.shells index 0 } in
    let moved = if index == m.cur then prev_shell freed else freed in
    let left = record moved { count = u32 (moved.count + 4294967295) } in
    if shell == 0 then m else if left.count == 0 then emit exit left else left

-- `delete shell`: the destructor of `FbShell` reports to `shellExited`.
unfoldable pub destroy : ℕ → Manager → Manager
destroy shell m = emit (deleted shell) (shell_exited shell m)

-- `FbShellManager::deleteShell`
unfoldable pub delete_shell : Manager → Manager
delete_shell m = if m.shells m.cur == 0 then m else destroy (m.shells m.cur) m

-- `FbShellManager::drawCursor`
unfoldable pub draw_cursor : Manager → Manager
draw_cursor m = if m.active == 0 then m else emit (update_cursor m.active) m

-- `FbShellManager::historyScroll`
unfoldable pub history_scroll : Bool → Manager → Manager
history_scroll down m = if m.active == 0 then m else emit (history_display m.active down) m

-- `FbShellManager::switchVc`
unfoldable pub switch_vc : Bool → Manager → Manager
switch_vc enter m =
    let told = record m { vc_current = enter } in
    let shell = if enter then m.shells m.cur else 0 in
    let set = if m.active == shell then told else change_active shell told in
    if enter then redraw 0 0 m.cols m.rows set else set

-- The answer of `FbShell::childProcessExited`: the process is not the shell's, or is that of its
-- input method, or is the shell itself.
pub data Child : Type 0 where
  other : Child
  im_process : Child
  shell_process : Child

-- `FbShellManager::childProcessExited`, from place `i` with `n` places left.
unfoldable pub child_exited : ℕ → ℕ → (ℕ → Child) → Manager → Manager
child_exited zero i child m = m
child_exited (suc n) i child m =
    let rest = child_exited n (i + 1) child m in
    let s = m.shells i in
    if s == 0 then rest else elim (child s) [
      | other ↦ rest
      | im_process ↦ emit (im_exited s) m
      | shell_process ↦ destroy s m
    ]

unfoldable pub child_process_exited : (ℕ → Child) → Manager → Manager
child_process_exited child m = child_exited nr_shells 0 child m

-- `FbShellManager::FbShellManager`
unfoldable pub new_manager : ℕ → ℕ → Manager
new_manager cols rows = record {
  shells = λ (i : ℕ). 0;
  active = 0;
  count = 0;
  cur = 0;
  vc_current = false;
  cols = cols;
  rows = rows;
  trace = [];
}
