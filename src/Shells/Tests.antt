-- ===== src/Shells/Tests.antt =====
-- The manager of the shells on concrete calls.
use fbterm.Prelude.{ℕ, ◌<◌, ◌≡◌, ◌≢◌, refl, true, ◌==◌, if◌then◌else◌, List, [], ◌∷◌, arith}
use fbterm.Shells.{
  child_exited, destroy, shell_exited, redraw, switch_shell, get_index, index_loop, matches,
  show_shell, change_active, step, Manager, Child, other, shell_process, new_manager, create_shell,
  next_shell, prev_shell, switch_vc, child_process_exited,
}
use fbterm.Shells.Reach.{Reach-IsManaged, here, next, created, console, child_gone}
use fbterm.Shells.Managed.{IsManaged}
use fbterm.Shells.Cycle.{prev_shell-next_shell}

-- A manager on our console, with the shells at addresses 70 and 80.
abbrev two_shells : Manager
two_shells = create_shell 80 (create_shell 70 (switch_vc true (new_manager 80 25)))

seventy_ends : ℕ → Child
seventy_ends s = if s == 70 then shell_process else other

abbrev after_exit : Manager
after_exit = child_process_exited seventy_ends two_shells

-- The first three places, the current place, the shell that is shown, and the count.
abbrev shells_of : Manager → List ℕ
shells_of m = m.shells 0 ∷ m.shells 1 ∷ m.shells 2 ∷ m.cur ∷ m.active ∷ m.count ∷ []

two_shells_test : shells_of two_shells ≡ 70 ∷ 80 ∷ 0 ∷ 1 ∷ 80 ∷ 2 ∷ []
unfolding create_shell switch_vc redraw new_manager switch_shell get_index index_loop matches
    show_shell change_active step
two_shells_test = refl

after_exit_test : shells_of after_exit ≡ 0 ∷ 80 ∷ 0 ∷ 1 ∷ 80 ∷ 1 ∷ []
unfolding create_shell switch_vc redraw new_manager switch_shell get_index index_loop matches
    show_shell change_active step child_process_exited child_exited destroy shell_exited
    seventy_ends
after_exit_test = refl

next_shell_test : shells_of (next_shell two_shells) ≡ 70 ∷ 80 ∷ 0 ∷ 0 ∷ 70 ∷ 2 ∷ []
unfolding create_shell switch_vc redraw new_manager switch_shell get_index index_loop matches
    show_shell change_active step next_shell
next_shell_test = refl

seventy_is_new : (i : ℕ) → i < 10 → (switch_vc true (new_manager 80 25)).shells i ≢ 70
unfolding switch_vc redraw new_manager
seventy_is_new i h = ground arith

eighty_is_new :
    (i : ℕ) → i < 10 → (create_shell 70 (switch_vc true (new_manager 80 25))).shells i ≢ 80
unfolding create_shell switch_vc redraw new_manager switch_shell get_index index_loop matches
    show_shell change_active step
eighty_is_new i h = ground arith

Reach-IsManaged_example : IsManaged after_exit
Reach-IsManaged_example = Reach-IsManaged 80 25 after_exit (
    next
      (next
        (next (next here (console true (new_manager 80 25)))
          (created 70 _ (omega arith) seventy_is_new))
        (created 80 _ (omega arith) eighty_is_new))
      (child_gone seventy_ends two_shells))

two_shells_cur : two_shells.cur < 10
unfolding create_shell switch_vc redraw new_manager switch_shell get_index index_loop matches
    show_shell change_active step
two_shells_cur = omega arith

two_shells_real : two_shells.shells two_shells.cur ≢ 0
unfolding create_shell switch_vc redraw new_manager switch_shell get_index index_loop matches
    show_shell change_active step
two_shells_real = ground arith

prev_shell-next_shell_example : (prev_shell (next_shell two_shells)).cur ≡ two_shells.cur
prev_shell-next_shell_example = prev_shell-next_shell two_shells two_shells_cur two_shells_real
