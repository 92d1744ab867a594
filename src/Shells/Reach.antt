-- ===== src/Shells/Reach.antt =====
-- The states that the manager can reach.
use fbterm.Prelude.{
  subst, ℕ, zero, suc, ◌+◌, ◌<◌, ◌≡◌, ◌≢◌, refl, sym, ap, ◌∙◌, Bool, true, false, if_both, if_cases,
  ◌==◌, if◌then◌else◌, arith,
}
use fbterm.Shells.{
  Manager, Child, other, im_process, shell_process, emit, im_exited, deleted, redraw, change_active,
  switch_shell, next_shell, prev_shell, create_shell, destroy, delete_shell, draw_cursor,
  history_scroll, switch_vc, child_exited, child_process_exited, new_manager,
}
use fbterm.Shells.Managed.{
  IsManaged, Apart, occupied, Shows, change_active-Shows, switch_shell-IsManaged,
  create_shell-IsManaged, shell_exited-IsManaged, emit-IsManaged,
}

-- A call of the manager. A new shell stands at an address that no shell has.
pub data Step : Manager → Manager → Type 0 where
  created :
      (shell : ℕ) (m : Manager)
      → shell ≢ 0
      → ((i : ℕ) → i < 10 → m.shells i ≢ shell)
      → Step m (create_shell shell m)
  deleted_one : (m : Manager) → Step m (delete_shell m)
  switched_to : (num : ℕ) (m : Manager) → Step m (switch_shell num m)
  nexted : (m : Manager) → Step m (next_shell m)
  preved : (m : Manager) → Step m (prev_shell m)
  console : (enter : Bool) (m : Manager) → Step m (switch_vc enter m)
  cursor_drawn : (m : Manager) → Step m (draw_cursor m)
  scrolled : (down : Bool) (m : Manager) → Step m (history_scroll down m)
  redrawn : (x y w h : ℕ) (m : Manager) → Step m (redraw x y w h m)
  child_gone : (child : ℕ → Child) (m : Manager) → Step m (child_process_exited child m)

-- The calls made since the program began.
pub data Reach (s : Manager) : Manager → Type 0 where
  here : Reach s s
  next : {m u : Manager} → Reach s m → Step m u → Reach s u

destroy-IsManaged :
    (shell : ℕ) (m : Manager) (i : ℕ)
    → i < 10
    → m.shells i ≡ shell
    → IsManaged m
    → IsManaged (destroy shell m)
unfolding destroy
destroy-IsManaged shell m i b e k =
    emit-IsManaged (deleted shell) _ (shell_exited-IsManaged shell m i b e k)

delete_shell-IsManaged : (m : Manager) → IsManaged m → IsManaged (delete_shell m)
unfolding delete_shell
delete_shell-IsManaged m k =
    if_both IsManaged (m.shells m.cur == 0) k
      (destroy-IsManaged (m.shells m.cur) m m.cur k.placed.cur_in refl k)

child_exited-IsManaged :
    (n i : ℕ) (child : ℕ → Child) (m : Manager)
    → i + n ≡ 10
    → IsManaged m
    → IsManaged (child_exited n i child m)
unfolding child_exited
child_exited-IsManaged zero i child m e k = k
child_exited-IsManaged (suc n) i child m e k =
    let rest = child_exited-IsManaged n (i + 1) child m (omega arith) k in
    if_both IsManaged (m.shells i == 0) rest (by_answer (child (m.shells i)) rest)
  where
    by_answer :
        (c : Child)
        → IsManaged (child_exited n (i + 1) child m)
        → IsManaged (elim c [
          | other ↦ child_exited n (i + 1) child m
          | im_process ↦ emit (im_exited (m.shells i)) m
          | shell_process ↦ destroy (m.shells i) m
        ])
    by_answer other r = r
    by_answer im_process r = emit-IsManaged (im_exited (m.shells i)) m k
    by_answer shell_process r = destroy-IsManaged (m.shells i) m i (omega arith) refl k

redraw-IsManaged : (x y w h : ℕ) (m : Manager) → IsManaged m → IsManaged (redraw x y w h m)
unfolding redraw
redraw-IsManaged x y w h m k =
    if_both IsManaged (m.active == 0) (emit-IsManaged _ m k) (emit-IsManaged _ m k)

-- A state that shows the shell that belongs to the console's owner.
Shows-IsManaged :
    (m u : Manager) (enter : Bool) (shell : ℕ)
    → IsManaged m
    → shell ≡ (if enter then m.shells m.cur else 0)
    → Shows shell (record m { vc_current = enter }) u
    → IsManaged u
Shows-IsManaged m u enter shell k e s =
    let here : u.shells u.cur ≡ m.shells m.cur = ap (λ f. f u.cur) s.shells ∙ ap m.shells s.cur in
    record {
      placed = record {
        cur_in = omega (arith, s.cur, k.placed.cur_in);
        shown =
            s.active
            ∙ e
            ∙ sym (
                ap (λ b. if b then u.shells u.cur else 0) s.vc_current
                ∙ ap (λ x. if enter then x else 0) here);
        apart = subst Apart (sym s.shells) k.placed.apart;
      };
      counted = s.count ∙ k.counted ∙ ap (occupied 10) (sym s.shells);
    }

set_active-Shows :
    (shell : ℕ) (m : Manager)
    → Shows shell m (if m.active == shell then m else change_active shell m)
set_active-Shows shell m =
    if_cases (Shows shell m) (m.active == shell)
      (λ y. record {
        active = ground arith;
        shells = refl;
        count = refl;
        cur = refl;
        vc_current = refl;
      })
      (λ n. change_active-Shows shell m)

switch_vc-IsManaged : (enter : Bool) (m : Manager) → IsManaged m → IsManaged (switch_vc enter m)
unfolding switch_vc
switch_vc-IsManaged true m k =
    let told = record m { vc_current = true } in
    let set = if m.active == m.shells m.cur then told else change_active (m.shells m.cur) told in
    redraw-IsManaged 0 0 m.cols m.rows set
      (Shows-IsManaged m set true (m.shells m.cur) k refl (set_active-Shows (m.shells m.cur) told))
switch_vc-IsManaged false m k =
    let told = record m { vc_current = false } in
    Shows-IsManaged m (if m.active == 0 then told else change_active 0 told) false 0 k refl
      (set_active-Shows 0 told)

draw_cursor-IsManaged : (m : Manager) → IsManaged m → IsManaged (draw_cursor m)
unfolding draw_cursor
draw_cursor-IsManaged m k = if_both IsManaged (m.active == 0) k (emit-IsManaged _ m k)

history_scroll-IsManaged :
    (down : Bool) (m : Manager) → IsManaged m → IsManaged (history_scroll down m)
unfolding history_scroll
history_scroll-IsManaged down m k = if_both IsManaged (m.active == 0) k (emit-IsManaged _ m k)

Step-IsManaged : {m u : Manager} → Step m u → IsManaged m → IsManaged u
Step-IsManaged (created shell m real new) k = create_shell-IsManaged shell m real new k
Step-IsManaged (deleted_one m) k = delete_shell-IsManaged m k
Step-IsManaged (switched_to num m) k = switch_shell-IsManaged num m k
Step-IsManaged (nexted m) k = unfold next_shell in switch_shell-IsManaged _ m k
Step-IsManaged (preved m) k = unfold prev_shell in switch_shell-IsManaged _ m k
Step-IsManaged (console enter m) k = switch_vc-IsManaged enter m k
Step-IsManaged (cursor_drawn m) k = draw_cursor-IsManaged m k
Step-IsManaged (scrolled down m) k = history_scroll-IsManaged down m k
Step-IsManaged (redrawn x y w h m) k = redraw-IsManaged x y w h m k
Step-IsManaged (child_gone child m) k =
    unfold child_process_exited in child_exited-IsManaged 10 0 child m refl k

new_manager-IsManaged : (cols rows : ℕ) → IsManaged (new_manager cols rows)
unfolding new_manager occupied
new_manager-IsManaged cols rows = record {
  placed = record { cur_in = omega arith; shown = refl; apart = λ i j a b e n. absurd (n refl) };
  counted = refl;
}

-- Whatever calls are made, from the start on: the current place is one of the ten, the shell that is
-- shown is the one in it while the console is ours, and none otherwise, no shell is in two places, and
-- the count is that of the places taken.
pub Reach-IsManaged : (cols rows : ℕ) (m : Manager) → Reach (new_manager cols rows) m → IsManaged m
Reach-IsManaged cols rows m r = go r
  where
    go : {m : Manager} → Reach (new_manager cols rows) m → IsManaged m
    go here = new_manager-IsManaged cols rows
    go (next r s) = Step-IsManaged s (go r)
