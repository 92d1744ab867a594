-- ===== src/Shells/Managed.antt =====
-- The invariant of the manager, and that every operation keeps it.
use fbterm.Prelude.{
  ℕ, zero, suc, ◌+◌, ◌≤◌, ◌<◌, ◌≡◌, ◌≢◌, refl, sym, ap, subst, ◌∙◌, Bool, true, false, inl, inr,
  Bool-cases, if_both, if_cases, ltb, leb, ◌==◌, if◌then◌else◌, u32, Store, put, arith,
}
use fbterm.Shells.{
  Manager, any, this, exit, Event, emit, matches, get_index, nr_shells, redraw, change_active,
  show_shell, switch_shell, prev_shell, create_shell, shell_exited,
}
use fbterm.Shells.Index.{get_index_lt, get_index-matches}

-- The places below `n` that hold a shell.
unfoldable pub occupied : ℕ → Store ℕ → ℕ
occupied zero f = 0
occupied (suc n) f = occupied n f + (if f n == 0 then 0 else 1)

occupied-put_above : (n i v : ℕ) (f : Store ℕ) → n ≤ i → occupied n (put f i v) ≡ occupied n f
unfolding occupied
occupied-put_above zero i v f h = refl
occupied-put_above (suc n) i v f h = ground (arith, occupied-put_above n i v f)

pub occupied-put :
    (n i v : ℕ) (f : Store ℕ)
    → i < n
    → occupied n (put f i v) + (if f i == 0 then 0 else 1)
      ≡ occupied n f + (if v == 0 then 0 else 1)
unfolding occupied
occupied-put zero i v f h = absurd (omega arith)
occupied-put (suc n) i v f h = elim (Bool-cases (n == i)) [
  | inl e ↦ let k : n ≡ i = ground arith in rw k (ground (arith, occupied-put_above i i v f))
  | inr e ↦ ground (arith, occupied-put n i v f)
]

-- Where fewer than all places are taken, one is free.
free_place : (n : ℕ) (f : Store ℕ) → occupied n f < n → (i : ℕ) × (i < n) × (f i ≡ 0)
unfolding occupied
free_place zero f h = absurd (omega arith)
free_place (suc n) f h = elim (Bool-cases (f n == 0)) [
  | inl y ↦ (n, omega arith, ground arith)
  | inr y ↦ (let (i, a, b) = free_place n f (ground arith) in (i, omega arith, b))
]

-- No shell is in two places.
abbrev pub Apart : Store ℕ → Type 0
Apart f = (i j : ℕ) → i < 10 → j < 10 → f i ≡ f j → f i ≢ 0 → i ≡ j

-- What holds of the places, whatever `mShellCount` says: the current one is a place, the shell in it
-- is shown exactly while the console is ours, and no shell is in two places.
pub record IsPlaced (m : Manager) : Type 0 where
  pub cur_in : m.cur < 10
  pub shown : m.active ≡ (if m.vc_current then m.shells m.cur else 0)
  pub apart : Apart m.shells

pub record IsManaged (m : Manager) : Type 0 where
  pub placed : IsPlaced m
  pub counted : m.count ≡ occupied 10 m.shells

-- What `setActive` and `redraw` do to the fields.
pub record Shows (shell : ℕ) (m u : Manager) : Type 0 where
  pub active : u.active ≡ shell
  pub shells : u.shells ≡ m.shells
  pub count : u.count ≡ m.count
  pub cur : u.cur ≡ m.cur
  pub vc_current : u.vc_current ≡ m.vc_current

pub redraw-Shows : (x y w h : ℕ) (m : Manager) → Shows m.active m (redraw x y w h m)
unfolding redraw
redraw-Shows x y w h m = ground arith

pub change_active-Shows : (shell : ℕ) (m : Manager) → Shows shell m (change_active shell m)
unfolding change_active
change_active-Shows shell m = ground arith

pub show_shell-Shows : (shell : ℕ) (m : Manager) → Shows shell m (show_shell shell m)
unfolding show_shell
show_shell-Shows shell m =
    ground
      (arith, change_active-Shows shell m, redraw-Shows 0 0 m.cols m.rows (change_active shell m))

abbrev SwitchedTo : Manager → Manager → Type 0
SwitchedTo m u = IsPlaced u × (u.shells ≡ m.shells) × (u.count ≡ m.count)

switched :
    (num : ℕ) (m u : Manager)
    → num < 10
    → m.vc_current ≡ true
    → Apart m.shells
    → Shows (m.shells num) (record m { cur = num }) u
    → SwitchedTo m u
switched num m u h vc a s =
    let here : u.shells u.cur ≡ m.shells num = ap (λ f. f u.cur) s.shells ∙ ap m.shells s.cur in
    let seen : u.vc_current ≡ true = s.vc_current ∙ vc in
    (
      record {
        cur_in = omega (arith, s.cur);
        shown = rw seen (s.active ∙ sym here);
        apart = subst Apart (sym s.shells) a;
      },
      s.shells,
      s.count,
    )

-- `switchShell` to a place puts the places in order, and leaves what they hold.
switch_shell-IsPlaced :
    (num : ℕ) (m : Manager)
    → num < 10
    → (m.vc_current ≡ false → m.active ≡ 0)
    → Apart m.shells
    → SwitchedTo m (switch_shell num m)
unfolding switch_shell
switch_shell-IsPlaced num m h hidden a =
    let moved = record m { cur = num } in
    if_cases (SwitchedTo m) (leb nr_shells num) (λ y. absurd (ground arith))
      (λ n.
        if_cases (SwitchedTo m) m.vc_current
          (λ y.
            switched num m (show_shell (m.shells num) moved) h y a
              (show_shell-Shows (m.shells num) moved))
          (λ y. (record { cur_in = h; shown = ground (arith, hidden y); apart = a }, refl, refl)))

IsPlaced-hidden : {m : Manager} → IsPlaced m → m.vc_current ≡ false → m.active ≡ 0
IsPlaced-hidden p h = ground (arith, p.shown)

-- Every switch keeps the invariant; a number that is no place is ignored.
pub switch_shell-IsManaged : (num : ℕ) (m : Manager) → IsManaged m → IsManaged (switch_shell num m)
switch_shell-IsManaged num m k = elim (Bool-cases (ltb num 10)) [
  | inl y ↦
      let (p, s, c) =
        switch_shell-IsPlaced num m (ground arith) (IsPlaced-hidden k.placed) k.placed.apart in
      record { placed = p; counted = c ∙ k.counted ∙ ap (occupied 10) (sym s) }
  | inr y ↦ subst IsManaged (sym (no_place num m (ground arith))) k
]
  where
    no_place : (num : ℕ) (m : Manager) → 10 ≤ num → switch_shell num m ≡ m
    no_place num m h = unfold switch_shell in ground arith

pub occupied_le : (n : ℕ) (f : Store ℕ) → occupied n f ≤ n
unfolding occupied
occupied_le zero f = omega arith
occupied_le (suc n) f = ground (arith, occupied_le n f)

Apart-put : (f : Store ℕ) (i v : ℕ) → ((j : ℕ) → j < 10 → f j ≢ v) → Apart f → Apart (put f i v)
Apart-put f i v new a j k b c e n = ground (arith, new j b, new k c, a j k b c)

Apart-free : (f : Store ℕ) (i : ℕ) → Apart f → Apart (put f i 0)
Apart-free f i a j k b c e n = ground (arith, a j k b c)

-- `getIndex` finds a shell, or a free place, if there is one.
found :
    (shell : ℕ) (forward stepfirst : Bool) (m : Manager) (i : ℕ)
    → m.cur < 10
    → i < 10
    → m.shells i ≡ shell
    → m.shells (get_index (this shell) forward stepfirst m) ≡ shell
unfolding matches
found shell forward stepfirst m i h b e =
    let k = get_index-matches (this shell) forward stepfirst m i h b (fits (m.shells i) e) in
    agrees (m.shells (get_index (this shell) forward stepfirst m)) k
  where
    fits : (x : ℕ) → x ≡ shell → matches (this shell) x ≡ true
    fits x e = ground arith

    agrees : (x : ℕ) → matches (this shell) x ≡ true → x ≡ shell
    agrees x k = ground arith

-- The count after a shell has gone to a free place.
one_more :
    (count before after shell : ℕ)
    → shell ≢ 0
    → count ≡ before
    → after + (if 0 == 0 then 0 else 1) ≡ before + (if shell == 0 then 0 else 1)
    → count + 1 ≡ after
one_more count before after shell real c o = ground arith

-- A new shell goes to a free place, which becomes the current one.
pub create_shell-IsManaged :
    (shell : ℕ) (m : Manager)
    → shell ≢ 0
    → ((i : ℕ) → i < 10 → m.shells i ≢ shell)
    → IsManaged m
    → IsManaged (create_shell shell m)
unfolding create_shell
create_shell-IsManaged shell m real new k =
    let p = k.placed in
    let counted = record m { count = m.count + 1 } in
    let index = get_index (this 0) true false counted in
    let next = record counted { shells = put m.shells index shell } in
    if_cases IsManaged (m.count == nr_shells) (λ y. k)
      (λ y.
        let (i, b, e) =
          free_place 10 m.shells (ground (arith, k.counted, occupied_le 10 m.shells)) in
        let free = found 0 true false counted i p.cur_in b e in
        let low = get_index_lt (this 0) true false counted p.cur_in in
        let o = occupied-put 10 index shell m.shells low in
        let (q, s, c) =
          switch_shell-IsPlaced index next low (IsPlaced-hidden p)
            (Apart-put m.shells index shell new p.apart) in
        record {
          placed = q;
          counted =
              c
              ∙ one_more m.count (occupied 10 m.shells) _ shell real k.counted (
                  subst
                    (λ x.
                      occupied 10 (put m.shells index shell) + (if x == 0 then 0 else 1)
                      ≡ occupied 10 m.shells + (if shell == 0 then 0 else 1))
                    free o)
              ∙ ap (occupied 10) (sym s);
        })

elsewhere :
    (m : Manager) (index : ℕ)
    → IsPlaced m
    → index ≢ m.cur
    → IsPlaced (record m { shells = put m.shells index 0 })
elsewhere m index p n = record {
  cur_in = p.cur_in;
  shown = ground (arith, p.shown);
  apart = Apart-free m.shells index p.apart;
}

-- The count after a place has become free.
left-IsManaged :
    (freed u : Manager) (shell before : ℕ)
    → SwitchedTo freed u
    → shell ≢ 0
    → freed.count ≡ before
    → occupied 10 freed.shells + (if shell == 0 then 0 else 1) ≡ before + (if 0 == 0 then 0 else 1)
    → before ≤ 10
    → IsManaged (record u { count = u32 (u.count + 4294967295) })
left-IsManaged freed u shell before (p, s, c) real e o b = record {
  placed = record { cur_in = p.cur_in; shown = p.shown; apart = p.apart };
  counted = ground (arith, ap (occupied 10) s);
}

pub emit-IsManaged : (e : Event) (m : Manager) → IsManaged m → IsManaged (emit e m)
emit-IsManaged e m k = record {
  placed = record { cur_in = k.placed.cur_in; shown = k.placed.shown; apart = k.placed.apart };
  counted = k.counted;
}

-- A shell that exits leaves its place free; if it was the current one, another one becomes current.
pub shell_exited-IsManaged :
    (shell : ℕ) (m : Manager) (i : ℕ)
    → i < 10
    → m.shells i ≡ shell
    → IsManaged m
    → IsManaged (shell_exited shell m)
unfolding shell_exited
shell_exited-IsManaged shell m i b e k =
    let p = k.placed in
    let index = get_index (this shell) true false m in
    let freed = record m { shells = put m.shells index 0 } in
    let low = get_index_lt (this shell) true false m p.cur_in in
    let at = found shell true false m i p.cur_in b e in
    let o = occupied-put 10 index 0 m.shells low in
    let moved = if index == m.cur then prev_shell freed else freed in
    let q : SwitchedTo freed moved =
      if_cases (SwitchedTo freed) (index == m.cur)
        (λ y.
          unfold prev_shell in
          switch_shell-IsPlaced (get_index any false true freed) freed
            (get_index_lt any false true freed p.cur_in) (IsPlaced-hidden p)
            (Apart-free m.shells index p.apart))
        (λ y. (elsewhere m index p (ground arith), refl, refl)) in
    let left = record moved { count = u32 (moved.count + 4294967295) } in
    let kept : shell ≢ 0 → IsManaged left = λ real.
      left-IsManaged freed moved (m.shells index) (occupied 10 m.shells) q (λ z. real (sym at ∙ z))
        k.counted o (occupied_le 10 m.shells) in
    if_cases IsManaged (shell == 0) (λ y. k)
      (λ y.
        if_both IsManaged (left.count == 0) (emit-IsManaged exit left (kept (ground arith)))
          (kept (ground arith)))
