-- ===== src/Shells/Cycle.antt =====
-- `nextShell` and `prevShell` undo each other.
use fbterm.Prelude.{
  ℕ, ◌+◌, ◌-◌, ◌%◌, ◌<◌, ◌≡◌, ◌≢◌, ap, subst, ◌∙◌, Bool, true, false, inl, inr, Bool-cases, ltb,
  Store, arith,
}
use fbterm.Shells.{Manager, any, matches, step, get_index, switch_shell, next_shell, prev_shell}
use fbterm.Shells.Index.{Nearest, hit, miss, place, start, get_index-Nearest, get_index_lt}
use fbterm.Shells.Managed.{show_shell-Shows}

start_next : (cur : ℕ) → cur < 10 → start true true cur ≡ cur + 11
unfolding step
start_next cur h = omega arith

start_prev : (cur : ℕ) → cur < 10 → start false true cur ≡ cur + 9
unfolding step
start_prev cur h = omega arith

-- From the place that is reached after `k` steps forward, the steps back pass the places between, and
-- come to the first one.
place-back :
    (cur k j : ℕ)
    → cur < 10
    → k < 10
    → j < k
    → place false ((cur + 11 + k) % 10 + 9) j ≡ (cur + 11 + (k - 1 - j)) % 10
place-back cur k j a b c = omega arith

place-home : (cur k : ℕ) → cur < 10 → k < 10 → place false ((cur + 11 + k) % 10 + 9) k ≡ cur
place-home cur k a b = omega arith

-- The nearest place that fits is the one before which none fits.
Nearest-unique :
    (shells : Store ℕ) (forward : Bool) (temp k index : ℕ)
    → k < 10
    → matches any (shells (place forward temp k)) ≡ true
    → ((j : ℕ) → j < k → matches any (shells (place forward temp j)) ≡ false)
    → Nearest any forward shells temp 10 index
    → index ≡ place forward temp k
Nearest-unique shells forward temp k index b y none (miss all r) = absurd (cc (y, all k b))
Nearest-unique shells forward temp k index b y none (hit h) = elim (Bool-cases (ltb h.steps k)) [
  | inl less ↦ absurd (cc (none h.steps (ground arith), h.fits))
  | inr more ↦ elim (Bool-cases (ltb k h.steps)) [
    | inl less ↦ absurd (cc (h.skipped k (ground arith), y))
    | inr same ↦ let e : h.steps ≡ k = ground arith in h.at ∙ ap (place forward temp) e
  ]
]

-- The fields that the switches of shells leave alone.
switch_shell_fields :
    (num : ℕ) (m : Manager)
    → num < 10
    → ((switch_shell num m).cur ≡ num) × ((switch_shell num m).shells ≡ m.shells)
unfolding switch_shell
switch_shell_fields num m h =
    ground (arith, show_shell-Shows (m.shells num) (record m { cur = num }))

-- Where the search for the next shell begins.
abbrev cur_start : Manager → ℕ
cur_start m = m.cur + 11

is_shell : (s : ℕ) → s ≢ 0 → matches any s ≡ true
unfolding matches
is_shell s h = ground arith

home_next : (cur : ℕ) → cur < 10 → place true (cur + 11) 9 ≡ cur
home_next cur h = omega arith

-- Back from the next place that holds a shell.
prev_of_next :
    (m u : Manager) (index : ℕ)
    → m.cur < 10
    → m.shells m.cur ≢ 0
    → u.shells ≡ m.shells
    → u.cur ≡ index
    → Nearest any true m.shells (cur_start m) 10 index
    → get_index any false true u ≡ m.cur
prev_of_next m u index a real s c (miss none r) = absurd (
    cc (
      is_shell (m.shells m.cur) real,
      ap (λ p. matches any (m.shells p)) (home_next m.cur a),
      none 9 (omega arith),
    ))
prev_of_next m u index a real s c (hit h) =
    let back : start false true u.cur ≡ (m.cur + 11 + h.steps) % 10 + 9 =
      start_prev u.cur (omega (arith, c, h.at)) ∙ ap (λ n. n + 9) (c ∙ h.at) in
    Nearest-unique m.shells false ((m.cur + 11 + h.steps) % 10 + 9) h.steps _ h.steps_lt
      (ap (λ p. matches any (m.shells p)) (place-home m.cur h.steps a h.steps_lt)
        ∙ is_shell (m.shells m.cur) real)
      (λ j k.
        ap (λ p. matches any (m.shells p)) (place-back m.cur h.steps j a h.steps_lt k)
        ∙ h.skipped (h.steps - 1 - j) (omega arith))
      (subst
        (λ f. Nearest any false f ((m.cur + 11 + h.steps) % 10 + 9) 10 (get_index any false true u))
        s
        (subst (λ t. Nearest any false u.shells t 10 (get_index any false true u)) back
          (get_index-Nearest any false true u (omega (arith, c, h.at)))))
    ∙ place-home m.cur h.steps a h.steps_lt

-- After the next shell, the previous one is the one that was current.
pub prev_shell-next_shell :
    (m : Manager) → m.cur < 10 → m.shells m.cur ≢ 0 → (prev_shell (next_shell m)).cur ≡ m.cur
unfolding next_shell prev_shell
prev_shell-next_shell m a real =
    let i = get_index any true true m in
    let u = switch_shell i m in
    let b = get_index_lt any true true m a in
    let f = switch_shell_fields i m b in
    let k =
      subst (λ t. Nearest any true m.shells t 10 i) (start_next m.cur a)
        (get_index-Nearest any true true m a) in
    (switch_shell_fields (get_index any false true u) u
      (get_index_lt any false true u (omega (arith, f.0, b)))).0
    ∙ prev_of_next m u i a real f.1 f.0 k
