-- ===== src/Shells/Index.antt =====
-- What `getIndex` finds: the nearest place in the direction of its steps.
use fbterm.Prelude.{
  if_cases, ℕ, zero, suc, ◌+◌, ◌-◌, ◌%◌, ◌≤◌, ◌<◌, ◌≡◌, sym, ap, ◌∙◌, Bool, true, false, inl, inr,
  Bool-cases, ◌==◌, if◌then◌else◌, Store, arith,
}
use fbterm.Shells.{Manager, Target, matches, step, index_loop, get_index}

-- The place that is looked at after `k` steps.
abbrev pub place : Bool → ℕ → ℕ → ℕ
place forward temp k = (if forward then temp + k else temp - k) % 10

place-step :
    (forward : Bool) (temp k : ℕ)
    → k < temp
    → temp + k < 4294967295
    → place forward (step forward temp) k ≡ place forward temp (k + 1)
unfolding step
place-step true temp k h b = omega arith
place-step false temp k h b = omega arith

at_start : (forward : Bool) (temp : ℕ) → temp % 10 ≡ place forward temp 0
at_start true temp = omega arith
at_start false temp = omega arith

-- A place that fits, after `k` steps past places that do not.
pub record Hit (target : Target) (forward : Bool) (shells : Store ℕ) (temp n index : ℕ)
    : Type 0 where
  pub steps : ℕ
  pub steps_lt : steps < n
  pub at : index ≡ place forward temp steps
  pub fits : matches target (shells (place forward temp steps)) ≡ true
  pub skipped : (j : ℕ) → j < steps → matches target (shells (place forward temp j)) ≡ false

pub data Nearest (target : Target) (forward : Bool) (shells : Store ℕ) (temp n index : ℕ)
    : Type 0 where
  hit : Hit target forward shells temp n index → Nearest target forward shells temp n index
  miss :
      ((j : ℕ) → j < n → matches target (shells (place forward temp j)) ≡ false)
      → index < 10
      → Nearest target forward shells temp n index

module _ (target : Target) (forward : Bool) (shells : Store ℕ) where
  Hit-first :
      (temp n : ℕ)
      → matches target (shells (temp % 10)) ≡ true
      → Hit target forward shells temp (suc n) (temp % 10)
  Hit-first temp n h = record {
    steps = 0;
    steps_lt = omega arith;
    at = at_start forward temp;
    fits = ap (λ p. matches target (shells p)) (sym (at_start forward temp)) ∙ h;
    skipped = λ j b. absurd (omega arith);
  }

  miss_first :
      (temp n j : ℕ)
      → matches target (shells (temp % 10)) ≡ false
      → n < temp + 1
      → temp + n < 4294967296
      → ((i : ℕ) → i < n → matches target (shells (place forward (step forward temp) i)) ≡ false)
      → j < suc n
      → matches target (shells (place forward temp j)) ≡ false
  miss_first temp n j no_first b c rest h = elim (Bool-cases (j == 0)) [
    | inl y ↦ let e : j ≡ 0 = ground arith in rw (e, sym (at_start forward temp)) no_first
    | inr y ↦
        let e : j ≡ j - 1 + 1 = ground arith in
        rw (e, sym (place-step forward temp (j - 1) (omega arith) (omega arith)))
          (rest (j - 1) (omega arith))
  ]

  later :
      (temp n index : ℕ)
      → matches target (shells (temp % 10)) ≡ false
      → n < temp + 1
      → temp + n < 4294967295
      → Nearest target forward shells (step forward temp) n index
      → Nearest target forward shells temp (suc n) index
  later temp n index no_first b c (hit h) = hit (record {
    steps = h.steps + 1;
    steps_lt = omega (arith, h.steps_lt);
    at =
        h.at
        ∙ place-step forward temp h.steps (omega (arith, h.steps_lt)) (omega (arith, h.steps_lt));
    fits =
        ap (λ p. matches target (shells p))
          (sym (
            place-step forward temp h.steps (omega (arith, h.steps_lt))
              (omega (arith, h.steps_lt))))
        ∙ h.fits;
    skipped = λ j k.
        miss_first temp h.steps j no_first (omega (arith, h.steps_lt)) (omega (arith, h.steps_lt))
          h.skipped (omega arith);
  })
  later temp n index no_first b c (miss none r) =
      miss (λ j k. miss_first temp n j no_first b (omega arith) none k) r

  step_room :
      (n temp : ℕ)
      → n < temp + 1
      → temp + n < 4294967295
      → (n < step forward temp + 2) × (step forward temp + n < 4294967296)
  unfolding step
  step_room n temp b c = room forward
    where
      room : (f : Bool) → (n < step f temp + 2) × (step f temp + n < 4294967296)
      room true = omega arith
      room false = omega arith

  index_loop-Nearest :
      (n temp index : ℕ)
      → index < 10
      → n < temp + 2
      → temp + n < 4294967296
      → Nearest target forward shells temp n (index_loop n target forward shells temp index)
  unfolding index_loop
  index_loop-Nearest zero temp index h b c = miss (λ j k. absurd (omega arith)) h
  index_loop-Nearest (suc n) temp index h b c =
      let t' = step forward temp in
      let here = temp % 10 in
      if_cases (Nearest target forward shells temp (suc n)) (matches target (shells here))
        (λ y. hit (Hit-first temp n y))
        (λ y. later temp n _ y (omega arith) (omega arith) (
          index_loop-Nearest n t' here (omega arith)
            (step_room n temp (omega arith) (omega arith)).0
            (step_room n temp (omega arith) (omega arith)).1))

step_bounds :
    (forward : Bool) (cur : ℕ)
    → cur < 10
    → (cur + 9 ≤ step forward (cur + 10)) × (step forward (cur + 10) ≤ cur + 11)
unfolding step
step_bounds true cur h = omega arith
step_bounds false cur h = omega arith

-- Where `getIndex` begins to look.
abbrev pub start : Bool → Bool → ℕ → ℕ
start forward stepfirst cur = if stepfirst then step forward (cur + 10) else cur + 10

start_bounds :
    (forward stepfirst : Bool) (cur : ℕ)
    → cur < 10
    → (8 < start forward stepfirst cur) × (start forward stepfirst cur < 21)
start_bounds forward true cur h = omega (arith, step_bounds forward cur h)
start_bounds forward false cur h = omega arith

-- `getIndex` looks at all ten places, from the current one or from its neighbour.
pub get_index-Nearest :
    (target : Target) (forward stepfirst : Bool) (m : Manager)
    → m.cur < 10
    → Nearest target forward m.shells
        (start forward stepfirst m.cur)
        10
        (get_index target forward stepfirst m)
unfolding get_index
get_index-Nearest target forward stepfirst m h =
    index_loop-Nearest target forward m.shells 10 (start forward stepfirst m.cur) 0 (omega arith)
      (omega (arith, start_bounds forward stepfirst m.cur h))
      (omega (arith, start_bounds forward stepfirst m.cur h))

-- Ten steps reach every place.
abbrev steps_to : Bool → ℕ → ℕ → ℕ
steps_to forward temp i = (if forward then i + 30 - temp else temp + 10 - i) % 10

place-steps_to :
    (forward : Bool) (temp i : ℕ)
    → 8 < temp
    → temp < 21
    → i < 10
    → place forward temp (steps_to forward temp i) ≡ i
place-steps_to true temp i a b c = omega arith
place-steps_to false temp i a b c = omega arith

steps_to_lt : (forward : Bool) (temp i : ℕ) → steps_to forward temp i < 10
steps_to_lt true temp i = omega arith
steps_to_lt false temp i = omega arith

Nearest-lt :
    {target : Target} {forward : Bool} {shells : Store ℕ} {temp n index : ℕ}
    → Nearest target forward shells temp n index
    → index < 10
Nearest-lt (hit h) = omega (arith, h.at)
Nearest-lt (miss none r) = r

-- `getIndex` answers one of the ten places.
pub get_index_lt :
    (target : Target) (forward stepfirst : Bool) (m : Manager)
    → m.cur < 10
    → get_index target forward stepfirst m < 10
get_index_lt target forward stepfirst m h =
    Nearest-lt (get_index-Nearest target forward stepfirst m h)

Nearest-matches :
    {target : Target} {forward : Bool} {shells : Store ℕ} {temp index : ℕ} (i : ℕ)
    → 8 < temp
    → temp < 21
    → i < 10
    → matches target (shells i) ≡ true
    → Nearest target forward shells temp 10 index
    → matches target (shells index) ≡ true
Nearest-matches {target} {shells = shells} i a b c y (hit h) =
    ap (λ p. matches target (shells p)) h.at ∙ h.fits
Nearest-matches {target} {forward} {shells} {temp} i a b c y (miss none r) =
    let e = place-steps_to forward temp i a b c in
    let f = none (steps_to forward temp i) (steps_to_lt forward temp i) in
    absurd (cc (y, sym (ap (λ p. matches target (shells p)) e) ∙ f))

-- If a place fits, the place that `getIndex` answers fits.
pub get_index-matches :
    (target : Target) (forward stepfirst : Bool) (m : Manager) (i : ℕ)
    → m.cur < 10
    → i < 10
    → matches target (m.shells i) ≡ true
    → matches target (m.shells (get_index target forward stepfirst m)) ≡ true
get_index-matches target forward stepfirst m i h c y =
    let (low, high) = start_bounds forward stepfirst m.cur h in
    Nearest-matches i low high c y (get_index-Nearest target forward stepfirst m h)
