-- ===== src/ImProxy/Windows/Count.antt =====
-- The number of the windows.
use fbterm.Prelude.{
  ℕ, ◌+◌, ◌<◌, ◌≡◌, ◌≢◌, ◌⊎◌, refl, sym, ap, subst, ◌∙◌, fun_ext, Bool, true, false, not, ◌&&◌, inl,
  inr, Bool-cases, leb, ◌==◌, if◌then◌else◌, [], if_both, if_cases, Store, put, arith,
}
use fbterm.Screen.Rotate.{Rect}
use fbterm.Shells.Managed.{occupied, occupied-put, occupied_le}
use fbterm.ImProxy.Rectangles.{intersect_rectangles}
use fbterm.ImProxy.Windows.{
  Windows, no_rect, is_inside, visible_part, uncover, cover, set_im_win, nr_im_wins,
}

-- The windows that have a width.
abbrev pub widths : Windows → Store ℕ
widths p i = (p.wins i).w

-- The number of valid windows is that of the windows that have a width, and these have a height.
pub record IsCounted (p : Windows) : Type 0 where
  pub counted : p.valid_win_num ≡ occupied 10 (widths p)
  pub shaped : (i : ℕ) → (p.wins i).w ≢ 0 → (p.wins i).h ≢ 0

-- A window with a rectangle set in place `id`.
counted_put :
    (wins : Store Rect) (id : ℕ) (r : Rect)
    → id < 10
    → occupied 10 (λ i. (put wins id r i).w) + (if (wins id).w == 0 then 0 else 1)
      ≡ occupied 10 (λ i. (wins i).w) + (if r.w == 0 then 0 else 1)
counted_put wins id r h =
    let e : (λ (i : ℕ). (put wins id r i).w) ≡ put (λ i. (wins i).w) id r.w =
      fun_ext λ i. ground arith in
    ap (λ f. occupied 10 f + (if (wins id).w == 0 then 0 else 1)) e
    ∙ occupied-put 10 id r.w (λ i. (wins i).w) h

cover-IsCounted :
    (id : ℕ) (r : Rect) (p : Windows)
    → id < 10
    → ((p.wins id).w ≡ 0) ⊎ (r.w ≢ 0)
    → (r.w ≢ 0 → r.h ≢ 0)
    → IsCounted p
    → IsCounted (cover id r p)
unfolding cover
cover-IsCounted id r p h keeps shape k =
    let sum = counted_put p.wins id r h in
    let few = occupied_le 10 (widths p) in
    record {
      counted = ground (arith, sum, few, k.counted, keeps);
      shaped = λ i. if_both (λ (v : Rect). v.w ≢ 0 → v.h ≢ 0) (i == id) shape (k.shaped i);
    }

uncover-IsCounted :
    (id : ℕ) (p : Windows)
    → id < 10
    → (p.wins id).w ≢ 0
    → IsCounted p
    → IsCounted (uncover id p) × (((uncover id p).wins id).w ≡ 0)
unfolding uncover
uncover-IsCounted id p h some k =
    let sum = counted_put p.wins id no_rect h in
    let few = occupied_le 10 (widths p) in
    (
      record {
        counted = ground (arith, sum, few, k.counted, some);
        shaped = λ i.
            if_both (λ (v : Rect). v.w ≢ 0 → v.h ≢ 0) (i == id) (λ e. absurd (e refl)) (k.shaped i);
      },
      ground arith,
    )

visible_part-shaped :
    (p : Windows) (rect : Rect) → (visible_part p rect).w ≢ 0 → (visible_part p rect).h ≢ 0
unfolding visible_part
visible_part-shaped p rect h = ground (arith, h)

not_inside : (r1 r2 : Rect) → is_inside (intersect_rectangles r1 r2) ≡ false → r1.w ≢ 0
unfolding intersect_rectangles
not_inside r1 r2 h = ground (arith, h)

inside_some :
    (r1 r2 : Rect) → is_inside (intersect_rectangles r1 r2) ≡ true → r1.w ≢ 0 → r1.h ≢ 0 → r2.w ≢ 0
unfolding intersect_rectangles
inside_some r1 r2 h a b = ground (arith, h, a, b)

-- The part of `setImWin` that changes the windows.
set_window-IsCounted :
    (id : ℕ) (r : Rect) (p : Windows)
    → id < 10
    → (r.w ≢ 0 → r.h ≢ 0)
    → IsCounted p
    → IsCounted (
        cover id r
          (if not (is_inside (intersect_rectangles (p.wins id) r)) then uncover id p else p))
set_window-IsCounted id r p h shape k =
    elim (Bool-cases (is_inside (intersect_rectangles (p.wins id) r))) [
      | inl y ↦ rw y (cover-IsCounted id r p h (still y) shape k)
      | inr n ↦
          let (u, gone) = uncover-IsCounted id p h (not_inside (p.wins id) r n) k in
          rw n (cover-IsCounted id r (uncover id p) h (inl gone) shape u)
    ]
  where
    still : is_inside (intersect_rectangles (p.wins id) r) ≡ true → ((p.wins id).w ≡ 0) ⊎ (r.w ≢ 0)
    still y = elim (Bool-cases ((p.wins id).w == 0)) [
      | inl z ↦ inl (ground arith)
      | inr z ↦
          let wide : (p.wins id).w ≢ 0 = ground arith in
          inr (inside_some (p.wins id) r y wide (k.shaped id wide))
    ]

-- While the shell is the active one, setting a window keeps the number of the valid ones right: it is
-- the number of those that have a width.
pub set_im_win-IsCounted :
    (id : ℕ) (rect : Rect) (p : Windows)
    → p.shell_active ≡ true
    → IsCounted p
    → IsCounted (set_im_win id rect p)
unfolding set_im_win
set_im_win-IsCounted id rect p a k =
    let r = visible_part p rect in
    let out = not (is_inside (intersect_rectangles (p.wins id) r)) in
    let at : Bool → Windows = λ g. cover id r (if g then uncover id p else p) in
    if_cases IsCounted (leb nr_im_wins id) (λ y. k)
      (λ n.
        let u : IsCounted (at (p.shell_active && out)) =
          subst (λ g. IsCounted (at (g && out))) (sym a)
            (set_window-IsCounted id r p (ground arith) (visible_part-shaped p rect) k) in
        if_both (λ (v : Windows). IsCounted (record v { win_msgs = put v.win_msgs id [] }))
          p.shell_active (record { counted = u.counted; shaped = u.shaped })
          (record { counted = u.counted; shaped = u.shaped }))
