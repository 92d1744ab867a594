-- ===== src/Prelude/Loops.antt =====
-- Counted loops.
use Prim.Native.Nat.{ℕ, zero, suc, ◌+◌, ◌≤◌, ◌<◌}
use mathlib.Core.Path.{◌≡◌, refl, sym, ap, ◌∙◌}
use native.Mathlib.Omega.{arith}

-- `for (k = first; count--; k++) x = round(k, x)`
unfoldable pub for_range {ℓ} : {S : Type ℓ} → ℕ → ℕ → (ℕ → S → S) → S → S
for_range zero first round x = x
for_range (suc count) first round x = for_range count (first + 1) round (round first x)

-- The invariant rule, where a round may rest on its number; `end` is the number after the last.
pub for_range_inv {ℓ κ} :
    {S : Type ℓ} (Inv : ℕ → S → Type κ) (round : ℕ → S → S) (count first end : ℕ) (x : S)
    → ((k : ℕ) (y : S) → first ≤ k → k < end → Inv k y → Inv (k + 1) (round k y))
    → first + count ≡ end
    → Inv first x
    → Inv end (for_range count first round x)
unfolding for_range
for_range_inv Inv round zero first end x keeps at_end start =
    let here : first ≡ end = omega arith in rw (← here) start
for_range_inv Inv round (suc count) first end x keeps at_end start =
    for_range_inv Inv round count (first + 1) end (round first x)
      (λ k y later before. keeps k y (omega arith) before) (omega arith)
      (keeps first x (omega arith) (omega arith) start)

-- A loop keeps what each of its rounds keeps.
pub for_range-keeps {ℓ κ} :
    {S : Type ℓ} (P : S → Type κ) (body : ℕ → S → S) (n i : ℕ) (s : S)
    → ((k : ℕ) (t : S) → P t → P (body k t))
    → P s
    → P (for_range n i body s)
for_range-keeps P body n i s keep h =
    for_range_inv (λ k t. P t) body n i (i + n) s (λ k t a b p. keep k t p) refl h

module _ {ℓ} {S : Type ℓ} (body : ℕ → S → S) where
  -- A loop commutes with what its rounds commute with.
  pub for_range-commutes :
      (g : S → S) (n i : ℕ) (s : S)
      → ((k : ℕ) (t : S) → body k (g t) ≡ g (body k t))
      → for_range n i body (g s) ≡ g (for_range n i body s)
  unfolding for_range
  for_range-commutes g zero i s h = refl
  for_range-commutes g (suc n) i s h =
      ap (for_range n (i + 1) body) (h i s) ∙ for_range-commutes g n (i + 1) (body i s) h

  -- A loop whose rounds commute and undo themselves undoes itself.
  pub for_range-undo :
      (n i : ℕ) (s : S)
      → ((j k : ℕ) (t : S) → body j (body k t) ≡ body k (body j t))
      → ((k : ℕ) (t : S) → body k (body k t) ≡ t)
      → for_range n i body (for_range n i body s) ≡ s
  unfolding for_range
  for_range-undo zero i s comm undo = refl
  for_range-undo (suc n) i s comm undo =
      let loop = for_range n (i + 1) body in
      ap loop (sym (for_range-commutes (body i) n (i + 1) (body i s) (λ k. comm k i)))
      ∙ ap (λ t. loop (loop t)) (undo i s)
      ∙ for_range-undo n (i + 1) s comm undo
