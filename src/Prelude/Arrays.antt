-- ===== src/Prelude/Arrays.antt =====
-- Arrays as functions on the index. Bounds are stated apart from them, as properties of the indices.
use Prim.Native.Nat.{ℕ, zero, suc, ◌+◌, ◌-◌}
use mathlib.Core.Path.{◌≡◌}
use native.Mathlib.Omega.{arith}
use fbterm.Prelude.Tests.{ltb, leb, ◌==◌, if◌then◌else◌}

abbrev pub Store {ℓ} : Type ℓ → Type ℓ
Store A = ℕ → A

module _ {ℓ} {A : Type ℓ} where
  -- `f[i] = v`
  abbrev pub put : Store A → ℕ → A → Store A
  put f i v j = if j == i then v else f j

  -- `memmove(f + dst, f + src, n)`, which reads all of the source first.
  abbrev pub memmove : ℕ → ℕ → ℕ → Store A → Store A
  memmove dst src n f j =
      if leb dst j then if ltb j (dst + n) then f (src + (j - dst)) else f j else f j

  -- `for (; n--; i++) f[i] = v`
  unfoldable pub fill : ℕ → ℕ → A → Store A → Store A
  fill zero i v f = f
  fill (suc n) i v f = fill n (i + 1) v (put f i v)

  pub fill_lem :
      (n i : ℕ) (v : A) (f : Store A) (j : ℕ)
      → fill n i v f j ≡ (if leb i j then if ltb j (i + n) then v else f j else f j)
  unfolding fill
  fill_lem zero i v f j = ground arith
  fill_lem (suc n) i v f j = ground (arith, fill_lem n (i + 1) v (put f i v) j)
