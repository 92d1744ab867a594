-- ===== src/ImProxy/Messages/Frames.antt =====
-- The messages that `readyRead` finds in the bytes it is given.
use fbterm.Prelude.{
  ℕ, zero, suc, ◌+◌, ◌-◌, ◌≤◌, ◌<◌, ◌≡◌, ◌⊎◌, inl, ◌||◌, List, [], ◌∷◌, ltb, ◌==◌, if_cases, Store,
  arith,
}
use fbterm.ImProxy.Messages.{Frame, frames}

-- Messages one behind the other from `start` on, none of them empty, up to the end of the bytes, or to
-- a length that is 0 or goes beyond the end.
pub data Chain (len_of : Store ℕ → ℕ) (buf : Store ℕ) (end : ℕ) : ℕ → List Frame → Type 0 where
  stop :
      {start : ℕ}
      → start ≤ end
      → ((start ≡ end) ⊎ (len_of (λ i. buf (start + i)) ≡ 0))
        ⊎ (end < start + len_of (λ i. buf (start + i)))
      → Chain len_of buf end start []
  link :
      {start : ℕ} {fs : List Frame}
      → 0 < len_of (λ i. buf (start + i))
      → start + len_of (λ i. buf (start + i)) ≤ end
      → Chain len_of buf end (start + len_of (λ i. buf (start + i))) fs
      → Chain len_of buf end start
          (record { start = start; len = len_of (λ i. buf (start + i)) } ∷ fs)

-- As many rounds as there are bytes are enough.
pub frames-Chain :
    (n : ℕ) (len_of : Store ℕ → ℕ) (start left end : ℕ) (buf : Store ℕ)
    → start + left ≡ end
    → left ≤ n
    → Chain len_of buf end start (frames n len_of start left buf)
unfolding frames
frames-Chain zero len_of start left end buf e b = stop (omega arith) (inl (inl (omega arith)))
frames-Chain (suc n) len_of start left end buf e b =
    let len = len_of (λ i. buf (start + i)) in
    if_cases (Chain len_of buf end start) (left == 0 || len == 0 || ltb left len)
      (λ y. stop (omega arith) (ground (arith, y, e)))
      (λ m.
        let some : 0 < len = ground (arith, m) in
        let fits : len ≤ left = ground (arith, m) in
        link some (omega arith) (
          frames-Chain n len_of (start + len) (left - len) end buf (omega (arith, some, fits))
            (omega (arith, some, fits))))
