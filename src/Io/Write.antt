-- ===== src/Io/Write.antt =====
-- src/lib/io.cpp: `writeIo`.
pub mod Whole
use fbterm.Prelude.{
  ℕ, zero, suc, ◌+◌, ◌-◌, Bool, true, false, List, [], ◌∷◌, ◌++◌, ◌==◌, if◌then◌else◌,
}

-- What the kernel answers to `::write`: the number of bytes it has taken, or an error, which is EAGAIN,
-- EINTR or another.
pub data Answer : Type 0 where
  wrote : (ret : ℕ) → Answer
  again : Answer
  interrupted : Answer
  failed : (err : ℕ) → Answer

-- How the loop has ended: it waits for more answers, or all is written, or it has given up.
pub data Outcome : Type 0 where
  runs : Outcome
  complete : Outcome
  gave_up : Outcome
  io_error : (err : ℕ) → Outcome

abbrev pub is_complete : Outcome → Bool
is_complete complete = true
is_complete _ = false

-- The bytes written, those that are left, the waits of 200 ms, and the outcome.
pub record Written : Type 0 where
  pub bytes : List ℕ
  pub left : List ℕ
  pub waits : ℕ
  pub outcome : Outcome

abbrev pub taken {ℓ} : {A : Type ℓ} → ℕ → List A → List A
taken zero xs = []
taken (suc n) [] = []
taken (suc n) (x ∷ xs) = x ∷ taken n xs

abbrev pub dropped {ℓ} : {A : Type ℓ} → ℕ → List A → List A
dropped zero xs = xs
dropped (suc n) [] = []
dropped (suc n) (x ∷ xs) = dropped n xs

abbrev pub stop : List ℕ → Outcome → Written
stop buf o = record { bytes = []; left = buf; waits = 0; outcome = o }

abbrev pub is_done {ℓ} : {A : Type ℓ} → List A → Bool
is_done [] = true
is_done (x ∷ xs) = false

-- The loop of `writeIo`, on the answers of the kernel, with `num` waits left.
unfoldable pub write_loop : List Answer → ℕ → List ℕ → Written
write_loop [] num buf = stop buf (if is_done buf then complete else runs)
write_loop (wrote ret ∷ as') num buf =
    let rest = write_loop as' num (dropped ret buf) in
    if is_done buf then stop buf complete else record rest { bytes = taken ret buf ++ rest.bytes }
write_loop (again ∷ as') num buf =
    let rest = write_loop as' (num - 1) buf in
    if is_done buf
    then stop buf complete
    else if num == 0
    then stop buf gave_up
    else record rest { waits = rest.waits + 1 }
write_loop (interrupted ∷ as') num buf = stop buf (if is_done buf then complete else gave_up)
write_loop (failed err ∷ as') num buf = stop buf (if is_done buf then complete else io_error err)

-- `IoPipe::writeIo`, which waits five times at most.
unfoldable pub write_io : List Answer → List ℕ → Written
write_io answers buf = write_loop answers 5 buf
