-- ===== src/Io/Write/Whole.antt =====
-- What `writeIo` has written.
use fbterm.Prelude.Lists.{++-assoc}
use fbterm.Prelude.{
  ℕ, zero, suc, ◌-◌, ◌≤◌, ◌≡◌, refl, ap, ◌∙◌, true, false, List, [], ◌∷◌, ◌++◌, ◌==◌, if◌then◌else◌,
  if_cases, arith,
}
use fbterm.Io.Write.{
  Answer, wrote, again, interrupted, failed, Outcome, runs, complete, gave_up, io_error,
  is_complete, Written, taken, dropped, stop, is_done, write_loop, write_io,
}

taken-dropped : {A : Type 0} (n : ℕ) (xs : List A) → taken n xs ++ dropped n xs ≡ xs
taken-dropped zero xs = refl
taken-dropped (suc n) [] = refl
taken-dropped (suc n) (x ∷ xs) = ap (λ l. x ∷ l) (taken-dropped n xs)

-- The bytes that are written and those that are left are the text; none are left where the outcome is
-- that all is written; and the loop waits no more than `num` times.
pub record IsWhole (num : ℕ) (buf : List ℕ) (r : Written) : Type 0 where
  pub text : r.bytes ++ r.left ≡ buf
  pub whole : is_complete r.outcome ≡ true → r.left ≡ []
  pub waited : r.waits ≤ num

is_done_nil : (buf : List ℕ) → is_done buf ≡ true → buf ≡ []
is_done_nil [] h = refl
is_done_nil (b ∷ bs) h = absurd (ground arith)

at_end :
    (num : ℕ) (buf : List ℕ) (o : Outcome)
    → (is_complete o ≡ true → is_done buf ≡ true)
    → IsWhole num buf (stop buf o)
at_end num buf o h = record {
  text = refl;
  whole = λ e. is_done_nil buf (h e);
  waited = omega arith;
}

-- A loop that ends here is complete exactly if nothing is left.
ends_with :
    (num : ℕ) (buf : List ℕ) (o : Outcome)
    → is_complete o ≡ false
    → IsWhole num buf (stop buf (if is_done buf then complete else o))
ends_with num buf o h = at_end num buf (if is_done buf then complete else o) (
    if_cases (λ (v : Outcome). is_complete v ≡ true → is_done buf ≡ true) (is_done buf) (λ y e. y)
      (λ n e. absurd (cc (e, h))))

write_loop-IsWhole :
    (answers : List Answer) (num : ℕ) (buf : List ℕ) → IsWhole num buf (write_loop answers num buf)
unfolding write_loop
write_loop-IsWhole [] num buf = ends_with num buf runs refl
write_loop-IsWhole (wrote ret ∷ as') num buf =
    let rest = write_loop as' num (dropped ret buf) in
    let k = write_loop-IsWhole as' num (dropped ret buf) in
    if_cases (IsWhole num buf) (is_done buf) (λ y. at_end num buf complete (λ e. y))
      (λ n. record {
        text =
            ++-assoc (taken ret buf) rest.bytes rest.left
            ∙ ap (λ l. taken ret buf ++ l) k.text
            ∙ taken-dropped ret buf;
        whole = k.whole;
        waited = k.waited;
      })
write_loop-IsWhole (again ∷ as') num buf =
    let k = write_loop-IsWhole as' (num - 1) buf in
    if_cases (IsWhole num buf) (is_done buf) (λ y. at_end num buf complete (λ e. y))
      (λ n.
        if_cases (IsWhole num buf) (num == 0)
          (λ y. at_end num buf gave_up (λ e. absurd (ground arith)))
          (λ m. record { text = k.text; whole = k.whole; waited = ground (arith, m, k.waited) }))
write_loop-IsWhole (interrupted ∷ as') num buf = ends_with num buf gave_up refl
write_loop-IsWhole (failed err ∷ as') num buf = ends_with num buf (io_error err) refl

-- Whatever the kernel answers, what `writeIo` has written is a beginning of the text, the whole of it if
-- it ends well, and it waits five times at most.
pub write_io-IsWhole : (answers : List Answer) (buf : List ℕ) → IsWhole 5 buf (write_io answers buf)
unfolding write_io
write_io-IsWhole answers buf = write_loop-IsWhole answers 5 buf
