-- ===== src/Width/Search.antt =====
-- `bisearch` of src/lib/wcwidth.cpp.
pub mod Lookup
use fbterm.Prelude.{
  ℕ, zero, suc, ◌+◌, ◌-◌, ◌/◌, Bool, true, false, ◌||◌, List, ltb, leb, if◌then◌else◌, length,
  get_or,
}
use fbterm.Width.Tables.{Interval}

abbrev pub none_interval : Interval
none_interval = record { first = 0; last = 0 }

-- The loop of `bisearch` on `fuel` rounds. `top` is `max + 1`, so that the `max` of -1 has a place.
unfoldable pub bisearch_loop : ℕ → ℕ → List Interval → ℕ → ℕ → Bool
bisearch_loop zero ucs table bot top = false
bisearch_loop (suc fuel) ucs table bot top =
    let mid = (bot + (top - 1)) / 2 in
    let entry = get_or table mid none_interval in
    let above = bisearch_loop fuel ucs table (mid + 1) top in
    let below = bisearch_loop fuel ucs table bot mid in
    if leb top bot
    then false
    else if ltb entry.last ucs
    then above
    else if ltb ucs entry.first
    then below
    else true

-- `bisearch`, with the rounds that a table of its size can take at most.
unfoldable pub bisearch : ℕ → List Interval → Bool
unfolding bisearch_loop
bisearch ucs table =
    let n = length table in
    if ltb ucs (get_or table 0 none_interval).first
      || ltb (get_or table (n - 1) none_interval).last ucs
    then false
    else bisearch_loop (n + 1) ucs table 0 n
