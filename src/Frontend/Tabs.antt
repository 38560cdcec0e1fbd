-- ===== src/Frontend/Tabs.antt =====
-- `first_visible` of src/frontend/src/tabs.rs: which tabs of the strip are drawn. A width in pixels is not
-- negative, so it is a natural number; a strip with no room stands for a negative one too.
pub mod Widest
mod Tests
use worminal.Prelude.{ℕ, zero, suc, ◌+◌, ◌-◌, not, Option, none, some, ltb, leb, if◌then◌else◌}

-- `active.or_else(|| count.checked_sub(1))`
unfoldable pub or_last : Option ℕ → ℕ → Option ℕ
or_last (some active) count = some active
or_last none zero = none
or_last none (suc count) = some count

-- The loop, which goes down from the tab that is shown for sure.
unfoldable pub visible_loop : (ℕ → ℕ) → ℕ → ℕ → ℕ → ℕ
visible_loop width right zero total = zero
visible_loop width right (suc first) total =
    let rest = visible_loop width right first (total + width first) in
    if not (leb total right)
    then suc first
    else if ltb (right - total) (width first)
    then suc first
    else rest

-- The `?` on the tab to begin with, and what follows it.
unfoldable pub visible_from : ℕ → (ℕ → ℕ) → Option ℕ → Option ℕ
visible_from right width none = none
visible_from right width (some first) = some (visible_loop width right first (2 + width first))

unfoldable pub first_visible : ℕ → Option ℕ → ℕ → (ℕ → ℕ) → Option ℕ
unfolding visible_from
first_visible count active right width = visible_from right width (or_last active count)
