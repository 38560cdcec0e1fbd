-- ===== src/Frontend/Tabs/Tests.antt =====
-- Five tabs of ten pixels each in a strip of thirty.
use worminal.Prelude.{ℕ, ◌≡◌, refl, some}
use worminal.Frontend.Tabs.{or_last, visible_loop, first_visible}
use worminal.Frontend.Tabs.Widest.{IsShown, first_visible-IsShown}

abbrev ten : ℕ → ℕ
ten index = 10

two_shown : first_visible 5 (some 3) 30 ten ≡ some 2
unfolding first_visible or_last visible_loop
two_shown = refl

first_visible-IsShown_example :
    IsShown ten 30 (or_last (some 3) 5) (first_visible 5 (some 3) 30 ten)
first_visible-IsShown_example = first_visible-IsShown 5 30 (some 3) ten
