-- ===== src/Frontend/Tabs/Widest.antt =====
-- The tabs that are drawn are as many as fit.
use worminal.Prelude.{
  ℕ, zero, suc, ◌+◌, ◌-◌, ◌≤◌, ◌<◌, ◌≡◌, refl, subst, Option, none, some, ltb, leb, arith, ◌⊎◌, inl,
  inr, Bool-cases,
}
use worminal.Frontend.Tabs.{or_last, visible_loop, visible_from, first_visible}

-- The pixels of so many tabs from one on, with the margin.
unfoldable pub sum_from : (ℕ → ℕ) → ℕ → ℕ → ℕ
sum_from width first zero = 2
sum_from width first (suc count) = sum_from width (suc first) count + width first

-- From `first` to `active` the tabs fit, unless there is no other than `active`; one more would not.
pub record IsWidest (width : ℕ → ℕ) (right active first : ℕ) : Type 0 where
  pub count : ℕ
  pub ends : first + count ≡ active + 1
  pub fits : (first ≡ active) ⊎ (sum_from width first count ≤ right)
  pub widest :
      (first ≡ 0)
      ⊎ ((previous : ℕ) × (first ≡ suc previous) × (right < sum_from width previous (suc count)))

visible_loop-IsWidest :
    (width : ℕ → ℕ) (right active first count : ℕ)
    → first + count ≡ active + 1
    → (first ≡ active) ⊎ (sum_from width first count ≤ right)
    → IsWidest width right active (visible_loop width right first (sum_from width first count))
unfolding visible_loop sum_from
visible_loop-IsWidest width right active zero count e fit = record {
  count = count;
  ends = e;
  fits = fit;
  widest = inl refl;
}
visible_loop-IsWidest width right active (suc first) count e fit =
    elim (Bool-cases (leb (sum_from width (suc first) count) right)) [
      | inr over ↦ rw over (stop (ground arith))
      | inl within ↦
          elim (Bool-cases (ltb (right - sum_from width (suc first) count) (width first))) [
            | inl wide ↦ rw (within, wide) (stop (ground arith))
            | inr narrow ↦
                rw (within, narrow)
                  (visible_loop-IsWidest width right active first (suc count) (omega arith)
                    (inr (ground arith)))
          ]
    ]
  where
    stop :
        right < sum_from width (suc first) count + width first
        → IsWidest width right active (suc first)
    stop h = record { count = count; ends = e; fits = fit; widest = inr (first, refl, h) }

-- What is drawn, by the tab that is shown for sure.
abbrev pub IsShown : (ℕ → ℕ) → ℕ → Option ℕ → Option ℕ → Type 0
IsShown width right none shown = shown ≡ none
IsShown width right (some last) none = ⊥
IsShown width right (some last) (some first) = IsWidest width right last first

visible_from-IsShown :
    (width : ℕ → ℕ) (right : ℕ) (chosen : Option ℕ)
    → IsShown width right chosen (visible_from right width chosen)
unfolding visible_from
visible_from-IsShown width right none = refl
visible_from-IsShown width right (some last) =
    subst (λ n. IsWidest width right last (visible_loop width right last n)) one_tab
      (visible_loop-IsWidest width right last last 1 (omega arith) (inl refl))
  where
    one_tab : sum_from width last 1 ≡ 2 + width last
    one_tab = unfold sum_from in refl

-- Where there is a tab, the first one that is drawn lets the tabs up to the active one, or to the last
-- where none is active, fit in the room, unless it is that tab itself; and with one tab more they would not
-- fit. Where there is none, none is drawn.
pub first_visible-IsShown :
    (count right : ℕ) (active : Option ℕ) (width : ℕ → ℕ)
    → IsShown width right (or_last active count) (first_visible count active right width)
unfolding first_visible
first_visible-IsShown count right active width =
    visible_from-IsShown width right (or_last active count)
