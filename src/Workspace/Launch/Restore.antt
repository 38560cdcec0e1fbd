-- ===== src/Workspace/Launch/Restore.antt =====
-- The environment of a tab that is restored.
use worminal.Prelude.Bytes.{bytes_eq}
use worminal.Prelude.{
  ℕ, ◌≡◌, refl, ap, ◌∙◌, true, List, [], ◌∷◌, ◌++◌, if◌then◌else◌, Bool-cases, inl, inr, arith,
  append-nil,
}
use worminal.Workspace.Launch.{
  Launch, Entry, restore_marker, without, or_inherited, environment_for_restore,
}

-- The values that an environment gives a name.
unfoldable pub values : List ℕ → List Entry → List (List ℕ)
values name [] = []
values name ((key, value) ∷ entries) =
    let rest = values name entries in if bytes_eq key name then value ∷ rest else rest

values-append :
    (name : List ℕ) (xs ys : List Entry) → values name (xs ++ ys) ≡ values name xs ++ values name ys
unfolding values
values-append name [] ys = refl
values-append name ((key, value) ∷ xs) ys = elim (Bool-cases (bytes_eq key name)) [
  | inl e ↦ rw e (ap (λ l. value ∷ l) (values-append name xs ys))
  | inr e ↦ rw e (values-append name xs ys)
]

bytes_eq_refl : (xs : List ℕ) → bytes_eq xs xs ≡ true
unfolding bytes_eq
bytes_eq_refl [] = refl
bytes_eq_refl (x ∷ xs) = ground (arith, bytes_eq_refl xs)

bytes_eq_sound : (xs ys : List ℕ) → bytes_eq xs ys ≡ true → xs ≡ ys
unfolding bytes_eq
bytes_eq_sound [] [] e = refl
bytes_eq_sound [] (y ∷ ys) e = cc
bytes_eq_sound (x ∷ xs) [] e = cc
bytes_eq_sound (x ∷ xs) (y ∷ ys) e = ground (arith, bytes_eq_sound xs ys)

values-without :
    (name marker : List ℕ) (entries : List Entry)
    → values name (without marker entries)
      ≡ (if bytes_eq name marker then [] else values name entries)
unfolding values without
values-without name marker [] = ground arith
values-without name marker ((key, value) ∷ entries) = ground (
  arith,
  values-without name marker entries,
  bytes_eq_sound key name,
  bytes_eq_sound key marker,
  bytes_eq_refl name,
  bytes_eq_refl marker,
)

values-replaced :
    (name marker value : List ℕ) (entries : List Entry)
    → values name (without marker entries ++ (marker, value) ∷ [])
      ≡ (if bytes_eq name marker then value ∷ [] else values name entries)
values-replaced name marker value entries =
    values-append name (without marker entries) ((marker, value) ∷ [])
    ∙ unfold values in
      ground (
        arith,
        values-without name marker entries,
        append-nil (values name entries),
        bytes_eq_sound marker name,
        bytes_eq_sound name marker,
        bytes_eq_refl name,
      )

-- A restored tab's environment gives the marker the one value `1`, and every other name the values that
-- the launch's environment, or the daemon's in its absence, gives it.
pub values-environment_for_restore :
    (name : List ℕ) (inherited : List Entry) (launch : Launch)
    → values name (environment_for_restore inherited launch) ≡ (
        if bytes_eq name restore_marker
        then (b'1' ∷ []) ∷ []
        else values name (or_inherited launch.environment inherited))
unfolding environment_for_restore
values-environment_for_restore name inherited launch =
    values-replaced name restore_marker (b'1' ∷ []) (or_inherited launch.environment inherited)
