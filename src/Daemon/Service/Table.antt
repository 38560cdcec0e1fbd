-- ===== src/Daemon/Service/Table.antt =====
-- A map from numbers, as a list of its keys in ascending order with their values.
use worminal.Prelude.{
  ℕ, ◌≡◌, refl, ap, Bool, true, false, ◌==◌, Option, none, some, List, [], ◌∷◌, ltb, if◌then◌else◌,
  arith, if_both, All,
}

module _ {A : Type 0} where
  unfoldable pub find : ℕ → List (ℕ × A) → Option A
  find key [] = none
  find key ((k, a) ∷ entries) = let rest = find key entries in if key == k then some a else rest

  unfoldable pub contains_key : ℕ → List (ℕ × A) → Bool
  contains_key key [] = false
  contains_key key ((k, a) ∷ entries) =
      let rest = contains_key key entries in if key == k then true else rest

  -- A new value, also where the key is there.
  unfoldable pub insert : ℕ → A → List (ℕ × A) → List (ℕ × A)
  insert key a [] = (key, a) ∷ []
  insert key a ((k, b) ∷ entries) =
      let rest = insert key a entries in
      if key == k
      then (key, a) ∷ entries
      else if ltb key k
      then (key, a) ∷ (k, b) ∷ entries
      else (k, b) ∷ rest

  unfoldable pub remove : ℕ → List (ℕ × A) → List (ℕ × A)
  remove key [] = []
  remove key ((k, a) ∷ entries) =
      let rest = remove key entries in if key == k then rest else (k, a) ∷ rest

  -- `get_mut`: the value of a key that is there becomes another one.
  unfoldable pub put : ℕ → A → List (ℕ × A) → List (ℕ × A)
  put key a [] = []
  put key a ((k, b) ∷ entries) =
      let rest = put key a entries in if key == k then (k, a) ∷ entries else (k, b) ∷ rest

  pub contains_key-put :
      (key other : ℕ) (a : A) (entries : List (ℕ × A))
      → contains_key key (put other a entries) ≡ contains_key key entries
  unfolding contains_key put
  contains_key-put key other a [] = refl
  contains_key-put key other a ((k, b) ∷ entries) =
      if_both (λ (es : List (ℕ × A)). contains_key key es ≡ contains_key key ((k, b) ∷ entries))
        (other == k) ((k, a) ∷ entries) ((k, b) ∷ put other a entries) (λ _. refl)
        (λ _. ap (λ rest. if key == k then true else rest) (contains_key-put key other a entries))

  pub contains_key-remove :
      (key other : ℕ) (entries : List (ℕ × A))
      → other == key ≡ false
      → contains_key key entries ≡ true
      → contains_key key (remove other entries) ≡ true
  unfolding contains_key remove
  contains_key-remove key other [] h e = e
  contains_key-remove key other ((k, a) ∷ entries) h e =
      let rest = contains_key-remove key other entries h in ground arith

  pub contains_key-insert :
      (key other : ℕ) (a : A) (entries : List (ℕ × A))
      → contains_key key entries ≡ true
      → contains_key key (insert other a entries) ≡ true
  unfolding contains_key insert
  contains_key-insert key other a [] e = absurd (ground arith)
  contains_key-insert key other a ((k, b) ∷ entries) e =
      let rest = contains_key-insert key other a entries in ground arith

  -- A property of the keys.
  abbrev pub Keys : (ℕ → Type 0) → List (ℕ × A) → Type 0
  Keys P = All (λ e. P e.0)

  pub Keys-put :
      (P : ℕ → Type 0) (key : ℕ) (a : A) (entries : List (ℕ × A))
      → Keys P entries
      → Keys P (put key a entries)
  unfolding put
  Keys-put P key a [] h = tt
  Keys-put P key a ((k, b) ∷ entries) h =
      if_both (Keys P) (key == k) ((k, a) ∷ entries) ((k, b) ∷ put key a entries) (λ _. h)
        (λ _. (h.0, Keys-put P key a entries h.1))

  pub Keys-remove :
      (P : ℕ → Type 0) (key : ℕ) (entries : List (ℕ × A))
      → Keys P entries
      → Keys P (remove key entries)
  unfolding remove
  Keys-remove P key [] h = tt
  Keys-remove P key ((k, a) ∷ entries) h =
      if_both (Keys P) (key == k) (remove key entries) ((k, a) ∷ remove key entries)
        (λ _. Keys-remove P key entries h.1) (λ _. (h.0, Keys-remove P key entries h.1))

  pub Keys-insert :
      (P : ℕ → Type 0) (key : ℕ) (a : A) (entries : List (ℕ × A))
      → P key
      → Keys P entries
      → Keys P (insert key a entries)
  unfolding insert
  Keys-insert P key a [] p h = (p, tt)
  Keys-insert P key a ((k, b) ∷ entries) p h =
      let front : Keys P ((key, a) ∷ (k, b) ∷ entries) = (p, h) in
      let rest : Keys P ((k, b) ∷ insert key a entries) =
        (h.0, Keys-insert P key a entries p h.1) in
      if_both (Keys P) (key == k) ((key, a) ∷ entries) _ (λ _. (p, h.1))
        λ _.
          if_both (Keys P) (ltb key k) ((key, a) ∷ (k, b) ∷ entries) ((k, b) ∷ insert key a entries)
            (λ _. front) (λ _. rest)

  -- What holds of the keys that are left, besides being others.
  pub Keys-remove_other :
      (P : ℕ → Type 0) (key : ℕ) (entries : List (ℕ × A))
      → All (λ e. key == e.0 ≡ false → P e.0) entries
      → Keys P (remove key entries)
  unfolding remove
  Keys-remove_other P key [] h = tt
  Keys-remove_other P key ((k, a) ∷ entries) h =
      if_both (Keys P) (key == k) (remove key entries) ((k, a) ∷ remove key entries)
        (λ _. Keys-remove_other P key entries h.1)
        (λ other. (h.0 other, Keys-remove_other P key entries h.1))
