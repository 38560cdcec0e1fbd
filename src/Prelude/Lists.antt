-- ===== src/Prelude/Lists.antt =====
-- Byte strings and other sequences: lists measured and cut by native numbers.
use Prim.Native.Nat.{ℕ, zero, suc, ◌+◌, ◌-◌, ◌≤◌, ◌<◌, min}
use mathlib.Core.Path.{◌≡◌, refl, sym, ap, ap₂, ◌∙◌, ◌≡⟨◌⟩◌, ◌∎, subst}
use mathlib.Core.Option.{Option, none, some}
use mathlib.Core.List.{List, [], ◌∷◌, ◌++◌, map, append_assoc}
use native.Mathlib.Omega.{arith}

module _ {ℓ} {A : Type ℓ} where
  abbrev pub length : List A → ℕ
  length [] = 0
  length (x ∷ xs) = suc (length xs)

  abbrev pub take : ℕ → List A → List A
  take zero xs = []
  take (suc n) [] = []
  take (suc n) (x ∷ xs) = x ∷ take n xs

  abbrev pub drop : ℕ → List A → List A
  drop zero xs = xs
  drop (suc n) [] = []
  drop (suc n) (x ∷ xs) = drop n xs

  abbrev pub replicate : ℕ → A → List A
  replicate zero a = []
  replicate (suc n) a = a ∷ replicate n a

  abbrev pub get_elem? : List A → ℕ → Option A
  get_elem? [] i = none
  get_elem? (x ∷ xs) zero = some x
  get_elem? (x ∷ xs) (suc i) = get_elem? xs i

  abbrev pub get_or : List A → ℕ → A → A
  get_or [] i d = d
  get_or (x ∷ xs) zero d = x
  get_or (x ∷ xs) (suc i) d = get_or xs i d

  -- A write out of bounds changes nothing.
  abbrev pub set : List A → ℕ → A → List A
  set [] i v = []
  set (x ∷ xs) zero v = v ∷ xs
  set (x ∷ xs) (suc i) v = x ∷ set xs i v

  -- `concat` of a list of slices.
  abbrev pub concat : List (List A) → List A
  concat [] = []
  concat (xs ∷ xss) = xs ++ concat xss

  -- `xs[at..at + src.len()].copy_from_slice(src)`, for a range inside `xs`.
  abbrev pub splice : List A → ℕ → List A → List A
  splice xs at src = take at xs ++ (src ++ drop (at + length src) xs)

  -- A predicate of every element.
  abbrev pub All {κ} : (A → Type κ) → List A → Type κ
  All P [] = Unit
  All P (x ∷ xs) = P x × All P xs

module _ {ℓ} {A : Type ℓ} where
  pub length-append : (xs ys : List A) → length (xs ++ ys) ≡ length xs + length ys
  length-append [] ys = omega arith
  length-append (x ∷ xs) ys = omega (arith, length-append xs ys)

  pub All-append {κ} : (P : A → Type κ) (xs ys : List A) → All P xs → All P ys → All P (xs ++ ys)
  All-append P [] ys h k = k
  All-append P (x ∷ xs) ys h k = (h.0, All-append P xs ys h.1 k)

  pub All-take {κ} : (P : A → Type κ) (n : ℕ) (xs : List A) → All P xs → All P (take n xs)
  All-take P zero xs h = tt
  All-take P (suc n) [] h = tt
  All-take P (suc n) (x ∷ xs) h = (h.0, All-take P n xs h.1)

  pub All-drop {κ} : (P : A → Type κ) (n : ℕ) (xs : List A) → All P xs → All P (drop n xs)
  All-drop P zero xs h = h
  All-drop P (suc n) [] h = tt
  All-drop P (suc n) (x ∷ xs) h = All-drop P n xs h.1

  pub All-set {κ} :
      (P : A → Type κ) (xs : List A) (i : ℕ) (y : A) → P y → All P xs → All P (set xs i y)
  All-set P [] i y p h = tt
  All-set P (x ∷ xs) zero y p h = (p, h.1)
  All-set P (x ∷ xs) (suc i) y p h = (h.0, All-set P xs i y p h.1)

  pub All-get_elem? {κ} :
      (P : A → Type κ) (xs : List A) (i : ℕ) {x : A} → All P xs → get_elem? xs i ≡ some x → P x
  All-get_elem? P [] i h e = absurd (cc)
  All-get_elem? P (y ∷ ys) zero {x} h e = let same : y ≡ x = cc in subst P same h.0
  All-get_elem? P (y ∷ ys) (suc i) h e = All-get_elem? P ys i h.1 e

  pub All-weaken {κ μ} :
      (P : A → Type κ) (Q : A → Type μ) (xs : List A) → ((x : A) → P x → Q x) → All P xs → All Q xs
  All-weaken P Q [] g h = tt
  All-weaken P Q (x ∷ xs) g h = (g x h.0, All-weaken P Q xs g h.1)

  pub length-take : (n : ℕ) (xs : List A) → length (take n xs) ≡ min n (length xs)
  length-take zero xs = omega arith
  length-take (suc n) [] = omega arith
  length-take (suc n) (x ∷ xs) = omega (arith, length-take n xs)

  pub length-drop : (n : ℕ) (xs : List A) → length (drop n xs) ≡ length xs - n
  length-drop zero xs = omega arith
  length-drop (suc n) [] = omega arith
  length-drop (suc n) (x ∷ xs) = omega (arith, length-drop n xs)

  pub length-replicate : (n : ℕ) (a : A) → length (replicate n a) ≡ n
  length-replicate zero a = refl
  length-replicate (suc n) a = ap suc (length-replicate n a)

  pub take-append-drop : (n : ℕ) (xs : List A) → take n xs ++ drop n xs ≡ xs
  take-append-drop zero xs = refl
  take-append-drop (suc n) [] = refl
  take-append-drop (suc n) (x ∷ xs) = rw (take-append-drop n xs)

  pub take_all : (n : ℕ) (xs : List A) → length xs ≤ n → take n xs ≡ xs
  take_all zero [] h = refl
  take_all zero (x ∷ xs) h = absurd (omega arith)
  take_all (suc n) [] h = refl
  take_all (suc n) (x ∷ xs) h = ap (λ t. x ∷ t) (take_all n xs (omega arith))

  pub drop_all : (n : ℕ) (xs : List A) → length xs ≤ n → drop n xs ≡ []
  drop_all zero [] h = refl
  drop_all zero (x ∷ xs) h = absurd (omega arith)
  drop_all (suc n) [] h = refl
  drop_all (suc n) (x ∷ xs) h = drop_all n xs (omega arith)

  -- A cut inside the first of two slices, and one behind it.
  pub take-append : (n : ℕ) (xs ys : List A) → n ≤ length xs → take n (xs ++ ys) ≡ take n xs
  take-append zero xs ys h = refl
  take-append (suc n) [] ys h = absurd (omega arith)
  take-append (suc n) (x ∷ xs) ys h = ap (λ t. x ∷ t) (take-append n xs ys (omega arith))

  pub drop-append : (n : ℕ) (xs ys : List A) → n ≤ length xs → drop n (xs ++ ys) ≡ drop n xs ++ ys
  drop-append zero xs ys h = refl
  drop-append (suc n) [] ys h = absurd (omega arith)
  drop-append (suc n) (x ∷ xs) ys h = drop-append n xs ys (omega arith)

  pub take-append_past :
      (n k : ℕ) (xs ys : List A) → n ≡ length xs + k → take n (xs ++ ys) ≡ xs ++ take k ys
  take-append_past n k [] ys e = ap (λ m. take m ys) (omega arith)
  take-append_past zero k (x ∷ xs) ys e = absurd (omega arith)
  take-append_past (suc n) k (x ∷ xs) ys e =
      ap (λ t. x ∷ t) (take-append_past n k xs ys (omega arith))

  pub drop-append_past :
      (n k : ℕ) (xs ys : List A) → n ≡ length xs + k → drop n (xs ++ ys) ≡ drop k ys
  drop-append_past n k [] ys e = ap (λ m. drop m ys) (omega arith)
  drop-append_past zero k (x ∷ xs) ys e = absurd (omega arith)
  drop-append_past (suc n) k (x ∷ xs) ys e = drop-append_past n k xs ys (omega arith)

  pub drop-drop : (m n k : ℕ) (xs : List A) → k ≡ m + n → drop n (drop m xs) ≡ drop k xs
  drop-drop zero n k xs e = ap (λ j. drop j xs) (omega arith)
  drop-drop (suc m) zero zero [] e = refl
  drop-drop (suc m) (suc n) zero [] e = absurd (omega arith)
  drop-drop (suc m) zero (suc k) [] e = refl
  drop-drop (suc m) (suc n) (suc k) [] e = refl
  drop-drop (suc m) n zero (x ∷ xs) e = absurd (omega arith)
  drop-drop (suc m) n (suc k) (x ∷ xs) e = drop-drop m n k xs (omega arith)

module _ {ℓ} {A : Type ℓ} where
  -- The cut between two slices.
  pub take-append_at : (n : ℕ) (xs ys : List A) → n ≡ length xs → take n (xs ++ ys) ≡ xs
  take-append_at n xs ys e = take-append n xs ys (omega arith) ∙ take_all n xs (omega arith)

  pub drop-append_at : (n : ℕ) (xs ys : List A) → n ≡ length xs → drop n (xs ++ ys) ≡ ys
  drop-append_at n xs ys e = drop-append_past n 0 xs ys (omega arith)

  pub take-take : (n m : ℕ) (xs : List A) → n ≤ m → take n (take m xs) ≡ take n xs
  take-take zero m xs h = refl
  take-take (suc n) zero xs h = absurd (omega arith)
  take-take (suc n) (suc m) [] h = refl
  take-take (suc n) (suc m) (x ∷ xs) h = ap (λ t. x ∷ t) (take-take n m xs (omega arith))

  pub concat-append : (xss yss : List (List A)) → concat (xss ++ yss) ≡ concat xss ++ concat yss
  concat-append [] yss = refl
  concat-append (xs ∷ xss) yss =
      ap (λ t. xs ++ t) (concat-append xss yss) ∙ sym (append_assoc xs (concat xss) (concat yss))

  pub length-splice :
      (xs : List A) (at : ℕ) (src : List A)
      → at + length src ≤ length xs
      → length (splice xs at src) ≡ length xs
  length-splice xs at src h = omega (
    arith,
    length-append (take at xs) (src ++ drop (at + length src) xs),
    length-append src (drop (at + length src) xs),
    length-take at xs,
    length-drop (at + length src) xs,
  )

  -- What stands before the end of a copy.
  pub take-splice :
      (xs : List A) (at n : ℕ) (src : List A)
      → at ≤ length xs
      → n ≡ at + length src
      → take n (splice xs at src) ≡ take at xs ++ src
  take-splice xs at n src h e = rw (← append_assoc (take at xs) src) (
      take-append n (take at xs ++ src) _ (omega (arith, size))
      ∙ take_all n _ (omega (arith, size)))
    where
      size : length (take at xs ++ src) ≡ n
      size = omega (arith, length-append (take at xs) src, length-take at xs)

  -- What stands behind the end of a copy.
  pub drop-splice :
      (xs : List A) (at n j : ℕ) (src : List A)
      → at ≤ length xs
      → n ≡ at + length src + j
      → drop n (splice xs at src) ≡ drop n xs
  drop-splice xs at n j src h e = rw (← append_assoc (take at xs) src) (
      drop-append_past n j (take at xs ++ src) (drop (at + length src) xs) (omega (arith, size))
      ∙ drop-drop (at + length src) j n xs e)
    where
      size : length (take at xs ++ src) ≡ at + length src
      size = omega (arith, length-append (take at xs) src, length-take at xs)

  -- Two copies in a row are one copy of both sources.
  pub splice-splice :
      (xs : List A) (at at' : ℕ) (src more : List A)
      → at ≤ length xs
      → at' ≡ at + length src
      → splice (splice xs at src) at' more ≡ splice xs at (src ++ more)
  splice-splice xs at at' src more h e =
      take at' (splice xs at src) ++ (more ++ drop (at' + length more) (splice xs at src))
      ≡⟨ ap₂ (λ t u. t ++ (more ++ u)) (take-splice xs at at' src h e)
          (drop-splice xs at (at' + length more) (length more) src h (omega arith)) ⟩
        (take at xs ++ src) ++ (more ++ drop (at' + length more) xs)
      ≡⟨ append_assoc (take at xs) src _ ⟩
        take at xs ++ (src ++ (more ++ drop (at' + length more) xs))
      ≡⟨ ap (λ n. take at xs ++ (src ++ (more ++ drop n xs))) size ⟩
        take at xs ++ (src ++ (more ++ drop (at + length (src ++ more)) xs))
      ≡⟨ ap (λ t. take at xs ++ t) (sym (append_assoc src more _)) ⟩ splice xs at (src ++ more) ∎
    where
      size : at' + length more ≡ at + length (src ++ more)
      size = omega (arith, length-append src more)

module _ {ℓ} {A : Type ℓ} where
  pub length-set : (xs : List A) (i : ℕ) (v : A) → length (set xs i v) ≡ length xs
  length-set [] i v = refl
  length-set (x ∷ xs) zero v = refl
  length-set (x ∷ xs) (suc i) v = ap suc (length-set xs i v)

  -- A write at the end of a prefix, and a read behind it.
  pub take-set :
      (xs : List A) (i n : ℕ) (v : A)
      → i < length xs
      → n ≡ suc i
      → take n (set xs i v) ≡ take i xs ++ v ∷ []
  take-set [] i n v h e = absurd (omega arith)
  take-set (x ∷ xs) i zero v h e = absurd (omega arith)
  take-set (x ∷ xs) zero (suc zero) v h e = refl
  take-set (x ∷ xs) zero (suc (suc n)) v h e = absurd (omega arith)
  take-set (x ∷ xs) (suc i) (suc n) v h e =
      ap (λ t. x ∷ t) (take-set xs i n v (omega arith) (omega arith))

  pub drop-set : (xs : List A) (i n : ℕ) (v : A) → i < n → drop n (set xs i v) ≡ drop n xs
  drop-set [] i n v h = refl
  drop-set (x ∷ xs) i zero v h = absurd (omega arith)
  drop-set (x ∷ xs) zero (suc n) v h = refl
  drop-set (x ∷ xs) (suc i) (suc n) v h = drop-set xs i n v (omega arith)

  -- An element and what stands behind it.
  pub drop-get_or :
      (xs : List A) (i n : ℕ) (d : A)
      → i < length xs
      → n ≡ suc i
      → drop i xs ≡ get_or xs i d ∷ drop n xs
  drop-get_or [] i n d h e = absurd (omega arith)
  drop-get_or (x ∷ xs) zero zero d h e = absurd (omega arith)
  drop-get_or (x ∷ xs) zero (suc zero) d h e = refl
  drop-get_or (x ∷ xs) zero (suc (suc n)) d h e = absurd (omega arith)
  drop-get_or (x ∷ xs) (suc i) zero d h e = absurd (omega arith)
  drop-get_or (x ∷ xs) (suc i) (suc n) d h e = drop-get_or xs i n d (omega arith) (omega arith)

pub All-map {ℓ κ μ} :
    {A B : Type ℓ} (P : A → Type κ) (Q : B → Type μ) (f : A → B) (xs : List A)
    → ((x : A) → P x → Q (f x))
    → All P xs
    → All Q (map f xs)
All-map P Q f [] g h = tt
All-map P Q f (x ∷ xs) g h = (g x h.0, All-map P Q f xs g h.1)
