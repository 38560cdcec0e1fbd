-- ===== src/Prelude/Result.antt =====
-- `io::Result`, and methods that change `self` and may fail. What was written before a failure
-- stays written, so the state comes back beside an error too.
use mathlib.Core.Path.{◌≡◌, refl}
use mathlib.Core.Bool.{Bool, true, false}

-- `io::ErrorKind`, as far as the program makes or tests one; messages are left out.
pub data ErrorKind : Type 0 where
  invalid_data invalid_input out_of_memory write_zero interrupted would_block : ErrorKind
  not_found already_exists unexpected_eof invalid_filename other : ErrorKind

pub data Result {ℓ} (A : Type ℓ) : Type ℓ where
  ok : A → Result A
  err : ErrorKind → Result A

-- A method of a state `S`.
abbrev pub Exec {ℓ} : Type ℓ → Type ℓ → Type ℓ
Exec S A = S → Result A × S

module _ {ℓ} {S A B : Type ℓ} where
  -- what follows a call, by the call's result
  abbrev pub and_then : Result A → (A → Exec S B) → Exec S B
  and_then (ok a) f s = f a s
  and_then (err e) f s = (err e, s)

  infixl 5 ◌>>=◌ ◌>>◌
  abbrev pub ◌>>=◌ : Exec S A → (A → Exec S B) → Exec S B
  ◌>>=◌ m f s = let (r, s') = m s in and_then r f s'

  abbrev pub ◌>>◌ : Exec S A → Exec S B → Exec S B
  m >> n = m >>= λ _. n

module _ {ℓ} {S A : Type ℓ} where
  abbrev pub pure : A → Exec S A
  pure a s = (ok a, s)

  abbrev pub fail : ErrorKind → Exec S A
  fail e s = (err e, s)

-- `?` outside a method
abbrev pub try {ℓ} : {A B : Type ℓ} → Result A → (A → Result B) → Result B
try (ok a) f = f a
try (err e) f = err e

-- `if !condition { return Err(e) }`
abbrev pub guard {ℓ} : {S : Type ℓ} → Bool → ErrorKind → S → Result (Unit {ℓ}) × S
guard true e s = (ok tt, s)
guard false e s = (err e, s)

-- A method that succeeded, taken apart at its first call.
pub >>=-eq-ok {ℓ} :
    {S A B : Type ℓ} (m : Exec S A) (f : A → Exec S B) (s : S) {b : B} {u : S}
    → (m >>= f) s ≡ (ok b, u)
    → (a : A) × (t : S) × (m s ≡ (ok a, t)) × (f a t ≡ (ok b, u))
>>=-eq-ok {S = S} {A = A} {B = B} m f s {b} {u} h = go (m s) refl h
  where
    go :
        (r : Result A × S)
        → m s ≡ r
        → and_then r.0 f r.1 ≡ (ok b, u)
        → (a : A) × (t : S) × (m s ≡ (ok a, t)) × (f a t ≡ (ok b, u))
    go (ok a, t) e k = (a, t, e, k)
    go (err x, t) e k = cc

-- What holds of a result if there is one.
abbrev pub Ensures {ℓ κ} : {A : Type ℓ} → (A → Type κ) → Result A → Type κ
Ensures P (ok a) = P a
Ensures P (err e) = Unit

-- A call and what follows it.
pub Ensures-bind {ℓ κ} :
    {S A B : Type ℓ} (P : B → Type κ) (m : Exec S A) (f : A → Exec S B) (s : S)
    → ((a : A) (t : S) → m s ≡ (ok a, t) → Ensures P (f a t).0)
    → Ensures P ((m >>= f) s).0
Ensures-bind {S = S} {A = A} P m f s h = go (m s) refl
  where
    go : (r : Result A × S) → m s ≡ r → Ensures P (and_then r.0 f r.1).0
    go (ok a, t) e = h a t e
    go (err x, t) e = tt

-- A chain outside a method that succeeded, taken apart at its first call.
pub try-eq-ok {ℓ} :
    {A B : Type ℓ} (r : Result A) (f : A → Result B) {b : B}
    → try r f ≡ ok b
    → (a : A) × (r ≡ ok a) × (f a ≡ ok b)
try-eq-ok (ok a) f h = (a, refl, h)
try-eq-ok (err x) f h = cc

pub ok-injective {ℓ} : {A : Type ℓ} {a b : A} → ok a ≡ ok b → a ≡ b
ok-injective h = cc

-- A result and what follows it outside a method.
pub Ensures-try {ℓ κ} :
    {A B : Type ℓ} (P : B → Type κ) (r : Result A) (f : A → Result B)
    → ((a : A) → r ≡ ok a → Ensures P (f a))
    → Ensures P (try r f)
Ensures-try P (ok a) f h = h a refl
Ensures-try P (err x) f h = tt
