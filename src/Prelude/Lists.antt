-- ===== src/Prelude/Lists.antt =====
-- Lists of records: sums of a measure, a predicate on every entry, reading and replacing an entry.
use Prim.Native.Nat.{ℕ, zero, suc, ◌+◌, ◌≤◌}
use mathlib.Core.Path.{◌≡◌}
use mathlib.Core.Option.{Option, none, some}
use mathlib.Core.List.{List, [], ◌∷◌}
use native.Mathlib.Omega.{arith}

module _ {ℓ} {A : Type ℓ} where
  abbrev pub length : List A → ℕ
  length [] = 0
  length (x ∷ xs) = suc (length xs)

  abbrev pub get_elem? : List A → ℕ → Option A
  get_elem? [] i = none
  get_elem? (x ∷ xs) zero = some x
  get_elem? (x ∷ xs) (suc i) = get_elem? xs i

  -- A write out of bounds changes nothing.
  abbrev pub set : List A → ℕ → A → List A
  set [] i v = []
  set (x ∷ xs) zero v = v ∷ xs
  set (x ∷ xs) (suc i) v = x ∷ set xs i v

  abbrev pub erase_at : List A → ℕ → List A
  erase_at [] i = []
  erase_at (x ∷ xs) zero = xs
  erase_at (x ∷ xs) (suc i) = x ∷ erase_at xs i

  -- The sum of a measure over the entries.
  abbrev pub sum_by : (A → ℕ) → List A → ℕ
  sum_by f [] = 0
  sum_by f (x ∷ xs) = f x + sum_by f xs

  abbrev pub All {κ} : (A → Type κ) → List A → Type κ
  All P [] = Unit
  All P (x ∷ xs) = P x × All P xs

  pub sum_by-set :
      (f : A → ℕ) (xs : List A) (i : ℕ) (old new : A)
      → get_elem? xs i ≡ some old
      → sum_by f (set xs i new) + f old ≡ sum_by f xs + f new
  sum_by-set f [] i old new e = cc
  sum_by-set f (x ∷ xs) zero old new e = ground arith
  sum_by-set f (x ∷ xs) (suc i) old new e = omega (arith, sum_by-set f xs i old new e)

  pub sum_by-erase_at :
      (f : A → ℕ) (xs : List A) (i : ℕ) (old : A)
      → get_elem? xs i ≡ some old
      → sum_by f (erase_at xs i) + f old ≡ sum_by f xs
  sum_by-erase_at f [] i old e = cc
  sum_by-erase_at f (x ∷ xs) zero old e = ground arith
  sum_by-erase_at f (x ∷ xs) (suc i) old e = omega (arith, sum_by-erase_at f xs i old e)

  pub le-sum_by :
      (f : A → ℕ) (xs : List A) (i : ℕ) (x : A) → get_elem? xs i ≡ some x → f x ≤ sum_by f xs
  le-sum_by f [] i x e = cc
  le-sum_by f (y ∷ xs) zero x e = ground arith
  le-sum_by f (y ∷ xs) (suc i) x e = omega (arith, le-sum_by f xs i x e)

  pub sum_by-le : (f g : A → ℕ) (xs : List A) → ((x : A) → f x ≤ g x) → sum_by f xs ≤ sum_by g xs
  sum_by-le f g [] h = omega arith
  sum_by-le f g (x ∷ xs) h = omega (arith, h x, sum_by-le f g xs h)

  pub All-get_elem? {κ} :
      (P : A → Type κ) (xs : List A) (i : ℕ) (x : A) → All P xs → get_elem? xs i ≡ some x → P x
  All-get_elem? P [] i x a e = cc
  All-get_elem? P (y ∷ xs) zero x a e = ground arith
  All-get_elem? P (y ∷ xs) (suc i) x a e = All-get_elem? P xs i x a.1 e

  pub All-set {κ} :
      (P : A → Type κ) (xs : List A) (i : ℕ) (v : A) → All P xs → P v → All P (set xs i v)
  All-set P [] i v a h = a
  All-set P (x ∷ xs) zero v a h = (h, a.1)
  All-set P (x ∷ xs) (suc i) v a h = (a.0, All-set P xs i v a.1 h)

  pub All-erase_at {κ} : (P : A → Type κ) (xs : List A) (i : ℕ) → All P xs → All P (erase_at xs i)
  All-erase_at P [] i a = a
  All-erase_at P (x ∷ xs) zero a = a.1
  All-erase_at P (x ∷ xs) (suc i) a = (a.0, All-erase_at P xs i a.1)

  pub All-map {κ μ} :
      (P : A → Type κ) (Q : A → Type μ) (xs : List A) → ((x : A) → P x → Q x) → All P xs → All Q xs
  All-map P Q [] f a = tt
  All-map P Q (x ∷ xs) f a = (f x a.0, All-map P Q xs f a.1)
