-- ===== src/Base/Lists.antt =====
-- Lists as the program's slices: searches, tests, prefixes, and maps as association lists.
use Prim.Native.Nat.{ℕ, zero, suc}
use mathlib.Core.Path.{◌≡◌, refl}
use mathlib.Core.Bool.{Bool, true, false, ◌&&◌, ◌||◌}
use mathlib.Core.Option.{Option, none, some}
use mathlib.Core.List.{List, [], ◌∷◌}
use native.Mathlib.Omega.{arith}
use stepan.Base.Tests.{Comparable, ◌==◌, if◌then◌else◌}

module _ {ℓ} {A : Type ℓ} where
  abbrev pub length : List A → ℕ
  length [] = 0
  length (x ∷ xs) = suc (length xs)

  abbrev pub is_empty : List A → Bool
  is_empty [] = true
  is_empty (x ∷ xs) = false

  abbrev pub any : (A → Bool) → List A → Bool
  any p [] = false
  any p (x ∷ xs) = p x || any p xs

  abbrev pub all : (A → Bool) → List A → Bool
  all p [] = true
  all p (x ∷ xs) = p x && all p xs

  -- The first element that passes the test: a loop that returns a pointer to it, or nil.
  abbrev pub find? : (A → Bool) → List A → Option A
  find? p [] = none
  find? p (x ∷ xs) = if p x then some x else find? p xs

  -- Writing through that pointer.
  abbrev pub update_first : (A → Bool) → (A → A) → List A → List A
  update_first p f [] = []
  update_first p f (x ∷ xs) = if p x then f x ∷ xs else x ∷ update_first p f xs

  abbrev pub keep : (A → Bool) → List A → List A
  keep p [] = []
  keep p (x ∷ xs) = if p x then x ∷ keep p xs else keep p xs

  abbrev pub get_last? : List A → Option A
  get_last? [] = none
  get_last? (x ∷ []) = some x
  get_last? (x ∷ y ∷ ys) = get_last? (y ∷ ys)

  abbrev pub take : ℕ → List A → List A
  take zero xs = []
  take (suc n) [] = []
  take (suc n) (x ∷ xs) = x ∷ take n xs

  abbrev pub drop : ℕ → List A → List A
  drop zero xs = xs
  drop (suc n) [] = []
  drop (suc n) (x ∷ xs) = drop n xs

-- `slices.Equal`.
module _ {ℓ} {A : Type ℓ} ⦃e : Comparable A⦄ where
  abbrev pub list_beq : List A → List A → Bool
  list_beq [] [] = true
  list_beq [] (y ∷ ys) = false
  list_beq (x ∷ xs) [] = false
  list_beq (x ∷ xs) (y ∷ ys) = x == y && list_beq xs ys

  abbrev pub contains : List A → A → Bool
  contains [] a = false
  contains (x ∷ xs) a = x == a || contains xs a

-- A Go map: a key is listed once, a missing key reads as the zero value.
module _ {ℓ κ} {K : Type ℓ} {V : Type κ} ⦃e : Comparable K⦄ where
  abbrev pub lookup : K → List (K × V) → Option V
  lookup k [] = none
  lookup k ((j, v) ∷ m) = if j == k then some v else lookup k m

  abbrev pub lookup_or : V → K → List (K × V) → V
  lookup_or d k [] = d
  lookup_or d k ((j, v) ∷ m) = if j == k then v else lookup_or d k m

  abbrev pub insert : K → V → List (K × V) → List (K × V)
  insert k v [] = (k, v) ∷ []
  insert k v ((j, w) ∷ m) = if j == k then (j, v) ∷ m else (j, w) ∷ insert k v m

  -- The assignment `m[k] = v` for each key of a slice.
  abbrev pub insert_all : List K → V → List (K × V) → List (K × V)
  insert_all [] v m = m
  insert_all (k ∷ ks) v m = insert_all ks v (insert k v m)

module _ {ℓ κ} {K : Type ℓ} {V : Type κ} ⦃e : Comparable K⦄ where
  pub lookup_or-insert :
      (d v : V) (k j : K) (m : List (K × V))
      → lookup_or d j (insert k v m) ≡ (if k == j then v else lookup_or d j m)
  lookup_or-insert d v k j [] = refl
  lookup_or-insert d v k j ((i, w) ∷ m) =
      ground (arith, lookup_or-insert d v k j m, e.same_iff i k, e.same_iff i j, e.same_iff k j)

  -- A read after writing one value to several keys.
  pub lookup_or-insert_all :
      (d v : V) (ks : List K) (j : K) (m : List (K × V))
      → lookup_or d j (insert_all ks v m) ≡ (if contains ks j then v else lookup_or d j m)
  lookup_or-insert_all d v [] j m = refl
  lookup_or-insert_all d v (k ∷ ks) j m =
      rw (lookup_or-insert_all d v ks j (insert k v m), lookup_or-insert d v k j m) (ground arith)
