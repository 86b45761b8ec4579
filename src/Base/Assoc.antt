-- ===== src/Base/Assoc.antt =====
-- `HashMap` from file descriptors: an association list with each key once.
use Prim.Native.Nat.{ℕ, suc, ◌≤◌}
use mathlib.Core.List.{List, [], ◌∷◌}
use mathlib.Core.Option.{Option, none, some}
use mathlib.Core.Path.{◌≡◌}
use native.Mathlib.Omega.{arith}
use rust_tcp_server.Base.Lists.{length}
use rust_tcp_server.Base.Tests.{◌==◌, if◌then◌else◌}

unfoldable pub find_key {ℓ} : {A : Type ℓ} → ℕ → List (ℕ × A) → Option A
find_key k [] = none
find_key k ((j, a) ∷ m) = if j == k then some a else find_key k m

unfoldable pub remove_key {ℓ} : {A : Type ℓ} → ℕ → List (ℕ × A) → List (ℕ × A)
remove_key k [] = []
remove_key k ((j, a) ∷ m) = let rest = remove_key k m in if j == k then rest else (j, a) ∷ rest

unfoldable pub insert_key {ℓ} : {A : Type ℓ} → ℕ → A → List (ℕ × A) → List (ℕ × A)
unfolding remove_key
insert_key k a m = (k, a) ∷ remove_key k m

module _ {ℓ} {A : Type ℓ} where
  pub find_key-remove_key :
      (k q : ℕ) (m : List (ℕ × A))
      → find_key q (remove_key k m) ≡ (if k == q then none else find_key q m)
  unfolding find_key remove_key
  find_key-remove_key k q [] = ground arith
  find_key-remove_key k q ((j, a) ∷ m) = ground (arith, find_key-remove_key k q m)

  pub find_key-insert_key :
      (k q : ℕ) (a : A) (m : List (ℕ × A))
      → find_key q (insert_key k a m) ≡ (if k == q then some a else find_key q m)
  unfolding find_key insert_key
  find_key-insert_key k q a m = ground (arith, find_key-remove_key k q m)

  pub length-remove_key : (k : ℕ) (m : List (ℕ × A)) → length (remove_key k m) ≤ length m
  unfolding remove_key
  length-remove_key k [] = omega arith
  length-remove_key k ((j, a) ∷ m) = ground (arith, length-remove_key k m)

  pub length-insert_key :
      (k : ℕ) (a : A) (m : List (ℕ × A)) → length (insert_key k a m) ≤ suc (length m)
  unfolding insert_key
  length-insert_key k a m = omega (arith, length-remove_key k m)

  -- A key that is there takes a place.
  pub remove_key_found :
      (k : ℕ) (a : A) (m : List (ℕ × A))
      → find_key k m ≡ some a
      → suc (length (remove_key k m)) ≤ length m
  unfolding find_key remove_key
  remove_key_found k a [] h = cc
  remove_key_found k a ((j, b) ∷ m) h =
      ground (arith, remove_key_found k a m, length-remove_key k m)
