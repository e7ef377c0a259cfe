-- ===== src/Common/Assoc.antt =====
-- Maps as association lists. The order of the list is the order in which Go ranges over the map,
-- which the program may not rely on, or the clustering order of a table.
use shiro_distributed_system.Common.Tests.{if◌then◌else◌}
use shiro_distributed_system.Common.Lists.{length, All}
use shiro_distributed_system.Common.Keys.{Key, beq_refl}
use Prim.Native.Nat.{suc, ◌≤◌}
use shiro_distributed_system.Common.Tests.{Bool-cases}
use mathlib.Core.Bool.{false}
use mathlib.Core.Logic.{inl, inr}
use mathlib.Core.Path.{◌≡◌, refl}
use mathlib.Core.Option.{Option, none, some}
use mathlib.Core.List.{List, [], ◌∷◌}
use native.Mathlib.Omega.{arith}

abbrev pub Map : Type 0 → Type 0 → Type 0
Map K V = List (K × V)

module _ {K V : Type 0} ⦃k : Key K⦄ where
  unfoldable pub lookup : K → Map K V → Option V
  lookup a [] = none
  lookup a ((b, v) ∷ m) = if k.beq b a then some v else lookup a m

  -- Replaces the entry of the key, or puts a new one in its place.
  unfoldable pub insert : K → V → Map K V → Map K V
  insert a v [] = (a, v) ∷ []
  insert a v ((b, w) ∷ m) =
      let rest = insert a v m in
      if k.beq b a then (a, v) ∷ m else if k.before a b then (a, v) ∷ (b, w) ∷ m else (b, w) ∷ rest

  unfoldable pub delete : K → Map K V → Map K V
  delete a [] = []
  delete a ((b, v) ∷ m) = let rest = delete a m in if k.beq b a then rest else (b, v) ∷ rest

  pub lookup-insert :
      (a b : K) (v : V) (m : Map K V)
      → lookup b (insert a v m) ≡ (if k.beq a b then some v else lookup b m)
  unfolding lookup insert
  lookup-insert a b v [] = refl
  lookup-insert a b v ((c, w) ∷ m) =
      ground (arith, k.beq_iff c a, k.beq_iff c b, k.beq_iff a b, lookup-insert a b v m)

  pub lookup-delete :
      (a b : K) (m : Map K V) → lookup b (delete a m) ≡ (if k.beq a b then none else lookup b m)
  unfolding lookup delete
  lookup-delete a b [] = ground arith
  lookup-delete a b ((c, w) ∷ m) =
      ground (arith, k.beq_iff c a, k.beq_iff c b, k.beq_iff a b, lookup-delete a b m)

  pub lookup-insert_other :
      (a b : K) (v : V) (m : Map K V) → k.beq a b ≡ false → lookup b (insert a v m) ≡ lookup b m
  lookup-insert_other a b v m other = rw (lookup-insert a b v m, other) refl

  pub lookup-delete_other :
      (a b : K) (m : Map K V) → k.beq a b ≡ false → lookup b (delete a m) ≡ lookup b m
  lookup-delete_other a b m other = rw (lookup-delete a b m, other) refl

  pub lookup-insert_self : (a : K) (v : V) (m : Map K V) → lookup a (insert a v m) ≡ some v
  lookup-insert_self a v m = rw (lookup-insert a a v m, beq_refl a)

  pub lookup-delete_self : (a : K) (m : Map K V) → lookup a (delete a m) ≡ none
  lookup-delete_self a m = rw (lookup-delete a a m, beq_refl a)

  pub length-insert-le : (a : K) (v : V) (m : Map K V) → length (insert a v m) ≤ suc (length m)
  unfolding insert
  length-insert-le a v [] = omega arith
  length-insert-le a v ((c, w) ∷ m) = ground (arith, length-insert-le a v m)

  pub length-delete-le : (a : K) (m : Map K V) → length (delete a m) ≤ length m
  unfolding delete
  length-delete-le a [] = omega arith
  length-delete-le a ((c, w) ∷ m) = ground (arith, length-delete-le a m)

  -- A key that is present makes the map strictly shorter when it is deleted.
  pub length-delete-lt :
      (a : K) (v : V) (m : Map K V) → lookup a m ≡ some v → suc (length (delete a m)) ≤ length m
  unfolding lookup delete
  length-delete-lt a v [] h = absurd (ground arith)
  length-delete-lt a v ((c, w) ∷ m) h = ground (arith, length-delete-lt a v m, length-delete-le a m)

  module _ (P : K × V → Type 0) where
    pub All-insert : (a : K) (v : V) (m : Map K V) → P (a, v) → All P m → All P (insert a v m)
    unfolding insert
    All-insert a v [] h hs = (h, tt)
    All-insert a v ((c, w) ∷ m) h hs = elim (Bool-cases (k.beq c a)) [
      | inl same ↦ rw same (h, hs.1)
      | inr other ↦ rw other (elim (Bool-cases (k.before a c)) [
        | inl here ↦ rw here (h, hs)
        | inr later ↦ rw later (hs.0, All-insert a v m h hs.1)
      ])
    ]

    pub All-delete : (a : K) (m : Map K V) → All P m → All P (delete a m)
    unfolding delete
    All-delete a [] hs = tt
    All-delete a ((c, w) ∷ m) hs = elim (Bool-cases (k.beq c a)) [
      | inl same ↦ rw same (All-delete a m hs.1)
      | inr other ↦ rw other (hs.0, All-delete a m hs.1)
    ]
