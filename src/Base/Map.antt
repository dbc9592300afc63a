-- ===== src/Base/Map.antt =====
-- Go's `map[string]V` as an association list. A Go map iterates in no fixed order, and has one
-- entry for a key: proofs read it by `lookup` alone, or say `NodupKeys`.
use Prim.Native.String.{String}
use mathlib.Core.Path.{◌≡◌, refl, ◌∙◌}
use mathlib.Core.Logic.{inl, inr}
use mathlib.Core.Option.{Option, none, some}
use mathlib.Core.List.{List, [], ◌∷◌}
use native.Mathlib.Omega.{arith}
use vnode.Base.Tests.{if◌then◌else◌, ◌==◌, eq_iff, Bool-cases}

abbrev pub Map {ℓ} : Type ℓ → Type ℓ
Map V = List (String × V)

module _ {ℓ} {V : Type ℓ} where
  -- `delete(m, key)`
  abbrev pub erase : String → Map V → Map V
  erase key [] = []
  erase key ((k, v) ∷ rest) =
      let erased = erase key rest in if key == k then erased else (k, v) ∷ erased

  -- `v, ok := m[key]`
  abbrev pub lookup : String → Map V → Option V
  lookup key [] = none
  lookup key ((k, v) ∷ rest) = let later = lookup key rest in if key == k then some v else later

  abbrev pub NodupKeys : Map V → Type ℓ
  NodupKeys [] = Unit
  NodupKeys ((k, v) ∷ rest) = NodupKeys rest × (lookup k rest ≡ none)

  -- `m[key] = new`
  abbrev pub insert : String → V → Map V → Map V
  insert key new [] = (key, new) ∷ []
  insert key new ((k, v) ∷ rest) =
      let later = insert key new rest in if key == k then (key, new) ∷ rest else (k, v) ∷ later

  pub lookup-erase :
      (key other : String) (m : Map V)
      → lookup other (erase key m) ≡ (if other == key then none else lookup other m)
  lookup-erase key other [] = ground arith
  lookup-erase key other ((k, v) ∷ rest) =
      ground (arith, lookup-erase key other rest, eq_iff key k, eq_iff other k, eq_iff other key)

  pub lookup-insert :
      (key other : String) (new : V) (m : Map V)
      → lookup other (insert key new m) ≡ (if other == key then some new else lookup other m)
  lookup-insert key other new [] = refl
  lookup-insert key other new ((k, v) ∷ rest) =
      ground
        (arith, lookup-insert key other new rest, eq_iff key k, eq_iff other k, eq_iff other key)

  -- A map has each key once after every `m[key] = new`.
  pub NodupKeys-insert :
      (key : String) (new : V) (m : Map V) → NodupKeys m → NodupKeys (insert key new m)
  NodupKeys-insert key new [] d = (tt, refl)
  NodupKeys-insert key new ((k, v) ∷ rest) (d, once) = elim (Bool-cases (key == k)) [
    | inl here ↦ rw here (d, rw ((eq_iff key k).0 here) once)
    | inr other ↦ rw other (
      NodupKeys-insert key new rest d,
      lookup-insert key k new rest ∙ ground (arith, other, once, eq_iff key k, eq_iff k key),
    )
  ]

-- `m[key]` of a `map[string]string`: the empty text where the key is missing.
abbrev pub get : String → Map String → String
get key m = elim (lookup key m) [ none ↦ "" | some v ↦ v ]
