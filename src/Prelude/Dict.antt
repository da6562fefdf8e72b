-- ===== src/Prelude/Dict.antt =====
-- A Go map with string keys, as the list of its entries. A missing key reads as the zero value,
-- which the caller gives. No code of the model depends on the order of the entries.
use Prim.Native.String.{String}
use mathlib.Core.Path.{◌≡◌, refl}
use mathlib.Core.List.{List, [], ◌∷◌}
use mathlib.Core.Bool.{Bool, false, ◌||◌}
use mathlib.Core.Option.{Option, none, some}
use native.Mathlib.Omega.{arith}
use text.Mathlib.Text.{◌==◌}
use text.Mathlib.TextEquality.{eq_iff}
use nara.Prelude.Tests.{if◌then◌else◌}

abbrev pub Dict {ℓ} : Type ℓ → Type ℓ
Dict V = List (String × V)

module _ {ℓ} {V : Type ℓ} where
  -- `v, ok := m[name]`
  unfoldable pub lookup : String → Dict V → Option V
  lookup name [] = none
  lookup name ((first, held) ∷ rest) = if first == name then some held else lookup name rest

  -- `m[name] = new`
  unfoldable pub insert : String → V → Dict V → Dict V
  insert name new [] = (name, new) ∷ []
  insert name new ((first, held) ∷ rest) =
      if first == name then (name, new) ∷ rest else (first, held) ∷ insert name new rest

  -- `delete(m, name)`
  unfoldable pub remove_key : String → Dict V → Dict V
  remove_key name [] = []
  remove_key name ((first, held) ∷ rest) =
      let others = remove_key name rest in if first == name then others else (first, held) ∷ others

  -- `for _, name := range names { delete(m, name) }`
  unfoldable pub delete_each : List String → Dict V → Dict V
  unfolding remove_key
  delete_each [] m = m
  delete_each (name ∷ names) m = delete_each names (remove_key name m)

  -- `m[name]`, with the zero value
  unfoldable pub lookup_or : V → String → Dict V → V
  unfolding lookup
  lookup_or zero_value name m = elim (lookup name m) [ none ↦ zero_value | some held ↦ held ]

  pub lookup-insert :
      (name read : String) (new : V) (m : Dict V)
      → lookup read (insert name new m) ≡ (if name == read then some new else lookup read m)
  unfolding insert lookup
  lookup-insert name read new [] = refl
  lookup-insert name read new ((first, held) ∷ rest) = ground (
    arith,
    lookup-insert name read new rest,
    eq_iff first read,
    eq_iff name read,
    eq_iff first name,
  )

-- Whether a name is in a list.
unfoldable pub has_name : String → List String → Bool
has_name name [] = false
has_name name (first ∷ rest) = first == name || has_name name rest

module _ {ℓ} {V : Type ℓ} where
  lookup-remove_key :
      (name read : String) (m : Dict V)
      → lookup read (remove_key name m) ≡ (if name == read then none else lookup read m)
  unfolding remove_key lookup
  lookup-remove_key name read [] = ground arith
  lookup-remove_key name read ((first, held) ∷ rest) = ground (
    arith,
    lookup-remove_key name read rest,
    eq_iff first read,
    eq_iff name read,
    eq_iff first name,
  )

  pub lookup-delete_each :
      (names : List String) (read : String) (m : Dict V)
      → lookup read (delete_each names m) ≡ (if has_name read names then none else lookup read m)
  unfolding delete_each has_name
  lookup-delete_each [] read m = refl
  lookup-delete_each (name ∷ names) read m =
      ground
        (arith, lookup-delete_each names read (remove_key name m), lookup-remove_key name read m)

  pub lookup_or-delete_each :
      (d : V) (names : List String) (read : String) (m : Dict V)
      → lookup_or d read (delete_each names m)
        ≡ (if has_name read names then d else lookup_or d read m)
  unfolding lookup_or
  lookup_or-delete_each d names read m = ground (arith, lookup-delete_each names read m)

  -- No key has two entries.
  abbrev pub DistinctKeys : Dict V → Type ℓ
  DistinctKeys [] = Unit
  DistinctKeys ((k, v) ∷ m) = (lookup k m ≡ none) × DistinctKeys m

  pub insert-DistinctKeys :
      (k : String) (v : V) (m : Dict V) → DistinctKeys m → DistinctKeys (insert k v m)
  unfolding insert
  insert-DistinctKeys k v [] d = (unfold lookup in refl, tt)
  insert-DistinctKeys k v ((j, w) ∷ m) d =
      ground (arith, eq_iff j k, eq_iff k j, lookup-insert k j v m, insert-DistinctKeys k v m d.1)

  pub lookup_or-insert :
      (d : V) (k j : String) (v : V) (m : Dict V)
      → lookup_or d j (insert k v m) ≡ (if k == j then v else lookup_or d j m)
  unfolding lookup_or
  lookup_or-insert d k j v m = ground (arith, lookup-insert k j v m)
