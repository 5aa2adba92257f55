-- ===== src/Common/Maps.antt =====
-- A JavaScript `Map` with text keys, as the list of its entries in insertion order: `get`, `set`
-- (in place, or at the end), `values`, and the number of values that pass a test.
use Prim.Native.Nat.{ℕ, ◌+◌}
use Prim.Native.String.{String}
use mathlib.Core.Path.{◌≡◌, refl}
use mathlib.Core.Logic.{inl, inr}
use mathlib.Core.Bool.{Bool, true, false}
use mathlib.Core.Option.{Option, none, some}
use mathlib.Core.List.{List, [], ◌∷◌}
use native.Mathlib.Omega.{arith}
use text.Mathlib.Text.{◌==◌}
use text.Mathlib.TextEquality.{eq_iff}
use openclaw_rtc_plugin.Common.Tests.{if◌then◌else◌, Bool-cases}

abbrev pub Entries {ℓ} : Type ℓ → Type ℓ
Entries V = List (String × V)

-- A number for a test, so that a count is a sum.
abbrev pub to_ℕ : Bool → ℕ
to_ℕ true = 1
to_ℕ false = 0

module _ {ℓ} {V : Type ℓ} where
  unfoldable pub lookup : String → Entries V → Option V
  lookup key [] = none
  lookup key ((k, old) ∷ es) = if k == key then some old else lookup key es

  unfoldable pub insert : String → V → Entries V → Entries V
  insert key new [] = (key, new) ∷ []
  insert key new (e ∷ es) = if e.0 == key then (e.0, new) ∷ es else e ∷ insert key new es

  unfoldable pub erase : String → Entries V → Entries V
  erase key [] = []
  erase key (e ∷ es) = if e.0 == key then es else e ∷ erase key es

  unfoldable pub values : Entries V → List V
  values [] = []
  values (e ∷ es) = e.1 ∷ values es

  unfoldable pub keys : Entries V → List String
  keys [] = []
  keys (e ∷ es) = e.0 ∷ keys es

  unfoldable pub count : (V → Bool) → Entries V → ℕ
  count p [] = 0
  count p (e ∷ es) = to_ℕ (p e.1) + count p es

  abbrev pub to_ℕ? : (V → Bool) → Option V → ℕ
  to_ℕ? p none = 0
  to_ℕ? p (some v) = to_ℕ (p v)

  -- A read after a write: of the key that was written, or of another.
  pub lookup-insert :
      (key other : String) (new : V) (es : Entries V)
      → lookup other (insert key new es) ≡ (if key == other then some new else lookup other es)
  unfolding lookup insert
  lookup-insert key other new [] = refl
  lookup-insert key other new ((k, old) ∷ es) =
      ground (arith, lookup-insert key other new es, eq_iff k key, eq_iff k other, eq_iff key other)

  -- A write takes the old value out of the count and puts the new one in.
  pub count-insert :
      (p : V → Bool) (key : String) (new : V) (es : Entries V)
      → count p (insert key new es) + to_ℕ? p (lookup key es) ≡ count p es + to_ℕ (p new)
  unfolding lookup insert count
  count-insert p key new [] = omega arith
  count-insert p key new ((k, old) ∷ es) = ground (arith, count-insert p key new es)

  unfoldable pub has_key : String → Entries V → Bool
  has_key key [] = false
  has_key key (e ∷ es) = if e.0 == key then true else has_key key es

  -- No key occurs twice.
  abbrev pub IsDistinct : Entries V → Type 0
  IsDistinct [] = Unit
  IsDistinct (e ∷ es) = (has_key e.0 es ≡ false) × IsDistinct es

  has_key-insert :
      (key other : String) (new : V) (es : Entries V)
      → has_key other (insert key new es) ≡ (if key == other then true else has_key other es)
  unfolding has_key insert
  has_key-insert key other new [] = refl
  has_key-insert key other new ((k, old) ∷ es) =
      ground
        (arith, has_key-insert key other new es, eq_iff k key, eq_iff k other, eq_iff key other)

  pub insert-IsDistinct :
      (key : String) (new : V) (es : Entries V) → IsDistinct es → IsDistinct (insert key new es)
  unfolding insert has_key
  insert-IsDistinct key new [] d = (refl, tt)
  insert-IsDistinct key new ((k, old) ∷ es) d = elim (Bool-cases (k == key)) [
    | inl same ↦ rw same (d.0, d.1)
    | inr other ↦ rw other (
      ground (arith, has_key-insert key k new es, eq_iff k key, eq_iff key k),
      insert-IsDistinct key new es d.1,
    )
  ]

  has_key-erase :
      (key other : String) (es : Entries V)
      → has_key other es ≡ false
      → has_key other (erase key es) ≡ false
  unfolding has_key erase
  has_key-erase key other [] h = refl
  has_key-erase key other ((k, old) ∷ es) h = ground (arith, has_key-erase key other es)

  pub erase-IsDistinct : (key : String) (es : Entries V) → IsDistinct es → IsDistinct (erase key es)
  unfolding erase
  erase-IsDistinct key [] d = tt
  erase-IsDistinct key ((k, old) ∷ es) d = elim (Bool-cases (k == key)) [
    | inl same ↦ rw same d.1
    | inr other ↦ rw other (has_key-erase key k es d.0, erase-IsDistinct key es d.1)
  ]

  lookup-has_key : (key : String) (es : Entries V) → has_key key es ≡ false → lookup key es ≡ none
  unfolding has_key lookup
  lookup-has_key key [] h = refl
  lookup-has_key key ((k, old) ∷ es) h = ground (arith, lookup-has_key key es)

  -- A read after a removal: of the key that was removed, or of another.
  pub lookup-erase :
      (key other : String) (es : Entries V)
      → IsDistinct es
      → lookup other (erase key es) ≡ (if key == other then none else lookup other es)
  unfolding lookup erase
  lookup-erase key other [] d = ground arith
  lookup-erase key other ((k, old) ∷ es) d = ground (
    arith,
    lookup-erase key other es d.1,
    lookup-has_key k es d.0,
    eq_iff k key,
    eq_iff k other,
    eq_iff key other,
  )

  -- A removal takes the value out of the count.
  pub count-erase :
      (p : V → Bool) (key : String) (old : V) (es : Entries V)
      → lookup key es ≡ some old
      → count p es ≡ count p (erase key es) + to_ℕ (p old)
  unfolding lookup erase count
  count-erase p key old [] at = absurd (ground arith)
  count-erase p key old ((k, v) ∷ es) at = ground (arith, count-erase p key old es)
