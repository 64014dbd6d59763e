-- ===== src/Base/Maps.antt =====
-- A Go map with string keys: the entry at each key. Iteration order is never observable in the code
-- that is modelled, so a loop over a map is one change at every key.
use Prim.Native.String.{String}
use mathlib.Core.Bool.{Bool}
use mathlib.Core.Option.{Option, none, some}
use text.Mathlib.Text.{◌==◌}
use minidp.Base.Tests.{if◌then◌else◌}

abbrev pub Map {ℓ} : Type ℓ → Type ℓ
Map V = String → Option V

module _ {ℓ} {V : Type ℓ} where
  abbrev pub empty : Map V
  empty j = none

  -- m[k] = v
  abbrev pub put : String → V → Map V → Map V
  put k v m j = if k == j then some v else m j

  -- delete(m, k)
  abbrev pub delete : String → Map V → Map V
  delete k m j = if k == j then none else m j

  abbrev keep_unless : (V → Bool) → Option V → Option V
  keep_unless p none = none
  keep_unless p (some v) = if p v then none else some v

  -- dropWhere, and the loops that delete the entries which satisfy a test.
  abbrev pub drop_where : (V → Bool) → Map V → Map V
  drop_where p m j = keep_unless p (m j)
