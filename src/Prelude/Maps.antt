-- ===== src/Prelude/Maps.antt =====
-- Go maps keyed by strings, as association lists. A key is written in front and removed everywhere,
-- so the first entry of a key is its only one; the order of entries is not the program's.
use mathlib.Core.Path.{◌≡◌}
use mathlib.Core.Option.{Option, none, some}
use mathlib.Core.List.{List, [], ◌∷◌}
use native.Mathlib.Omega.{arith}
use agent_chat.Prelude.Tests.{if◌then◌else◌}
use agent_chat.Prelude.Text.{Str, str_eq, str_eq_iff}

abbrev pub StrMap {ℓ} : Type ℓ → Type ℓ
StrMap V = List (Str × V)

module _ {ℓ} {V : Type ℓ} where
  -- v, ok := m[k]
  abbrev pub lookup : Str → StrMap V → Option V
  lookup k [] = none
  lookup k ((j, v) ∷ m) = let rest = lookup k m in if str_eq j k then some v else rest

  -- delete(m, k)
  abbrev pub delete : Str → StrMap V → StrMap V
  delete k [] = []
  delete k ((j, v) ∷ m) = let rest = delete k m in if str_eq j k then rest else (j, v) ∷ rest

  -- m[k] = v
  abbrev pub put : Str → V → StrMap V → StrMap V
  put k v m = (k, v) ∷ delete k m

  pub lookup-delete :
      (k j : Str) (m : StrMap V) → lookup j (delete k m) ≡ (if str_eq k j then none else lookup j m)
  lookup-delete k j [] = ground arith
  lookup-delete k j ((i, v) ∷ m) =
      ground (arith, lookup-delete k j m, str_eq_iff i k, str_eq_iff i j, str_eq_iff k j)

  pub lookup-put :
      (k j : Str) (v : V) (m : StrMap V)
      → lookup j (put k v m) ≡ (if str_eq k j then some v else lookup j m)
  lookup-put k j v m = ground (arith, lookup-delete k j m)
