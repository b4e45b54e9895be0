-- ===== src/Memory.antt =====
-- The C memory that the program uses: arrays from `malloc` and `realloc`, element access, `memcpy`
-- and `memmove`. An access outside an array and a read of a cell that nothing has written are
-- undefined behaviour, which is `none`.
pub mod Laws
pub mod Cells
use libbayeux.Prelude.{
  ℕ, zero, suc, ◌-◌, List, [], ◌∷◌, ◌++◌, map, Option, none, some, length, take, replicate, ◌>>=◌,
}

-- A cell is `none` until it is written.
abbrev pub Block {ℓ} : Type ℓ → Type ℓ
Block A = List (Option A)

module _ {ℓ} {A : Type ℓ} where
  unfoldable pub malloc : ℕ → Block A
  malloc n = replicate n none

  unfoldable pub realloc : Block A → ℕ → Block A
  realloc b n = take n b ++ replicate (n - length b) none

  -- `b[i]` as a value
  unfoldable pub load : Block A → ℕ → Option A
  load [] i = none
  load (c ∷ b) zero = c
  load (c ∷ b) (suc i) = load b i

  -- `b[i] = v`
  unfoldable pub store : Block A → ℕ → A → Option (Block A)
  store [] i v = none
  store (c ∷ b) zero v = some (some v ∷ b)
  store (c ∷ b) (suc i) v = do b' ← store b i v; some (c ∷ b')

  -- the `n` cells from index `i` on
  unfoldable pub cells : Block A → ℕ → ℕ → Option (Block A)
  cells b zero zero = some []
  cells [] zero (suc n) = none
  cells (c ∷ b) zero (suc n) = do cs ← cells b zero n; some (c ∷ cs)
  cells [] (suc i) n = none
  cells (c ∷ b) (suc i) n = cells b i n

  unfoldable pub overwrite : Block A → ℕ → Block A → Option (Block A)
  overwrite b zero [] = some b
  overwrite [] zero (x ∷ xs) = none
  overwrite (c ∷ b) zero (x ∷ xs) = do b' ← overwrite b zero xs; some (x ∷ b')
  overwrite [] (suc i) xs = none
  overwrite (c ∷ b) (suc i) xs = do b' ← overwrite b i xs; some (c ∷ b')

  -- `memcpy(b + i, xs, …)` of the values `xs`
  unfoldable pub memcpy : Block A → ℕ → List A → Option (Block A)
  memcpy b i xs = overwrite b i (map some xs)

  -- `memmove(b + to, b + from, n * sizeof(*b))`
  unfoldable pub memmove : Block A → ℕ → ℕ → ℕ → Option (Block A)
  memmove b to from n = do cs ← cells b from n; overwrite b to cs
