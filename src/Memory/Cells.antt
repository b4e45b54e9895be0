-- ===== src/Memory/Cells.antt =====
-- Which cells of an array are written, whatever they hold.
use libbayeux.Prelude.{
  ℕ, zero, suc, ◌+◌, ◌<◌, ◌≤◌, ◌≡◌, refl, ◌∙◌, List, [], ◌∷◌, ◌++◌, some, arith, length, take, set,
  get_elem?-lt-length, >>=-eq-some,
}
use libbayeux.Memory.{Block, load, store, realloc, cells, overwrite, memmove}
use libbayeux.Memory.Laws.{Holds, load-Holds}

module _ {ℓ} {A : Type ℓ} where
  -- The cell can be read.
  abbrev pub IsCell : Block A → ℕ → Type ℓ
  IsCell b i = (a : A) × (load b i ≡ some a)

  pub cell-lt-length : (b : Block A) (i : ℕ) → IsCell b i → i < length b
  unfolding load
  cell-lt-length [] i (a, e) = cc
  cell-lt-length (c ∷ b) zero (a, e) = omega arith
  cell-lt-length (c ∷ b) (suc i) (a, e) = omega (arith, cell-lt-length b i (a, e))

  -- A write leaves every cell written that was.
  pub store-IsCell :
      (b : Block A) (k : ℕ) (v : A) (b' : Block A) (i : ℕ)
      → store b k v ≡ some b'
      → IsCell b i
      → IsCell b' i
  unfolding load store
  store-IsCell [] k v b' i e c = cc
  store-IsCell (x ∷ b) zero v b' zero e c = (v, ground arith)
  store-IsCell (x ∷ b) zero v b' (suc i) e (a, r) = (a, ground arith)
  store-IsCell (x ∷ b) (suc k) v b' zero e (a, r) =
      let (b1, stored, same) = >>=-eq-some (store b k v) _ e in (a, ground arith)
  store-IsCell (x ∷ b) (suc k) v b' (suc i) e c =
      let (b1, stored, same) = >>=-eq-some (store b k v) _ e in
      let (a, r) = store-IsCell b k v b1 i stored c in (a, ground arith)

  pub stored-IsCell :
      (b : Block A) (k : ℕ) (v : A) (b' : Block A) → store b k v ≡ some b' → IsCell b' k
  unfolding load store
  stored-IsCell [] k v b' e = cc
  stored-IsCell (x ∷ b) zero v b' e = (v, ground arith)
  stored-IsCell (x ∷ b) (suc k) v b' e =
      let (b1, stored, same) = >>=-eq-some (store b k v) _ e in
      let (a, r) = stored-IsCell b k v b1 stored in (a, ground arith)

  take-IsCell : (b rest : Block A) (n i : ℕ) → i < n → IsCell b i → IsCell (take n b ++ rest) i
  unfolding load
  take-IsCell [] rest n i lt (a, r) = cc
  take-IsCell (c ∷ b) rest zero i lt v = absurd (omega arith)
  take-IsCell (c ∷ b) rest (suc n) zero lt v = v
  take-IsCell (c ∷ b) rest (suc n) (suc i) lt v = take-IsCell b rest n i (omega arith) v

  -- A block keeps its written cells where it does not become shorter.
  pub realloc-IsCell : (b : Block A) (n i : ℕ) → i < n → IsCell b i → IsCell (realloc b n) i
  unfolding realloc
  realloc-IsCell b n i lt c = take-IsCell b _ n i lt c

  -- What `overwrite` does not reach stays.
  overwrite_behind :
      (b : Block A) (k : ℕ) (cs b' : Block A) (i : ℕ)
      → overwrite b k cs ≡ some b'
      → k + length cs ≤ i
      → load b' i ≡ load b i
  unfolding load overwrite
  overwrite_behind [] zero [] b' i e le = ground arith
  overwrite_behind (c ∷ b) zero [] b' i e le = ground arith
  overwrite_behind [] zero (x ∷ xs) b' i e le = cc
  overwrite_behind [] (suc k) cs b' i e le = cc
  overwrite_behind (c ∷ b) zero (x ∷ xs) b' zero e le = absurd (omega arith)
  overwrite_behind (c ∷ b) zero (x ∷ xs) b' (suc i) e le =
      let (b1, wrote, same) = >>=-eq-some (overwrite b zero xs) _ e in
      ground (arith, overwrite_behind b zero xs b1 i wrote (omega arith))
  overwrite_behind (c ∷ b) (suc k) cs b' zero e le = absurd (omega arith)
  overwrite_behind (c ∷ b) (suc k) cs b' (suc i) e le =
      let (b1, wrote, same) = >>=-eq-some (overwrite b k cs) _ e in
      ground (arith, overwrite_behind b k cs b1 i wrote (omega arith))

  length-cells : (b : Block A) (i n : ℕ) (cs : Block A) → cells b i n ≡ some cs → length cs ≡ n
  unfolding cells
  length-cells [] zero zero cs e = ground arith
  length-cells (c ∷ b) zero zero cs e = ground arith
  length-cells [] zero (suc n) cs e = cc
  length-cells (c ∷ b) zero (suc n) cs e =
      let (ds, read, same) = >>=-eq-some (cells b zero n) _ e in
      ground (arith, length-cells b zero n ds read)
  length-cells [] (suc i) zero cs e = cc
  length-cells [] (suc i) (suc n) cs e = cc
  length-cells (c ∷ b) (suc i) zero cs e = length-cells b i zero cs e
  length-cells (c ∷ b) (suc i) (suc n) cs e = length-cells b i (suc n) cs e

  pub memmove_behind :
      (b : Block A) (to from n : ℕ) (b' : Block A) (i : ℕ)
      → memmove b to from n ≡ some b'
      → to + n ≤ i
      → load b' i ≡ load b i
  unfolding memmove
  memmove_behind b to from n b' i e le =
      let (cs, read, wrote) = >>=-eq-some (cells b from n) _ e in
      overwrite_behind b to cs b' i wrote (omega (arith, length-cells b from n cs read))

  -- A held value can be read.
  pub Holds-IsCell : (xs : List A) (b : Block A) (i : ℕ) → Holds xs b → i < length xs → IsCell b i
  Holds-IsCell xs b i h lt =
      let (a, at) = get_elem?-lt-length xs i lt in (a, load-Holds xs b i h lt ∙ at)

  -- A write at any index, seen by the held values.
  pub Holds-set_any :
      (xs : List A) (b : Block A) (i : ℕ) (v : A)
      → Holds xs b
      → Holds (set xs i v) (set b i (some v))
  Holds-set_any [] b i v h = tt
  Holds-set_any (x ∷ xs) [] i v h = absurd h.1
  Holds-set_any (x ∷ xs) (c ∷ b) zero v h = (refl, h.1)
  Holds-set_any (x ∷ xs) (c ∷ b) (suc i) v h = (h.0, Holds-set_any xs b i v h.1)
