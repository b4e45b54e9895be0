-- ===== src/Memory/Laws.antt =====
-- What an array holds after each access, over the values at its front.
use libbayeux.Prelude.{
  ℕ, zero, suc, ◌+◌, ◌-◌, ◌≤◌, ◌<◌, min, ◌≡◌, refl, ap, List, [], ◌∷◌, ◌++◌, map, Option, none,
  some, arith, length, length-append, length-replicate, get_elem?, set, take, replicate, erase_idx,
  ◌>>=◌, Option-cases, >>=-eq-some, inl, inr,
}
use libbayeux.Memory.{Block, malloc, realloc, load, store, cells, overwrite, memcpy, memmove}

module _ {ℓ} {A : Type ℓ} where
  -- The array begins with these values.
  abbrev pub Holds : List A → Block A → Type ℓ
  Holds [] b = Unit
  Holds (x ∷ xs) [] = Unit {ℓ} × ⊥
  Holds (x ∷ xs) (c ∷ b) = (c ≡ some x) × Holds xs b

  pub Holds-length : (xs : List A) (b : Block A) → Holds xs b → length xs ≤ length b
  Holds-length [] b h = omega arith
  Holds-length (x ∷ xs) [] h = absurd h.1
  Holds-length (x ∷ xs) (c ∷ b) h = omega (arith, Holds-length xs b h.1)

  pub load-Holds :
      (xs : List A) (b : Block A) (i : ℕ) → Holds xs b → i < length xs → load b i ≡ get_elem? xs i
  unfolding load
  load-Holds [] b i h lt = absurd (omega arith)
  load-Holds (x ∷ xs) [] i h lt = absurd h.1
  load-Holds (x ∷ xs) (c ∷ b) zero h lt = h.0
  load-Holds (x ∷ xs) (c ∷ b) (suc i) h lt = load-Holds xs b i h.1 (omega arith)

  pub store_inside :
      (b : Block A) (i : ℕ) (v : A) → i < length b → store b i v ≡ some (set b i (some v))
  unfolding store
  store_inside [] i v lt = absurd (omega arith)
  store_inside (c ∷ b) zero v lt = refl
  store_inside (c ∷ b) (suc i) v lt = cc (store_inside b i v (omega arith))

  pub store_outside : (b : Block A) (i : ℕ) (v : A) → length b ≤ i → store b i v ≡ none
  unfolding store
  store_outside [] i v le = refl
  store_outside (c ∷ b) zero v le = absurd (omega arith)
  store_outside (c ∷ b) (suc i) v le = rw (store_outside b i v (omega arith), ◌>>=◌)

  pub Holds-set_end :
      (xs : List A) (b : Block A) (v : A)
      → Holds xs b
      → length xs < length b
      → Holds (xs ++ (v ∷ [])) (set b (length xs) (some v))
  Holds-set_end [] [] v h lt = absurd (omega arith)
  Holds-set_end [] (c ∷ b) v h lt = (refl, tt)
  Holds-set_end (x ∷ xs) [] v h lt = absurd h.1
  Holds-set_end (x ∷ xs) (c ∷ b) v h lt = (h.0, Holds-set_end xs b v h.1 (omega arith))

  pub Holds-set :
      (xs : List A) (b : Block A) (i : ℕ) (v : A)
      → Holds xs b
      → i < length xs
      → Holds (set xs i v) (set b i (some v))
  Holds-set [] b i v h lt = absurd (omega arith)
  Holds-set (x ∷ xs) [] i v h lt = absurd h.1
  Holds-set (x ∷ xs) (c ∷ b) zero v h lt = (refl, h.1)
  Holds-set (x ∷ xs) (c ∷ b) (suc i) v h lt = (h.0, Holds-set xs b i v h.1 (omega arith))

  pub Holds-prefix : (xs ys : List A) (b : Block A) → Holds (xs ++ ys) b → Holds xs b
  Holds-prefix [] ys b h = tt
  Holds-prefix (x ∷ xs) ys [] h = absurd h.1
  Holds-prefix (x ∷ xs) ys (c ∷ b) h = (h.0, Holds-prefix xs ys b h.1)

  length-take : (n : ℕ) (b : Block A) → length (take n b) ≡ min n (length b)
  length-take zero b = omega arith
  length-take (suc n) [] = omega arith
  length-take (suc n) (c ∷ b) = omega (arith, length-take n b)

  pub length-realloc : (b : Block A) (n : ℕ) → length (realloc b n) ≡ n
  unfolding realloc
  length-realloc b n =
      let fresh : Option A = none in
      omega (
        arith,
        length-append (take n b) (replicate (n - length b) none),
        length-replicate (n - length b) fresh,
        length-take n b,
      )

  Holds-take :
      (xs : List A) (b rest : Block A) (n : ℕ)
      → Holds xs b
      → length xs ≤ n
      → Holds xs (take n b ++ rest)
  Holds-take [] b rest n h le = tt
  Holds-take (x ∷ xs) [] rest n h le = absurd h.1
  Holds-take (x ∷ xs) (c ∷ b) rest zero h le = absurd (omega arith)
  Holds-take (x ∷ xs) (c ∷ b) rest (suc n) h le = (h.0, Holds-take xs b rest n h.1 (omega arith))

  pub Holds-realloc :
      (xs : List A) (b : Block A) (n : ℕ) → Holds xs b → length xs ≤ n → Holds xs (realloc b n)
  unfolding realloc
  Holds-realloc xs b n h le = Holds-take xs b _ n h le

  cells-Holds :
      (xs : List A) (b : Block A) → Holds xs b → cells b 0 (length xs) ≡ some (map some xs)
  unfolding cells
  cells-Holds [] b h = refl
  cells-Holds (x ∷ xs) [] h = absurd h.1
  cells-Holds (x ∷ xs) (c ∷ b) h = cc (cells-Holds xs b h.1, h.0)

  -- Copying values to the place behind the held ones holds both.
  pub memcpy-Holds :
      (xs ys : List A) (b : Block A)
      → Holds xs b
      → length xs + length ys ≤ length b
      → (b' : Block A) × (memcpy b (length xs) ys ≡ some b')
        × Holds (xs ++ ys) b'
        × (length b' ≡ length b)
  unfolding memcpy overwrite
  memcpy-Holds [] [] b h le = (b, refl, tt, refl)
  memcpy-Holds [] (y ∷ ys) [] h le = absurd (omega arith)
  memcpy-Holds [] (y ∷ ys) (c ∷ b) h le =
      let (b', e, hold, len) = memcpy-Holds [] ys b tt (omega arith) in
      (some y ∷ b', cc e, (refl, hold), ap suc len)
  memcpy-Holds (x ∷ xs) ys [] h le = absurd h.1
  memcpy-Holds (x ∷ xs) ys (c ∷ b) h le =
      let (b', e, hold, len) = memcpy-Holds xs ys b h.1 (omega arith) in
      (c ∷ b', cc e, (h.0, hold), ap suc len)

  -- Past the end it is undefined behaviour.
  pub memcpy_outside :
      (b : Block A) (i : ℕ) (ys : List A) → length b < i + length ys → memcpy b i ys ≡ none
  unfolding memcpy overwrite
  memcpy_outside [] zero [] lt = absurd (omega arith)
  memcpy_outside [] zero (y ∷ ys) lt = refl
  memcpy_outside (c ∷ b) zero [] lt = absurd (omega arith)
  memcpy_outside (c ∷ b) zero (y ∷ ys) lt = rw (memcpy_outside b zero ys (omega arith), ◌>>=◌)
  memcpy_outside [] (suc i) ys lt = refl
  memcpy_outside (c ∷ b) (suc i) ys lt = rw (memcpy_outside b i ys (omega arith), ◌>>=◌)

  pub length-memcpy :
      (b : Block A) (i : ℕ) (ys : List A) (b' : Block A)
      → memcpy b i ys ≡ some b'
      → length b' ≡ length b
  unfolding memcpy overwrite
  length-memcpy [] zero [] b' e = ground arith
  length-memcpy (c ∷ b) zero [] b' e = ground arith
  length-memcpy [] zero (y ∷ ys) b' e = cc
  length-memcpy (c ∷ b) zero (y ∷ ys) b' e =
      let (m, copied, same) = >>=-eq-some (memcpy b zero ys) _ e in
      ground (arith, length-memcpy b zero ys m copied)
  length-memcpy [] (suc i) ys b' e = cc
  length-memcpy (c ∷ b) (suc i) ys b' e =
      let (m, copied, same) = >>=-eq-some (memcpy b i ys) _ e in
      ground (arith, length-memcpy b i ys m copied)

  memmove_cons :
      (c : Option A) (b : Block A) (to from n : ℕ)
      → memmove (c ∷ b) (suc to) (suc from) n ≡ (memmove b to from n >>= λ b'. some (c ∷ b'))
  unfolding memmove cells overwrite
  memmove_cons c b to from n = elim (Option-cases (cells b from n)) [
    | inl e ↦ rw (e, ◌>>=◌)
    | inr (cs, e) ↦ rw (e, ◌>>=◌) refl
  ]

  memmove_front :
      (c : Option A) (b : Block A) (xs : List A) (n : ℕ) {b' : Block A}
      → Holds xs b
      → length xs ≡ n
      → memcpy (c ∷ b) 0 xs ≡ some b'
      → memmove (c ∷ b) 0 1 n ≡ some b'
  unfolding memmove memcpy cells
  memmove_front c b xs n h e wrote = rw (← e, cells-Holds xs b h) wrote

  -- Moving the values behind index `i` down by one takes that value out.
  pub memmove-Holds :
      (xs : List A) (b : Block A) (i n : ℕ)
      → Holds xs b
      → i + 1 + n ≡ length xs
      → (b' : Block A) × (memmove b i (suc i) n ≡ some b')
        × Holds (erase_idx xs i) b'
        × (length b' ≡ length b)
  memmove-Holds [] b i n h e = absurd (omega arith)
  memmove-Holds (x ∷ xs) [] i n h e = absurd h.1
  memmove-Holds (x ∷ xs) (c ∷ b) zero n h e =
      let m : length xs ≡ n = omega arith in
      let fits = Holds-length xs b h.1 in
      let (b', wrote, hold, len) = memcpy-Holds [] xs (c ∷ b) tt (omega arith) in
      (b', memmove_front c b xs n h.1 m wrote, hold, len)
  memmove-Holds (x ∷ xs) (c ∷ b) (suc i) n h e =
      let (b', moved, hold, len) = memmove-Holds xs b i n h.1 (omega arith) in
      (c ∷ b', rw (memmove_cons c b i (suc i) n, moved, ◌>>=◌) refl, (h.0, hold), ap suc len)

pub length-malloc {ℓ} : (A : Type ℓ) (n : ℕ) → length (malloc {A = A} n) ≡ n
unfolding malloc
length-malloc A n = length-replicate n none

module _ {A : Type 0} where
  pub load-set : (b : Block A) (p : ℕ) (v : Option A) → p < length b → load (set b p v) p ≡ v
  unfolding load
  load-set [] p v lt = absurd (omega arith)
  load-set (c ∷ b) zero v lt = refl
  load-set (c ∷ b) (suc p) v lt = load-set b p v (omega arith)
