-- ===== src/Str/Growth.antt =====
-- The sizes that `str_expect` grows a buffer to, and the invariant of a buffer.
use libbayeux.Prelude.{
  ℕ, ◌+◌, ◌*◌, ◌^◌, ◌≤◌, ◌<◌, ◌≡◌, refl, true, [], ◌∷◌, ◌++◌, some, arith, length, ltb,
  bit_and_align_2048, length-append, Bool-cases, inl, inr,
}
use libbayeux.Memory.{realloc}
use libbayeux.Memory.Laws.{Holds, length-realloc, Holds-realloc}
use libbayeux.Libc.{CString}
use libbayeux.Str.{Str, uint, grown, str_expect}

-- `grown need` holds a positive number of `need` bytes, and at most twice as many and 2047 more,
-- while nothing wraps.
pub grown_bounds :
    (need : ℕ)
    → 0 < need
    → need + 2047 < 2 ^ 32
    → (need ≤ grown need) × (grown need ≤ need * 2 + 2047) × (grown need < 2 ^ 32)
unfolding grown
grown_bounds need pos h = ground (arith, bit_and_align_2048 (uint (need + 2047)))

-- A buffer that holds a text: the bytes with their terminating 0, inside the capacity.
pub record IsText (s : Str) (text : CString) : Type 0 where
  pub size : length s.buf ≡ s.capacity
  pub word : s.capacity < 2 ^ 32
  pub count : s.len ≡ length text
  pub room : length text < s.capacity
  pub bytes : Holds (text ++ (0 ∷ [])) s.buf

-- A larger block holds the same text.
resized-IsText :
    (s : Str) (text : CString) (size : ℕ)
    → IsText s text
    → length text < size
    → size < 2 ^ 32
    → IsText (record s { capacity = size; buf = realloc s.buf size }) text
resized-IsText s text size v lt word = record {
  size = length-realloc s.buf size;
  word = word;
  count = v.count;
  room = lt;
  bytes =
      Holds-realloc (text ++ (0 ∷ [])) s.buf size v.bytes
        (omega (arith, length-append text (0 ∷ [])));
}

-- A size of `unsigned int` is below 2 ^ 32, also one that has wrapped.
grown-lt : (need : ℕ) → grown need < 2 ^ 32
unfolding grown
grown-lt need = ground (arith, bit_and_align_2048 (uint (need + 2047)))

-- A granted `str_expect` gives a block of its capacity, whatever has wrapped.
pub str_expect_sized :
    (s : Str) (n : ℕ)
    → length s.buf ≡ s.capacity
    → s.capacity < 2 ^ 32
    → (t : Str) × (str_expect true s n ≡ some t)
      × (t.len ≡ s.len)
      × (length t.buf ≡ t.capacity)
      × (t.capacity < 2 ^ 32)
unfolding str_expect
str_expect_sized s n size word = elim (Bool-cases (ltb (uint (s.len + n + 1)) s.capacity)) [
  | inl fits ↦ (s, rw fits, refl, size, word)
  | inr full ↦ (
    record s {
      capacity = grown (uint (s.len + n + 1));
      buf = realloc s.buf (grown (uint (s.len + n + 1)));
    },
    rw full,
    refl,
    length-realloc s.buf _,
    grown-lt _,
  )
]

-- On a well-formed buffer, a granted `str_expect` for `n` more bytes keeps the text and makes room
-- for them and the 0, while the sizes stay within `unsigned int`.
pub str_expect-IsText :
    (s : Str) (text : CString) (n : ℕ)
    → IsText s text
    → length text + n + 1 + 2047 < 2 ^ 32
    → (t : Str) × (str_expect true s n ≡ some t)
      × IsText t text
      × (length text + n < t.capacity)
      × (s.capacity ≤ t.capacity)
unfolding str_expect
str_expect-IsText s text n v h = elim (Bool-cases (ltb need s.capacity)) [
  | inl fits ↦ (s, rw fits, v, ground arith, omega arith)
  | inr full ↦ (
    record s { capacity = grown need; buf = realloc s.buf (grown need) },
    rw full,
    resized-IsText s text (grown need) v (omega (arith, bounds)) (omega (arith, bounds)),
    omega (arith, bounds),
    ground (arith, bounds),
  )
]
  where
    need : ℕ
    need = uint (s.len + n + 1)

    exact : need ≡ length text + n + 1
    exact = omega (arith, v.count)

    bounds : (need ≤ grown need) × (grown need ≤ need * 2 + 2047) × (grown need < 2 ^ 32)
    bounds = grown_bounds need (omega (arith, exact)) (omega (arith, exact))
