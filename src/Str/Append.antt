-- ===== src/Str/Append.antt =====
-- The operations on a buffer, over the text that it holds.
use libbayeux.Prelude.{
  take_all, ℕ, ◌+◌, ◌-◌, ◌^◌, ◌≤◌, ◌<◌, ◌≡◌, refl, ◌∙◌, Bool, true, false, List, [], ◌∷◌, ◌++◌,
  Option, none, some, arith, length, length-append, ◌>>=◌, dec_lt, Option-cases, inl, inr, set,
  length-set,
}
use libbayeux.Memory.{store, memcpy, malloc}
use libbayeux.Memory.Laws.{
  Holds, length-malloc, memcpy-Holds, memcpy_outside, length-memcpy, Holds-prefix, Holds-set_end,
  store_inside, store_outside,
}
use libbayeux.Libc.{CString}
use libbayeux.Str.{Str, uint, str_expect, str_alloc, str_cat, str_clear, str_reserve}
use libbayeux.Str.Growth.{IsText, str_expect-IsText, str_expect_sized}

-- Writing the 0 behind the bytes of a buffer makes them its text.
terminate :
    (capacity : ℕ) (xs : CString) (buf : List (Option ℕ))
    → length buf ≡ capacity
    → capacity < 2 ^ 32
    → length xs < capacity
    → Holds xs buf
    → (buf' : List (Option ℕ)) × (store buf (length xs) 0 ≡ some buf')
      × IsText (record { capacity = capacity; len = length xs; buf = buf' }) xs
terminate capacity xs buf size word room h = (
  set buf (length xs) (some 0),
  store_inside buf (length xs) 0 (omega arith),
  record {
    size = length-set buf (length xs) (some 0) ∙ size;
    word = word;
    count = refl;
    room = room;
    bytes = Holds-set_end xs buf 0 h (omega arith);
  },
)

-- A fresh buffer, granted and of a size that does not wrap, holds the empty text.
pub str_alloc-IsText :
    (capacity : ℕ)
    → capacity + 1 < 2 ^ 32
    → (s : Str) × (str_alloc true capacity ≡ some s) × IsText s [] × (s.capacity ≡ capacity + 1)
unfolding str_alloc
str_alloc-IsText capacity h =
    let exact : uint (capacity + 1) ≡ capacity + 1 = omega arith in
    let fresh = length-malloc ℕ (uint (capacity + 1)) in
    let (buf, stored, v) =
      terminate (uint (capacity + 1)) [] (malloc (uint (capacity + 1))) fresh (omega arith)
        (omega arith) tt in
    (record { capacity = uint (capacity + 1); len = 0; buf = buf }, rw (stored, ◌>>=◌), v, exact)

-- The steps of `str_cat`, put together.
str_cat_steps :
    (s : Str) (src : CString) (t : Str) (buf buf' : List (Option ℕ))
    → length src < 2 ^ 32
    → t.len + length src < 2 ^ 32
    → str_expect true s (length src) ≡ some t
    → memcpy t.buf t.len src ≡ some buf
    → store buf (t.len + length src) 0 ≡ some buf'
    → str_cat true s src ≡ some (record t { len = t.len + length src; buf = buf' })
unfolding str_cat
str_cat_steps s src t buf buf' short fits grew copied stored =
    let exact : uint (length src) ≡ length src = omega arith in
    let sum : uint (t.len + length src) ≡ t.len + length src = omega arith in
    rw
      (
        exact,
        take_all (length src) src (omega arith),
        grew,
        ◌>>=◌,
        copied,
        ◌>>=◌,
        sum,
        stored,
        ◌>>=◌,
      )
      refl

-- `str_cat` appends to a well-formed buffer: it neither faults nor cuts while the sizes stay
-- within `unsigned int` and the allocator grants what is asked.
pub str_cat-append :
    (s : Str) (text src : CString)
    → IsText s text
    → length text + length src + 1 + 2047 < 2 ^ 32
    → (t : Str) × (str_cat true s src ≡ some t) × IsText t (text ++ src)
str_cat-append s text src v h =
    let (t, grew, vt, room, _) = str_expect-IsText s text (length src) v h in
    let (buf, copied, hold, len) =
      memcpy-Holds text src t.buf (Holds-prefix text (0 ∷ []) t.buf vt.bytes)
        (omega (arith, vt.size)) in
    let both = length-append text src in
    let (buf', stored, w) =
      terminate t.capacity (text ++ src) buf (len ∙ vt.size) vt.word (omega (arith, both)) hold in
    let at : t.len + length src ≡ length (text ++ src) = omega (arith, both, vt.count) in
    (
      record t { len = t.len + length src; buf = buf' },
      str_cat_steps s src t buf buf' (omega arith) (omega (arith, vt.count)) grew
          (rw vt.count copied) (rw at stored),
      rw (← at) at w,
    )

-- `str_clear` leaves the empty text in the same well-formed buffer.
pub str_clear-IsText :
    (s : Str) (text : CString)
    → IsText s text
    → (t : Str) × (str_clear s ≡ some t) × IsText t [] × (t.capacity ≡ s.capacity)
unfolding str_clear
str_clear-IsText s text v =
    let (buf, stored, w) = terminate s.capacity [] s.buf v.size v.word (omega (arith, v.room)) tt in
    (record s { len = 0; buf = buf }, rw (stored, ◌>>=◌), w, refl)

-- An append that needs a bigger block, of a size that does not wrap, writes through a null header
-- if the allocator denies it.
pub str_cat_denied :
    (s : Str) (text src : CString)
    → IsText s text
    → length text + length src + 1 < 2 ^ 32
    → s.capacity ≤ length text + length src + 1
    → str_cat false s src ≡ none
unfolding str_cat str_expect
str_cat_denied s text src v fits full = ground (arith, v.count)

str_cat_outside :
    (s : Str) (src : CString) (t : Str)
    → length src < 2 ^ 32
    → str_expect true s (length src) ≡ some t
    → length t.buf < 2 ^ 32
    → t.len < 2 ^ 32
    → 2 ^ 32 ≤ t.len + length src + 1
    → str_cat true s src ≡ none
unfolding str_cat
str_cat_outside s src t short grew word inside wraps =
    let exact : uint (length src) ≡ length src = omega arith in
    rw (exact, take_all (length src) src (omega arith), grew, ◌>>=◌)
      (elim (Option-cases (memcpy t.buf t.len src)) [
        | inl fault ↦ rw (fault, ◌>>=◌)
        | inr (buf, copied) ↦
            let same = length-memcpy t.buf t.len src buf copied in
            elim (dec_lt (length t.buf) (t.len + length src)) [
              | yes past ↦ cc (memcpy_outside t.buf t.len src past)
              | no full ↦
                  rw (copied, ◌>>=◌, store_outside buf (uint (t.len + length src)) 0 (omega arith))
                    refl
            ]
      ])

-- A text of 2 ^ 32 bytes or more, with its 0, cannot be put together from a well-formed buffer and
-- a shorter text: the size wraps, no block is big enough, and the copy or the 0 goes past the end,
-- even if the allocator grants every request.
pub str_cat_overflow :
    (s : Str) (text src : CString)
    → IsText s text
    → length src < 2 ^ 32
    → 2 ^ 32 ≤ length text + length src + 1
    → str_cat true s src ≡ none
str_cat_overflow s text src v short wraps =
    let (t, grew, len, size, word) = str_expect_sized s (length src) v.size v.word in
    str_cat_outside s src t short grew (omega (arith, size, word))
      (omega (arith, len, v.count, v.room, v.word)) (omega (arith, len, v.count))

-- `str_reserve` asks for room behind the text, not for a capacity: while the bytes in use leave
-- that much free it does nothing, and the capacity stays below the one that was asked for.
pub str_reserve_short :
    (s : Str) (text : CString) (capacity : ℕ) (granted : Bool)
    → IsText s text
    → s.capacity < capacity
    → capacity < 2 ^ 32
    → length text + (capacity - s.capacity) + 1 < s.capacity
    → str_reserve granted s capacity ≡ some s
unfolding str_reserve str_expect
str_reserve_short s text capacity granted v short word free = ground (arith, v.count)
