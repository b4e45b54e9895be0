-- ===== src/Str.antt =====
-- src/str.c: the growable string buffer that a batch of messages is put together in.
--
-- A `Str` is the block behind the pointer: the header's `capacity` and `len` and the bytes of `buf`.
-- `unsigned int` wraps at 2 ^ 32. Each call that allocates takes whether the allocator grants it;
-- `none` is undefined behaviour, such as a write through the null header of a failed `realloc`.
-- A C string is the list of its bytes, without the terminating 0. `str_free` only releases the block.
pub mod Growth
pub mod Append
use libbayeux.Prelude.{
  ℕ, ◌+◌, ◌-◌, ◌*◌, ◌%◌, ◌^◌, bit_and, Bool, List, Option, none, some, length, take, ltb,
  if◌then◌else◌, ◌>>=◌,
}
use libbayeux.Libc.{CString}
use libbayeux.Memory.{Block, malloc, realloc, store, memcpy}

-- `StrHdr`
pub record Str : Type 0 where
  pub capacity : ℕ
  pub len : ℕ
  pub buf : Block ℕ

-- a value converted to `unsigned int`
abbrev pub uint : ℕ → ℕ
uint n = n % 2 ^ 32

-- the size that `str_expect` asks `realloc` for
unfoldable pub grown : ℕ → ℕ
grown need =
    if ltb need 2048 then uint (need * 2) else bit_and (uint (need + 2047)) (2 ^ 32 - 1 - 2047)

unfoldable pub str_expect : Bool → Str → ℕ → Option Str
str_expect granted s len =
    let need = uint (s.len + len + 1) in
    if ltb need s.capacity
    then some s
    else if granted
    then some (record s { capacity = grown need; buf = realloc s.buf (grown need) })
    else none

-- Where `malloc` fails the result is computed from a null header: no buffer, and not null either.
unfoldable pub str_alloc : Bool → ℕ → Option Str
str_alloc granted capacity =
    let size = uint (capacity + 1) in
    if granted
    then (store (malloc size) 0 0 >>= λ buf. some (record { capacity = size; len = 0; buf = buf }))
    else none

-- The test `if (s)` always passes: `str_expect` returns the address of a field.
unfoldable pub str_cat : Bool → Str → CString → Option Str
str_cat granted s src = do
  let src_len = uint (length src)
  t ← str_expect granted s src_len
  buf ← memcpy t.buf t.len (take src_len src)
  let len = uint (t.len + src_len)
  buf' ← store buf len 0
  some (record t { len = len; buf = buf' })

unfoldable pub str_clear : Str → Option Str
str_clear s = do buf ← store s.buf 0 0; some (record s { len = 0; buf = buf })

unfoldable pub str_len : Str → ℕ
str_len s = s.len

-- `capacity` is a `size_t`, and the difference is converted to `unsigned int`.
unfoldable pub str_reserve : Bool → Str → ℕ → Option Str
str_reserve granted s capacity =
    if ltb s.capacity capacity then str_expect granted s (uint (capacity - s.capacity)) else some s
