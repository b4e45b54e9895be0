-- ===== src/Tests/Buffer.antt =====
-- The string buffer and the numbers written into it.
use libbayeux.Prelude.{
  ℕ, ◌-◌, ◌^◌, ◌≡◌, refl, true, [], ◌∷◌, none, some, arith, length, replicate, length-replicate,
}
use libbayeux.Libc.{CString, codes}
use libbayeux.Memory.{memcpy, overwrite, store}
use libbayeux.Str.{Str, str_expect, str_cat}
use libbayeux.Str.Growth.{IsText}
use libbayeux.Str.Append.{str_cat-append, str_cat_overflow}
use libbayeux.Tests.Base.{buffer, buffer-IsText}

str_cat_run :
    str_cat true buffer (codes "cd")
    ≡ some (record buffer {
      len = 4;
      buf = some 97 ∷ some 98 ∷ some 99 ∷ some 100 ∷ some 0 ∷ none ∷ none ∷ none ∷ [];
    })
unfolding str_cat str_expect memcpy overwrite store
str_cat_run = refl

str_cat-append_example :
    (t : Str) × (str_cat true buffer (codes "cdefgh") ≡ some t) × IsText t (codes "abcdefgh")
str_cat-append_example =
    str_cat-append buffer (codes "ab") (codes "cdefgh") buffer-IsText (omega arith)

-- a text that is too long to be appended to two bytes
unfoldable long : ℕ → CString
long n = replicate n 97

length-long : (n : ℕ) → length (long n) ≡ n
unfolding long
length-long n = length-replicate n 97

str_cat_overflow_example : str_cat true buffer (long (2 ^ 32 - 3)) ≡ none
str_cat_overflow_example =
    str_cat_overflow buffer (codes "ab") (long (2 ^ 32 - 3)) buffer-IsText
      (omega (arith, length-long (2 ^ 32 - 3))) (omega (arith, length-long (2 ^ 32 - 3)))
