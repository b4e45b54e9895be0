-- ===== src/Libc.antt =====
-- The functions of the C library on strings that the program calls: `strcmp`, `snprintf` with "%x",
-- and `strtoul` with base 16. A C string is the list of its bytes, without the terminating 0.
pub mod Hex
pub mod Decimal
use Prim.Native.Char.{code}
use Prim.Native.String.{String}
use libbayeux.Prelude.{
  ℕ, zero, suc, ◌+◌, ◌-◌, ◌*◌, ◌/◌, ◌%◌, ◌^◌, ◌≡◌, refl, ◌↔◌, Bool, true, false, ◌&&◌, ◌||◌, List,
  [], ◌∷◌, ◌++◌, Option, none, some, arith, take, ltb, leb, ◌==◌, if◌then◌else◌, ==_iff,
}

abbrev pub CString : Type 0
CString = List ℕ

-- A string literal.
abbrev pub codes : String → CString
codes String.[] = []
codes (String.◌∷◌ c s) = code c ∷ codes s

-- `!strcmp(s, t)`
unfoldable pub str_eq : CString → CString → Bool
str_eq [] [] = true
str_eq [] (d ∷ t) = false
str_eq (c ∷ s) [] = false
str_eq (c ∷ s) (d ∷ t) = c == d && str_eq s t

pub str_eq_iff : (s t : CString) → (str_eq s t ≡ true) ↔ (s ≡ t)
unfolding str_eq
str_eq_iff [] [] = (λ _. refl, λ _. refl)
str_eq_iff [] (d ∷ t) = (λ e. cc, λ e. cc)
str_eq_iff (c ∷ s) [] = (λ e. cc, λ e. cc)
str_eq_iff (c ∷ s) (d ∷ t) =
    (λ e. ground (arith, str_eq_iff s t), λ e. ground (arith, str_eq_iff s t))

pub str_eq_refl : (s : CString) → str_eq s s ≡ true
str_eq_refl s = (str_eq_iff s s).1 refl

-- a digit of "%x"
unfoldable pub hex_digit : ℕ → ℕ
hex_digit d = if ltb d 10 then b'0' + d else b'a' + (d - 10)

-- The last `places` hexadecimal digits of `n`, none in front of the first that counts.
unfoldable pub hex_digits : ℕ → ℕ → CString
hex_digits zero n = []
hex_digits (suc places) n =
    let rest = hex_digits places (n / 16) in
    if ltb n 16 then hex_digit n ∷ [] else rest ++ (hex_digit (n % 16) ∷ [])

-- `snprintf(buf, 9, "%x", n)` of a `uint32_t`: at most eight digits, and the 0.
unfoldable pub print_hex : ℕ → CString
print_hex n = take 8 (hex_digits 8 n)

unfoldable pub hex_value : ℕ → Option ℕ
hex_value c =
    if leb b'0' c && leb c b'9'
    then some (c - b'0')
    else if leb b'a' c && leb c b'f'
    then some (c - b'a' + 10)
    else if leb b'A' c && leb c b'F'
    then some (c - b'A' + 10)
    else none

-- The number that the digits at the front spell behind `acc`.
unfoldable pub scan_hex : ℕ → CString → ℕ
scan_hex acc [] = acc
scan_hex acc (c ∷ s) = elim (hex_value c) [ none ↦ acc | some v ↦ scan_hex (acc * 16 + v) s ]

unfoldable pub is_space : ℕ → Bool
is_space c = c == b' ' || (leb 9 c && leb c 13)

unfoldable pub skip_space : CString → CString
skip_space [] = []
skip_space (c ∷ s) = if is_space c then skip_space s else c ∷ s

unfoldable pub is_hex : ℕ → Bool
unfolding hex_value
is_hex c = elim (hex_value c) [ none ↦ false | some v ↦ true ]

-- "0x" counts as a prefix only in front of a digit.
unfoldable pub skip_prefix : CString → CString
skip_prefix (z ∷ x ∷ d ∷ s) =
    if z == b'0' && (x == b'x' || x == b'X') && is_hex d then d ∷ s else z ∷ x ∷ d ∷ s
skip_prefix s = s

-- A value past ULONG_MAX gives ULONG_MAX, with either sign.
unfoldable pub negate : ℕ → ℕ
negate n = if ltb n (2 ^ 64) then (2 ^ 64 - n) % 2 ^ 64 else 2 ^ 64 - 1

unfoldable pub saturate : ℕ → ℕ
saturate n = if ltb n (2 ^ 64) then n else 2 ^ 64 - 1

unfoldable pub signed_hex : CString → ℕ
signed_hex [] = 0
signed_hex (c ∷ s) =
    if c == b'-'
    then negate (scan_hex 0 (skip_prefix s))
    else saturate (scan_hex 0 (skip_prefix (if c == b'+' then s else c ∷ s)))

-- `strtoul(s, NULL, 16)` with a 64-bit `unsigned long`
unfoldable pub strtoul_hex : CString → ℕ
strtoul_hex s = signed_hex (skip_space s)
