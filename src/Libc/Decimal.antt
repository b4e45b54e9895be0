-- ===== src/Libc/Decimal.antt =====
-- `snprintf`, and "%d" of an `int` that is not negative.
use libbayeux.Prelude.{
  ℕ, zero, suc, ◌+◌, ◌-◌, ◌*◌, ◌/◌, ◌%◌, ◌^◌, ◌<◌, ◌≤◌, ◌≡◌, refl, [], ◌∷◌, ◌++◌, arith, length,
  length-append, All, All-append, dec_lt, lt→ltb, le→ltb, take, take_all, ltb, if◌then◌else◌,
  Bool-cases, inl, inr,
}
use libbayeux.Libc.{CString}

-- The last `places` decimal digits of `n`, none in front of the first that counts.
unfoldable pub decimal_digits : ℕ → ℕ → CString
decimal_digits zero n = []
decimal_digits (suc places) n =
    let rest = decimal_digits places (n / 10) in
    if ltb n 10 then (b'0' + n) ∷ [] else rest ++ ((b'0' + n % 10) ∷ [])

-- An `int` has at most ten digits.
unfoldable pub print_int : ℕ → CString
unfolding decimal_digits
print_int n = decimal_digits 10 n

-- What `snprintf` leaves in a buffer of this size, without the 0.
unfoldable pub snprintf : ℕ → CString → CString
snprintf size text = take (size - 1) text

length-decimal_digits : (places n : ℕ) → length (decimal_digits places n) ≤ places
unfolding decimal_digits
length-decimal_digits zero n = omega arith
length-decimal_digits (suc places) n =
    let rest = decimal_digits places (n / 10) in
    elim (Bool-cases (ltb n 10)) [
      | inl one ↦ rw one (omega arith)
      | inr more ↦ rw more (
          omega (
            arith,
            length-append rest ((b'0' + n % 10) ∷ []),
            length-decimal_digits places (n / 10),
          ))
    ]

pub length-print_int : (n : ℕ) → length (print_int n) ≤ 10
unfolding print_int
length-print_int n = length-decimal_digits 10 n

pub snprintf_fits : (size : ℕ) (text : CString) → length text < size → snprintf size text ≡ text
unfolding snprintf
snprintf_fits size text lt = take_all (size - 1) text (omega arith)

-- the number that the digits of a text are, behind one that has been read
abbrev pub read_digits : ℕ → CString → ℕ
read_digits n [] = n
read_digits n (c ∷ text) = read_digits (n * 10 + (c - b'0')) text

-- the codes of the ten decimal digits
abbrev pub IsDigit : ℕ → Type 0
IsDigit c = (b'0' ≤ c) × (c ≤ b'9')

decimal_digits-IsDigit : (places n : ℕ) → All IsDigit (decimal_digits places n)
unfolding decimal_digits
decimal_digits-IsDigit zero n = tt
decimal_digits-IsDigit (suc places) n =
    let rest = decimal_digits places (n / 10) in
    elim (dec_lt n 10) [
      | yes one ↦ rw (lt→ltb n 10 one) ((omega arith, omega arith), tt)
      | no more ↦ rw (le→ltb n 10 (omega arith)) (
          All-append IsDigit rest ((b'0' + n % 10) ∷ []) (decimal_digits-IsDigit places (n / 10))
            ((omega arith, omega arith), tt))
    ]

pub print_int-IsDigit : (n : ℕ) → All IsDigit (print_int n)
unfolding print_int
print_int-IsDigit n = decimal_digits-IsDigit 10 n

read_digits-append :
    (n : ℕ) (text : CString) (c : ℕ)
    → read_digits n (text ++ (c ∷ [])) ≡ read_digits n text * 10 + (c - b'0')
read_digits-append n [] c = refl
read_digits-append n (d ∷ text) c = read_digits-append (n * 10 + (d - b'0')) text c

read_digits-decimal_digits :
    (places n : ℕ) → n < 10 ^ places → read_digits 0 (decimal_digits places n) ≡ n
unfolding decimal_digits
read_digits-decimal_digits zero n lt = omega arith
read_digits-decimal_digits (suc places) n lt =
    let rest = decimal_digits places (n / 10) in
    elim (Bool-cases (ltb n 10)) [
      | inl one ↦ rw one (omega arith)
      | inr more ↦ rw more (
          omega (
            arith,
            read_digits-append 0 rest (b'0' + n % 10),
            read_digits-decimal_digits places (n / 10) (omega arith),
          ))
    ]

pub read_digits-print_int : (n : ℕ) → n < 2 ^ 31 → read_digits 0 (print_int n) ≡ n
unfolding print_int
read_digits-print_int n lt = read_digits-decimal_digits 10 n (omega arith)
