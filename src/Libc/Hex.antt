-- ===== src/Libc/Hex.antt =====
-- "%x" and `strtoul`, one after the other.
use libbayeux.Prelude.{
  take_all, ℕ, zero, suc, ◌+◌, ◌*◌, ◌/◌, ◌%◌, ◌^◌, ◌<◌, ◌≤◌, ◌≡◌, refl, ap, sym, append-nil, ◌∙◌,
  false, [], ◌∷◌, ◌++◌, some, arith, length, length-append, lt→ltb, le→ltb, dec_lt, ◌==◌,
  append_assoc, All,
}
use native.Mathlib.Nat.{pow-suc}
use libbayeux.Libc.{
  CString, hex_digit, hex_digits, print_hex, hex_value, scan_hex, is_space, skip_space, skip_prefix,
  saturate, signed_hex, strtoul_hex,
}

hex_value-hex_digit : (d : ℕ) → d < 16 → hex_value (hex_digit d) ≡ some d
unfolding hex_value hex_digit
hex_value-hex_digit d h = ground arith

scan_hex-digit :
    (acc d : ℕ) (s : CString) → d < 16 → scan_hex acc (hex_digit d ∷ s) ≡ scan_hex (acc * 16 + d) s
unfolding scan_hex
scan_hex-digit acc d s h = rw (hex_value-hex_digit d h, scan_hex)

scan_hex_first : (n : ℕ) (s : CString) → n < 16 → scan_hex 0 (hex_digit n ∷ s) ≡ scan_hex n s
scan_hex_first n s h = scan_hex-digit 0 n s h ∙ ap (λ m. scan_hex m s) (omega arith)

hex_digits_small : (places n : ℕ) → n < 16 → hex_digits (suc places) n ≡ hex_digit n ∷ []
unfolding hex_digits
hex_digits_small places n h = rw (lt→ltb n 16 h)

hex_digits_large :
    (places n : ℕ)
    → 16 ≤ n
    → hex_digits (suc places) n ≡ hex_digits places (n / 16) ++ (hex_digit (n % 16) ∷ [])
unfolding hex_digits
hex_digits_large places n h = rw (le→ltb n 16 h)

-- At the places left over, the digits that are printed spell the number.
scan_hex-hex_digits :
    (places n : ℕ) (s : CString)
    → n < 16 ^ suc places
    → scan_hex 0 (hex_digits (suc places) n ++ s) ≡ scan_hex n s
scan_hex-hex_digits zero n s h =
    rw (hex_digits_small zero n (omega arith)) (scan_hex_first n s (omega arith))
scan_hex-hex_digits (suc places) n s h = elim (dec_lt n 16) [
  | yes small ↦ rw (hex_digits_small (suc places) n small) (scan_hex_first n s small)
  | no large ↦
      rw
        (
          hex_digits_large (suc places) n (omega arith),
          append_assoc (hex_digits (suc places) (n / 16)) (hex_digit (n % 16) ∷ []) s,
          scan_hex-hex_digits places (n / 16) (hex_digit (n % 16) ∷ s)
              (omega (arith, pow-suc 16 (suc places))),
          scan_hex-digit (n / 16) (n % 16) s (omega arith),
        )
        (ap (λ m. scan_hex m s) (omega arith))
]

-- a character that "%x" prints
abbrev IsDigit : ℕ → Type 0
IsDigit c = (d : ℕ) × (d < 16) × (c ≡ hex_digit d)

All-append_end : (xs : CString) (c : ℕ) → All IsDigit xs → IsDigit c → All IsDigit (xs ++ (c ∷ []))
All-append_end [] c h d = (d, tt)
All-append_end (x ∷ xs) c h d = (h.0, All-append_end xs c h.1 d)

hex_digits-IsDigit : (places n : ℕ) → All IsDigit (hex_digits places n)
unfolding hex_digits
hex_digits-IsDigit zero n = tt
hex_digits-IsDigit (suc places) n = elim (dec_lt n 16) [
  | yes small ↦ rw (lt→ltb n 16 small) ((n, small, refl), tt)
  | no large ↦ rw (le→ltb n 16 (omega arith)) (
      All-append_end (hex_digits places (n / 16)) (hex_digit (n % 16))
        (hex_digits-IsDigit places (n / 16)) (n % 16, omega arith, refl))
]

length-hex_digits : (places n : ℕ) → length (hex_digits places n) ≤ places
unfolding hex_digits
length-hex_digits zero n = omega arith
length-hex_digits (suc places) n = ground (
  arith,
  length-hex_digits places (n / 16),
  length-append (hex_digits places (n / 16)) (hex_digit (n % 16) ∷ []),
)

record IsPlain (c : ℕ) : Type 0 where
  no_space : is_space c ≡ false
  no_minus : (c == b'-') ≡ false
  no_plus : (c == b'+') ≡ false
  no_x : (c == b'x') ≡ false
  no_X : (c == b'X') ≡ false

digit-IsPlain : (c : ℕ) → IsDigit c → IsPlain c
unfolding is_space hex_digit
digit-IsPlain c (d, h, e) = ground arith

skip_prefix-digits : (s : CString) → All IsDigit s → skip_prefix s ≡ s
unfolding skip_prefix
skip_prefix-digits [] h = refl
skip_prefix-digits (a ∷ []) h = refl
skip_prefix-digits (a ∷ b ∷ []) h = refl
skip_prefix-digits (a ∷ b ∷ c ∷ s) h = let plain = digit-IsPlain b h.1.0 in ground (arith, plain)

-- Digits carry no blank, no sign and no "0x" in front.
strtoul_hex-digits : (s : CString) → All IsDigit s → strtoul_hex s ≡ saturate (scan_hex 0 s)
unfolding strtoul_hex skip_space signed_hex saturate scan_hex
strtoul_hex-digits [] h = refl
strtoul_hex-digits (c ∷ s) h =
    let plain = digit-IsPlain c h.0 in
    rw (plain.no_space, signed_hex, plain.no_minus, plain.no_plus, skip_prefix-digits (c ∷ s) h)
      refl

-- "%x" of a 32-bit number, read back by `strtoul` with base 16, is that number: the nine bytes of
-- the buffer hold all of its digits, and `strtoul` reads all of them.
pub strtoul_hex-print_hex : (n : ℕ) → n < 2 ^ 32 → strtoul_hex (print_hex n) ≡ n
unfolding print_hex scan_hex saturate
strtoul_hex-print_hex n h =
    rw (take_all 8 (hex_digits 8 n) (length-hex_digits 8 n)) (
      strtoul_hex-digits (hex_digits 8 n) (hex_digits-IsDigit 8 n) ∙ ap saturate spelled ∙ in_range)
  where
    spelled : scan_hex 0 (hex_digits 8 n) ≡ n
    spelled =
        ap (scan_hex 0) (sym (append-nil (hex_digits 8 n)))
        ∙ scan_hex-hex_digits 7 n [] (omega arith)

    in_range : saturate n ≡ n
    in_range = ground arith
