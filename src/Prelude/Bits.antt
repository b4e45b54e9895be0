-- ===== src/Prelude/Bits.antt =====
-- `&` with the masks that the program rounds sizes by, as arithmetic.
use Prim.Native.Nat.{
  ℕ, zero, suc, ◌+◌, ◌*◌, ◌-◌, ◌/◌, ◌%◌, ◌^◌, ◌≤◌, ◌<◌, min, bit_and, digits, bit_and-bitwise,
}
use mathlib.Core.Path.{◌≡◌, refl, ap, sym, ◌∙◌}
use native.Mathlib.Nat.{pow-suc, one-le-pow, mul_comm, div-div-eq-div-mul}
use native.Mathlib.Omega.{arith}

-- What `bit_and` stands for, with `depth` binary places to go.
abbrev meet : ℕ → ℕ → ℕ → ℕ
meet depth x y = digits (λ y. zero) min depth x y

-- More places than `x` has make no difference.
meet_deeper : (depth total x y : ℕ) → x ≤ depth → depth ≤ total → meet total x y ≡ meet depth x y
meet_deeper zero zero zero y within deeper = refl
meet_deeper zero (suc total) zero y within deeper = refl
meet_deeper (suc depth) (suc total) zero y within deeper = refl
meet_deeper zero total (suc x) y within deeper = absurd (omega arith)
meet_deeper (suc depth) zero x y within deeper = absurd (omega arith)
meet_deeper (suc depth) (suc total) (suc x) y within deeper =
    let rest = meet_deeper depth total (suc x / 2) (y / 2) (omega arith) (omega arith) in
    omega (rest, arith)

bit_and_places : (depth x y : ℕ) → x ≤ depth → meet depth x y ≡ bit_and x y
bit_and_places depth x y within =
    meet_deeper x depth x y (omega arith) within ∙ sym (bit_and-bitwise x y)

nothing-bit_and : (y : ℕ) → bit_and 0 y ≡ 0
nothing-bit_and y = bit_and-bitwise zero y

-- The lowest place apart from the others.
pub bit_and_step : (x y : ℕ) → bit_and x y ≡ bit_and (x / 2) (y / 2) * 2 + min (x % 2) (y % 2)
bit_and_step zero y = omega (arith, nothing-bit_and y, nothing-bit_and (y / 2))
bit_and_step (suc x) y =
    let halves = bit_and_places x (suc x / 2) (y / 2) (omega arith) in
    omega (halves, bit_and-bitwise (suc x) y, arith)

-- A mask of `k` ones changes no number below `2 ^ k`.
pub bit_and_ones : (k a : ℕ) → a < 2 ^ k → bit_and a (2 ^ k - 1) ≡ a
bit_and_ones zero zero h = nothing-bit_and 0
bit_and_ones zero (suc a) h = absurd (omega arith)
bit_and_ones (suc k) a h = omega (
  arith,
  bit_and_step a (2 ^ suc k - 1),
  pow-suc 2 k,
  one-le-pow k 2,
  bit_and_ones k (a / 2) (omega (arith, pow-suc 2 k)),
  ap (bit_and (a / 2)) halved,
)
  where
    halved : (2 ^ suc k - 1) / 2 ≡ 2 ^ k - 1
    halved = omega (arith, pow-suc 2 k, one-le-pow k 2)

mul_double : (m k : ℕ) → m * 2 ^ suc k ≡ 2 * (m * 2 ^ k)
mul_double m k = omega (arith, ap (λ (t : ℕ). m * t) (pow-suc 2 k))

-- A mask of `n` ones above `k` zeros rounds down to a multiple of `2 ^ k`.
pub bit_and_high :
    (n k a : ℕ) → a < 2 ^ n * 2 ^ k → bit_and a ((2 ^ n - 1) * 2 ^ k) ≡ a / 2 ^ k * 2 ^ k
bit_and_high n zero a h = omega (arith, bit_and_ones n a (omega arith), ap (bit_and a) flat)
  where
    flat : (2 ^ n - 1) * 2 ^ zero ≡ 2 ^ n - 1
    flat = omega arith
bit_and_high n (suc k) a h = omega (
  arith,
  bit_and_step a ((2 ^ n - 1) * 2 ^ suc k),
  mul_double (2 ^ n - 1) k,
  bit_and_high n k (a / 2) (omega (arith, mul_double (2 ^ n) k)),
  ap (bit_and (a / 2)) halved,
  quotient,
  mul_double (a / 2 / 2 ^ k) k,
)
  where
    halved : (2 ^ n - 1) * 2 ^ suc k / 2 ≡ (2 ^ n - 1) * 2 ^ k
    halved = omega (arith, mul_double (2 ^ n - 1) k)

    quotient : a / 2 ^ suc k * 2 ^ suc k ≡ a / 2 / 2 ^ k * 2 ^ suc k
    quotient =
        ap (λ (t : ℕ). t * 2 ^ suc k)
          (ap (λ (t : ℕ). a / t) (pow-suc 2 k ∙ mul_comm (2 ^ k) 2)
            ∙ sym (div-div-eq-div-mul a 2 (2 ^ k)))

-- `& ~15` on 32 bits.
pub bit_and_align_16 : (a : ℕ) → a < 2 ^ 32 → bit_and a (2 ^ 32 - 1 - 15) ≡ a / 16 * 16
bit_and_align_16 a h = bit_and_high 28 4 a (omega arith)

-- `& ~2047` on 32 bits.
pub bit_and_align_2048 : (a : ℕ) → a < 2 ^ 32 → bit_and a (2 ^ 32 - 1 - 2047) ≡ a / 2048 * 2048
bit_and_align_2048 a h = bit_and_high 21 11 a (omega arith)

-- `& ~4093` on 64 bits: 4093 is no mask of low ones, so the second lowest bit stays.
pub bit_and_4093 :
    (a : ℕ) → a < 2 ^ 64 → bit_and a (2 ^ 64 - 1 - 4093) ≡ a / 4096 * 4096 + a / 2 % 2 * 2
bit_and_4093 a h = omega (
  arith,
  bit_and_step a (2 ^ 64 - 1 - 4093),
  bit_and_step (a / 2) ((2 ^ 64 - 1 - 4093) / 2),
  bit_and_high 52 10 (a / 2 / 2) (omega arith),
)
