-- ===== src/Util/Bitfield/Complement.antt =====
-- The complement of flags: `& mask` is the remainder by a power of 2.
use Prim.Native.Nat.{bit_and, bit_and-bitwise, digits, min}
use native.Mathlib.Nat.{div-add-mod, mul-add-mod_self_left, mod-eq_of_lt}
use waylandpp.Prelude.{
  ℕ, zero, suc, ◌+◌, ◌-◌, ◌*◌, ◌/◌, ◌%◌, ◌^◌, ◌≤◌, ◌<◌, ◌≡◌, sym, ap, ◌∙◌, arith,
}
use waylandpp.Util.Bitfield.{mask, complement}

even_part : (x p : ℕ) → 0 < p → (x / 2) % p * 2 + x % 2 ≡ x % (p * 2)
even_part x p pos = grind arith

double : (k : ℕ) → 2 ^ suc k ≡ 2 ^ k * 2
double k = grind arith

pow_pos : (k : ℕ) → 0 < 2 ^ k
pow_pos zero = omega arith
pow_pos (suc k) = omega (arith, double k, pow_pos k)

min_bit : (x : ℕ) → min (x % 2) 1 ≡ x % 2
min_bit x = omega arith

no_bit : (x : ℕ) → min (x % 2) 0 ≡ 0
no_bit x = omega arith

mask_digits : (n a k : ℕ) → a ≤ n → digits (λ b. zero) min n a (2 ^ k - 1) ≡ a % 2 ^ k
mask_digits zero zero k h = grind arith
mask_digits zero (suc a) k h = absurd (omega arith)
mask_digits (suc n) zero k h = grind arith
mask_digits (suc n) (suc a) zero h =
    omega (arith, mask_digits n (suc a / 2) 0 (omega (arith, h)), no_bit (suc a))
mask_digits (suc n) (suc a) (suc k) h =
    let half : (2 ^ suc k - 1) / 2 ≡ 2 ^ k - 1 = omega (arith, double k, pow_pos k) in
    let odd : (2 ^ suc k - 1) % 2 ≡ 1 = omega (arith, double k, pow_pos k) in
    rw (half, odd, min_bit (suc a), mask_digits n (suc a / 2) k (omega (arith, h)), double k)
      (even_part (suc a) (2 ^ k) (pow_pos k))

mask_lem : (v size : ℕ) → bit_and v (mask size) ≡ v % 2 ^ size
mask_lem v size = bit_and-bitwise v (mask size) ∙ mask_digits v v size (omega arith)

split_power : (k n : ℕ) → 2 ^ (n + k) ≡ 2 ^ k * 2 ^ n
split_power zero n = grind arith
split_power (suc k) n = grind (arith, double k, double (n + k), split_power k n)

words : (size : ℕ) → size < 31 → 2 ^ 32 ≡ 2 ^ size * 2 ^ (32 - size)
words size small =
    let same : 32 ≡ 32 - size + size = omega (arith, small) in
    ap (λ k. 2 ^ k) same ∙ split_power size (32 - size)

-- The number before a multiple of `p`, less one with the remainder `r`
below_multiple : (p a b r : ℕ) → r < p → p * (a + suc b) - 1 - (p * a + r) ≡ p * b + (p - 1 - r)
below_multiple p a b r lt = grind arith

flip_once : (p q v : ℕ) → 0 < p → v < p * q → (p * q - 1 - v) % p ≡ p - 1 - v % p
flip_once p q v pos lt =
    let small : v % p < p = grind arith in
    let parts : p * (v / p) + v % p ≡ v = div-add-mod v p in
    let less : v / p < q = grind (arith, parts, small) in
    let rest : (v / p) + suc (q - 1 - v / p) ≡ q = omega (arith, less) in
    let whole : p * q - 1 - v ≡ p * (q - 1 - v / p) + (p - 1 - v % p) =
      ap (λ n. p * n - 1 - v) (sym rest)
      ∙ ap (λ n. p * (v / p + suc (q - 1 - v / p)) - 1 - n) (sym parts)
      ∙ below_multiple p (v / p) (q - 1 - v / p) (v % p) small in
    ap (λ n. n % p) whole
    ∙ mul-add-mod_self_left p (q - 1 - v / p) (p - 1 - v % p)
    ∙ mod-eq_of_lt (omega (arith, pos))

complement_value :
    (size v : ℕ) → size < 31 → v < 2 ^ 32 → complement size v ≡ 2 ^ size - 1 - v % 2 ^ size
unfolding complement
complement_value size v small word =
    let same = words size small in
    mask_lem (2 ^ 32 - 1 - v) size
    ∙ ap (λ n. (n - 1 - v) % 2 ^ size) same
    ∙ flip_once (2 ^ size) (2 ^ (32 - size)) v (pow_pos size) (omega (arith, same, word))

-- For a size below 31, the complement of any word has the flags below the size that the word does not have, and no
-- other; the complement of that has the word's flags below the size: those from the size on are lost.
pub complement-complement :
    (size v : ℕ)
    → size < 31
    → v < 2 ^ 32
    → (complement size v + v % 2 ^ size ≡ 2 ^ size - 1)
      × (complement size (complement size v) ≡ v % 2 ^ size)
complement-complement size v small word =
    let once = complement_value size v small word in
    let less : v % 2 ^ size < 2 ^ size = grind (arith, pow_pos size) in
    let fits : complement size v < 2 ^ 32 =
      grind (arith, words size small, pow_pos (32 - size), once) in
    let twice = complement_value size (complement size v) small fits in
    let still : complement size v % 2 ^ size ≡ complement size v =
      mod-eq_of_lt (omega (arith, once, less)) in
    (omega (arith, once, less), omega (arith, twice, still, once, less))
