-- ===== src/Memory/Bytes.antt =====
-- The bytes of physical memory, and the memcpy of common/include/rkhv/mem.h.
use rkhv.Base.{
  ℕ, ◌+◌, ◌-◌, ◌*◌, ◌/◌, ◌%◌, ◌^◌, ◌≤◌, ◌<◌, ◌≡◌, ◌&&◌, Bool, false, arith, ltb, leb, if◌then◌else◌,
  Bool-cases, inl, inr, zero, suc, refl, ◌∙◌, ◌⊎◌, sym,
}
use native.Mathlib.Nat.{pow-suc, div-div-eq-div-mul}
use rkhv.Memory.{Memory}

-- The byte at an address.
unfoldable pub load_byte : Memory → ℕ → ℕ
load_byte m address = m (address / 8) / 256 ^ (address % 8) % 256

unfoldable pub in_range : ℕ → ℕ → ℕ → Bool
in_range start size address = leb start address && ltb address (start + size)

-- The byte at an address after `size` bytes were copied to `start`.
unfoldable pub copied_byte : ℕ → ℕ → (ℕ → ℕ) → Memory → ℕ → ℕ
unfolding in_range load_byte
copied_byte start size from m address =
    if in_range start size address then from (address - start) % 256 else load_byte m address

-- The number with `n` given digits in base 256, the lowest first.
unfoldable pub word_of : ℕ → (ℕ → ℕ) → ℕ
word_of zero byte = 0
word_of (suc n) byte = byte 0 + 256 * word_of n (λ k. byte (suc k))

-- `memcpy(start, from, size)`, word by word; a word without a copied byte is left alone.
unfoldable pub memcpy : ℕ → (ℕ → ℕ) → ℕ → Memory → Memory
unfolding copied_byte word_of
memcpy start from size m w =
    if ltb start (8 * w + 8) && ltb (8 * w) (start + size)
    then word_of 8 (λ k. copied_byte start size from m (8 * w + k))
    else m w

copied_byte-bound :
    (start size : ℕ) (from : ℕ → ℕ) (m : Memory) (a : ℕ) → copied_byte start size from m a < 256
unfolding copied_byte load_byte
copied_byte-bound start size from m a = ground arith

digit-zero : (x y : ℕ) → x < 256 → (x + 256 * y) / 256 ^ 0 % 256 ≡ x
digit-zero x y h = omega arith

digit-suc : (x y k : ℕ) → x < 256 → (x + 256 * y) / 256 ^ suc k % 256 ≡ y / 256 ^ k % 256
digit-suc x y k h =
    let lower : (x + 256 * y) / 256 ≡ y = omega arith in
    let power : 256 ^ k * 256 ≡ 256 * 256 ^ k = omega arith in
    rw (pow-suc 256 k, power, ← div-div-eq-div-mul (x + 256 * y) 256 (256 ^ k), lower) refl

digit-word_of :
    (n k : ℕ) (byte : ℕ → ℕ)
    → k < n
    → ((j : ℕ) → byte j < 256)
    → word_of n byte / 256 ^ k % 256 ≡ byte k
unfolding word_of
digit-word_of zero k byte below small = absurd (omega (arith, below))
digit-word_of (suc n) zero byte below small = digit-zero (byte 0) _ (small 0)
digit-word_of (suc n) (suc k) byte below small =
    digit-suc (byte 0) _ k (small 0)
    ∙ digit-word_of n k (λ j. byte (suc j)) (omega arith) (λ j. small (suc j))

copied_byte-far :
    (start size : ℕ) (from : ℕ → ℕ) (m : Memory) (a : ℕ)
    → (ltb start (8 * (a / 8) + 8) && ltb (8 * (a / 8)) (start + size)) ≡ false
    → copied_byte start size from m a ≡ load_byte m a
unfolding copied_byte in_range
copied_byte-far start size from m a far = ground arith

pub load_byte-memcpy :
    (start size : ℕ) (from : ℕ → ℕ) (m : Memory) (a : ℕ)
    → load_byte (memcpy start from size m) a ≡ copied_byte start size from m a
unfolding load_byte memcpy
load_byte-memcpy start size from m a =
    let same : 8 * (a / 8) + a % 8 ≡ a = omega arith in
    elim (Bool-cases (ltb start (8 * (a / 8) + 8) && ltb (8 * (a / 8)) (start + size))) [
      | inl near ↦ rw near (
          digit-word_of 8 (a % 8) (λ k. copied_byte start size from m (8 * (a / 8) + k))
            (omega arith) (λ j. copied_byte-bound start size from m (8 * (a / 8) + j))
          ∙ rw same refl)
      | inr far ↦ rw far (sym (copied_byte-far start size from m a far))
    ]

pub memcpy-apart :
    (start size : ℕ) (from : ℕ → ℕ) (m : Memory) (w : ℕ)
    → (8 * w + 8 ≤ start) ⊎ (start + size ≤ 8 * w)
    → memcpy start from size m w ≡ m w
unfolding memcpy
memcpy-apart start size from m w apart = ground arith
