-- ===== src/Vm/Msr/Bitmaps.antt =====
-- What the bitmaps let a guest access without a VM exit.
use rkhv.Base.{
  ℕ, ◌+◌, ◌*◌, ◌/◌, ◌%◌, ◌^◌, ◌<◌, ◌≡◌, refl, sym, Bool, true, false, ◌||◌, ◌==◌, ltb, leb, not,
  if◌then◌else◌, arith, inl, inr, zero, suc, subst, Bool-cases,
}
use rkhv.Vm.Msr.{Bytes, vmx_msr_init_bitmaps}

-- The bytes of the page, written out.
abbrev byte : ℕ → ℕ
byte i =
    if ltb i 2048
    then 0
    else if i == 2065
    then 0xf7
    else if i == 2100
    then 0xfe
    else if i == 2484
    then 0xfe
    else if i == 3088
    then 0xfe
    else if i == 3104
    then 0xf8
    else 0xff

vmx_msr_init_bitmaps-byte : (m : Bytes) (i : ℕ) → i < 4096 → vmx_msr_init_bitmaps m i ≡ byte i
unfolding vmx_msr_init_bitmaps
vmx_msr_init_bitmaps-byte m i h = ground arith

-- Bit `addr % 8` of the byte `addr / 8` of one of the four bitmaps: an access exits if it is 1.
abbrev pub exits : Bytes → ℕ → ℕ → Bool
exits m bitmap addr = m (bitmap + addr / 8) / 2 ^ (addr % 8) % 2 == 1

abbrev pub is_low_msr : ℕ → Bool
is_low_msr addr = addr == 0x1A0 || (addr == 0x8B || addr == 0xDA0)

-- Above 0xc0000000.
abbrev pub is_high_msr : ℕ → Bool
is_high_msr addr = addr == 0x80 || (addr == 0x100 || (addr == 0x101 || addr == 0x102))

eight : (P : ℕ → Type 0) → P 0 → P 1 → P 2 → P 3 → P 4 → P 5 → P 6 → P 7 → (k : ℕ) → k < 8 → P k
eight P p₀ p₁ p₂ p₃ p₄ p₅ p₆ p₇ zero h = p₀
eight P p₀ p₁ p₂ p₃ p₄ p₅ p₆ p₇ (suc zero) h = p₁
eight P p₀ p₁ p₂ p₃ p₄ p₅ p₆ p₇ (suc (suc zero)) h = p₂
eight P p₀ p₁ p₂ p₃ p₄ p₅ p₆ p₇ (suc (suc (suc zero))) h = p₃
eight P p₀ p₁ p₂ p₃ p₄ p₅ p₆ p₇ (suc (suc (suc (suc zero)))) h = p₄
eight P p₀ p₁ p₂ p₃ p₄ p₅ p₆ p₇ (suc (suc (suc (suc (suc zero))))) h = p₅
eight P p₀ p₁ p₂ p₃ p₄ p₅ p₆ p₇ (suc (suc (suc (suc (suc (suc zero)))))) h = p₆
eight P p₀ p₁ p₂ p₃ p₄ p₅ p₆ p₇ (suc (suc (suc (suc (suc (suc (suc zero))))))) h = p₇
eight P p₀ p₁ p₂ p₃ p₄ p₅ p₆ p₇ (suc (suc (suc (suc (suc (suc (suc (suc k)))))))) h =
    absurd (omega arith)

-- The bits of the values that occur.
abbrev bit : ℕ → ℕ → Bool
bit v k = v / 2 ^ k % 2 == 1

bit_ff : (k : ℕ) → k < 8 → bit 0xff k ≡ true
bit_ff = eight (λ k. bit 0xff k ≡ true) refl refl refl refl refl refl refl refl

bit_f7 : (k : ℕ) → k < 8 → bit 0xf7 k ≡ not (k == 3)
bit_f7 = eight (λ k. bit 0xf7 k ≡ not (k == 3)) refl refl refl refl refl refl refl refl

bit_fe : (k : ℕ) → k < 8 → bit 0xfe k ≡ not (k == 0)
bit_fe = eight (λ k. bit 0xfe k ≡ not (k == 0)) refl refl refl refl refl refl refl refl

bit_f8 : (k : ℕ) → k < 8 → bit 0xf8 k ≡ leb 3 k
bit_f8 = eight (λ k. bit 0xf8 k ≡ leb 3 k) refl refl refl refl refl refl refl refl

bit_zero : (k : ℕ) → k < 8 → bit 0 k ≡ false
bit_zero = eight (λ k. bit 0 k ≡ false) refl refl refl refl refl refl refl refl

low_bit : (o k : ℕ) → o < 1024 → k < 8 → bit (byte (2048 + o)) k ≡ not (is_low_msr (8 * o + k))
low_bit o k ho hk =
    let b₁ = bit_f7 k hk in
    let b₂ = bit_fe k hk in
    let b₃ = bit_ff k hk in
    elim (Bool-cases (o == 17)) [
      | inl e ↦
          subst (λ o. bit (byte (2048 + o)) k ≡ not (is_low_msr (8 * o + k)))
            (sym {b = 17} (ground arith)) (ground arith)
      | inr e ↦ elim (Bool-cases (o == 52)) [
        | inl f ↦
            subst (λ o. bit (byte (2048 + o)) k ≡ not (is_low_msr (8 * o + k)))
              (sym {b = 52} (ground arith)) (ground arith)
        | inr f ↦ elim (Bool-cases (o == 436)) [
          | inl g ↦
              subst (λ o. bit (byte (2048 + o)) k ≡ not (is_low_msr (8 * o + k)))
                (sym {b = 436} (ground arith)) (ground arith)
          | inr g ↦
              let v : byte (2048 + o) ≡ 0xff = ground arith in
              let w : is_low_msr (8 * o + k) ≡ false = ground arith in rw (v, w, b₃) refl
        ]
      ]
    ]

high_bit : (o k : ℕ) → o < 1024 → k < 8 → bit (byte (3072 + o)) k ≡ not (is_high_msr (8 * o + k))
high_bit o k ho hk =
    let b₁ = bit_f8 k hk in
    let b₂ = bit_fe k hk in
    let b₃ = bit_ff k hk in
    elim (Bool-cases (o == 16)) [
      | inl e ↦
          subst (λ o. bit (byte (3072 + o)) k ≡ not (is_high_msr (8 * o + k)))
            (sym {b = 16} (ground arith)) (ground arith)
      | inr e ↦ elim (Bool-cases (o == 32)) [
        | inl f ↦
            subst (λ o. bit (byte (3072 + o)) k ≡ not (is_high_msr (8 * o + k)))
              (sym {b = 32} (ground arith)) (ground arith)
        | inr g ↦
            let v : byte (3072 + o) ≡ 0xff = ground arith in
            let w : is_high_msr (8 * o + k) ≡ false = ground arith in rw (v, w, b₃) refl
      ]
    ]

read_bit : (i k : ℕ) → i < 2048 → k < 8 → bit (byte i) k ≡ false
read_bit i k hi hk = let v : byte i ≡ 0 = ground arith in rw v (bit_zero k hk)

-- In the bitmaps a guest reads every MSR of the two ranges without an exit, and writes without
-- one exactly the MSRs of the list.
pub vmx_msr_init_bitmaps-exits :
    (m : Bytes) (addr : ℕ)
    → addr < 0x2000
    → (exits (vmx_msr_init_bitmaps m) 0 addr ≡ false)
      × (exits (vmx_msr_init_bitmaps m) 1024 addr ≡ false)
      × (exits (vmx_msr_init_bitmaps m) 2048 addr ≡ not (is_low_msr addr))
      × (exits (vmx_msr_init_bitmaps m) 3072 addr ≡ not (is_high_msr addr))
vmx_msr_init_bitmaps-exits m addr h =
    let k = addr % 8 in
    let o = addr / 8 in
    let hk : k < 8 = omega arith in
    let ho : o < 1024 = omega arith in
    let whole : 8 * o + k ≡ addr = omega arith in
    (
      rw (vmx_msr_init_bitmaps-byte m (0 + o) (omega arith)) (read_bit (0 + o) k (omega arith) hk),
      rw (vmx_msr_init_bitmaps-byte m (1024 + o) (omega arith))
          (read_bit (1024 + o) k (omega arith) hk),
      rw (vmx_msr_init_bitmaps-byte m (2048 + o) (omega arith))
          (subst (λ a. bit (byte (2048 + o)) k ≡ not (is_low_msr a)) whole (low_bit o k ho hk)),
      rw (vmx_msr_init_bitmaps-byte m (3072 + o) (omega arith))
          (subst (λ a. bit (byte (3072 + o)) k ≡ not (is_high_msr a)) whole (high_bit o k ho hk)),
    )
