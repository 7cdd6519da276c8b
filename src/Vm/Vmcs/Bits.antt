-- ===== src/Vm/Vmcs/Bits.antt =====
-- vmx_ensure_allowed_bits of hv/src/vmm/vmx_vmcs.c, bit by bit.
use rkhv.Base.{ℕ, zero, suc, ◌/◌, ◌%◌, ◌^◌, ◌≤◌, bit_and, bit_or, ◌≡◌, arith}
use Prim.Native.Nat.{min, max}
use rkhv.Base.Bits.{bit_and_lowest, bit_or_lowest}

-- Bit `k` of a number.
abbrev pub bit : ℕ → ℕ → ℕ
bit zero x = x % 2
bit (suc k) x = bit k (x / 2)

pub bit-bit_and : (k a b : ℕ) → bit k (bit_and a b) ≡ min (bit k a) (bit k b)
bit-bit_and zero a b = ground (arith, bit_and_lowest a b)
bit-bit_and (suc k) a b =
    let e : bit_and a b / 2 ≡ bit_and (a / 2) (b / 2) = ground (arith, bit_and_lowest a b) in
    rw e (bit-bit_and k (a / 2) (b / 2))

pub bit-bit_or : (k a b : ℕ) → bit k (bit_or a b) ≡ max (bit k a) (bit k b)
bit-bit_or zero a b = ground (arith, bit_or_lowest a b)
bit-bit_or (suc k) a b =
    let e : bit_or a b / 2 ≡ bit_or (a / 2) (b / 2) = ground (arith, bit_or_lowest a b) in
    rw e (bit-bit_or k (a / 2) (b / 2))

-- The value of a control field, as a uint32_t.
unfoldable pub vmx_ensure_allowed_bits : (ℕ → ℕ) → ℕ → ℕ → ℕ
vmx_ensure_allowed_bits rdmsr msr mask =
    let msr_value = rdmsr msr in
    let allowed_zeros = msr_value % 2 ^ 32 in
    let allowed_ones = msr_value / 2 ^ 32 in
    bit_and (bit_or (mask % 2 ^ 32) allowed_zeros) allowed_ones

-- Where the processor reports consistent bits, a bit that must be one is one, a bit that must be
-- zero is zero, and every other bit is the one asked for.
pub bit-vmx_ensure_allowed_bits :
    (rdmsr : ℕ → ℕ) (msr mask k : ℕ)
    → bit k (rdmsr msr % 2 ^ 32) ≤ bit k (rdmsr msr / 2 ^ 32)
    → bit k (vmx_ensure_allowed_bits rdmsr msr mask)
      ≡ max (bit k (rdmsr msr % 2 ^ 32)) (min (bit k (mask % 2 ^ 32)) (bit k (rdmsr msr / 2 ^ 32)))
unfolding vmx_ensure_allowed_bits
bit-vmx_ensure_allowed_bits rdmsr msr mask k consistent = rw (bit-bit_and, bit-bit_or) (omega arith)
