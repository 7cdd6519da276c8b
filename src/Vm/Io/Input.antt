-- ===== src/Vm/Io/Input.antt =====
-- What an emulated IN leaves in RAX.
use rkhv.Base.{ℕ, ◌+◌, ◌*◌, ◌/◌, ◌%◌, ◌^◌, ◌<◌, ◌≡◌, refl, List, bit_and, bit_or, arith}
use rkhv.Base.Bits.{bit_and_field, bit_or_fields, bit_or_comm, bit_and-zero, bit_or-zero}
use rkhv.Base.Result.{ok}
use rkhv.Vm.Io.{Size, b, w, d, bits, in_mask, Device, vm_in, vm_emulated_instruction_in}

-- The register after an access of the size, as the processor defines it: 8 and 16 bits keep the
-- rest of RAX, 32 bits clear it.
abbrev pub merge : Size → ℕ → ℕ → ℕ
merge b rax value = rax / 2 ^ 8 * 2 ^ 8 + value
merge w rax value = rax / 2 ^ 16 * 2 ^ 16 + value
merge d rax value = value

in_mask-merge :
    (size : Size) (rax value : ℕ)
    → rax < 2 ^ 64
    → value < 2 ^ bits size
    → bit_or (bit_and rax (in_mask size)) value ≡ merge size rax value
in_mask-merge b rax value hr hv =
    let e : rax / 2 ^ 8 % 2 ^ 56 ≡ rax / 2 ^ 8 = omega arith in
    rw (bit_and_field 8 56 rax, e) (bit_or_fields 8 (rax / 2 ^ 8) value hv)
in_mask-merge w rax value hr hv =
    let e : rax / 2 ^ 16 % 2 ^ 48 ≡ rax / 2 ^ 16 = omega arith in
    rw (bit_and_field 16 48 rax, e) (bit_or_fields 16 (rax / 2 ^ 16) value hv)
in_mask-merge d rax value hr hv = rw (bit_and-zero rax, bit_or_comm 0 value) (bit_or-zero value)

-- An emulated IN whose device answers with a value of the size leaves in RAX what the processor
-- would: the value in the low 8 or 16 bits with the others kept, or in the low 32 bits with the
-- others cleared.
pub vm_emulated_instruction_in-merge :
    {S : Type 0} (size : Size) (port rax : ℕ) (devices : List (Device S)) (s s' : S) (value : ℕ)
    → rax < 2 ^ 64
    → value < 2 ^ bits size
    → vm_in size port devices s ≡ ok (value, s')
    → vm_emulated_instruction_in size port rax devices s ≡ ok (merge size rax value, s')
unfolding vm_emulated_instruction_in
vm_emulated_instruction_in-merge size port rax devices s s' value hr hv e =
    rw (e, in_mask-merge size rax value hr hv) refl
