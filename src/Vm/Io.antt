-- ===== src/Vm/Io.antt =====
-- hv/src/vmm/vm_ioports.c and the I/O instructions of hv/src/vmm/vm_emulated_instructions.c.
pub mod Ports
pub mod Input
use rkhv.Base.{
  ℕ, zero, suc, ◌+◌, ◌-◌, ◌*◌, ◌/◌, ◌%◌, ◌^◌, bit_and, bit_or, Bool, true, false, ◌||◌, ◌&&◌,
  Option, none, some, List, [], ◌∷◌, ◌==◌, if◌then◌else◌,
}
use rkhv.Base.Result.{Result, ok, ◌>>=◌}

-- The suffixes b, w and d, and the sizes of their types.
pub data Size : Type 0 where
  b w d : Size

abbrev pub sizeof : Size → ℕ
sizeof b = 1
sizeof w = 2
sizeof d = 4

abbrev pub bits : Size → ℕ
bits b = 8
bits w = 16
bits d = 32

-- vm_device_t: the first `ports_len` ports, and the handlers, `none` for NULL. They act on a
-- state `S` that holds the data of all the devices.
pub record Device (S : Type 0) : Type 0 where
  pub ports : List ℕ
  pub out_handler : Size → Option (ℕ → ℕ → S → Result S)
  pub in_handler : Size → Option (ℕ → S → Result (ℕ × S))

-- The loop over the ports of one device, `h` being its handler: `none` goes on.
unfoldable pub match_ports : {H : Type 0} → ℕ → Option H → List ℕ → Option H
match_ports port h [] = none
match_ports port h (p ∷ ps) =
    let rest = match_ports port h ps in
    if port == p then elim h [ some f ↦ some f | none ↦ rest ] else rest

module _ {S : Type 0} where
  -- VM_OUT_DEVICE_LOOKUP: an access that no device takes is ignored.
  unfoldable pub vm_out : Size → ℕ → ℕ → List (Device S) → S → Result S
  unfolding match_ports
  vm_out size port value [] s = ok s
  vm_out size port value (dev ∷ devices) s =
      elim (match_ports port (dev.out_handler size) dev.ports) [
        | some handler ↦ handler port value s
        | none ↦ vm_out size port value devices s
      ]

  -- VM_IN_DEVICE_LOOKUP
  unfoldable pub vm_in : Size → ℕ → List (Device S) → S → Result (ℕ × S)
  unfolding match_ports
  vm_in size port [] s = ok (0, s)
  vm_in size port (dev ∷ devices) s = elim (match_ports port (dev.in_handler size) dev.ports) [
    | some handler ↦ handler port s
    | none ↦ vm_in size port devices s
  ]

  -- VM_EMULATED_INSTRUCTION_OUT_SINGLE: the argument is converted to the type of the size.
  unfoldable pub vm_emulated_instruction_out : Size → ℕ → ℕ → List (Device S) → S → Result S
  unfolding vm_out
  vm_emulated_instruction_out size port rax devices s =
      vm_out size port (rax % 2 ^ bits size) devices s

-- ~0xff and ~0xffff are of type `int` and are extended by their sign; ~0xffffffff is of type
-- `unsigned int`, that is 0.
abbrev pub in_mask : Size → ℕ
in_mask b = 0xffffffffffffff00
in_mask w = 0xffffffffffff0000
in_mask d = 0

module _ {S : Type 0} where
  -- VM_EMULATED_INSTRUCTION_IN_SINGLE: the new RAX and the state.
  unfoldable pub vm_emulated_instruction_in : Size → ℕ → ℕ → List (Device S) → S → Result (ℕ × S)
  vm_emulated_instruction_in size port rax devices s =
      vm_in size port devices s >>= λ r. ok (bit_or (bit_and rax (in_mask size)) r.0, r.1)
