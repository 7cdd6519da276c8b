-- ===== src/Vm/Vmcs/Create.antt =====
-- vmx_create_initialized_vmcs of hv/src/vmm/vmx_vmcs.c. The instructions answer whether they
-- succeed, and the VMCS that vmptrld makes current is a store of fields.
use rkhv.Base.{
  ℕ, ◌/◌, ◌%◌, ◌^◌, ◌≤◌, bit_and, bit_or, Bool, true, false, some, ◌≡◌, ◌≢◌, refl, arith, nonzero,
  if◌then◌else◌, get_elem?,
}
use Prim.Native.Nat.{min, max}
use rkhv.Base.Bits.{bit_and_lowest, bit_or_lowest, bit_and-zero}
use rkhv.Base.Result.{vmx_assert, Result, ok, panic, ◌>>=◌, vmcs_already_initialized}
use rkhv.Mm.VmxPages.{VmxPages, vmx_get_free_vmcs_region, vmx_get_msr_bitmaps_page}
use rkhv.Vm.Msr.{Store}
use rkhv.Vm.Tracked.{vm_t_flag_vmcs_initialized}
use rkhv.Vm.Vmcs.Bits.{bit, bit-vmx_ensure_allowed_bits}
use rkhv.Vm.Vmcs.Config.{Cpu, VmcsConfig}
use rkhv.Vm.Vmcs.Table.{DefaultField, row, default_vmcs_fields}
use rkhv.Vm.Vmcs.Writes.{
  write_fields, write_fields-total, write_fields-reads, write_fields-others, encoding_of,
  checked_value, has_encoding, all_distinct,
}

-- The fields of vm_t that the function uses, and the contents of the region.
pub record Machine : Type 0 where
  pub flags : ℕ
  pub vmcs_region : ℕ
  pub vmcs_config : VmcsConfig
  pub vmcs : Store

-- The table names each field once.
default_vmcs_fields-all_distinct :
    (cpu : Cpu) (config : VmcsConfig) (page : ℕ)
    → all_distinct (default_vmcs_fields cpu config page) ≡ true
unfolding default_vmcs_fields all_distinct
default_vmcs_fields-all_distinct cpu config page = refl

module _ {R : Type 0} (mm_get_free_page : R → Result (ℕ × R)) (cpu : Cpu) (vmclear : ℕ → Bool)
    (vmptrld : ℕ → Bool) (vmwrite : ℕ → Bool) where
  unfoldable pub vmx_create_initialized_vmcs :
      Machine → VmxPages → R → Result (Machine × VmxPages × R)
  unfolding vmx_assert write_fields
  vmx_create_initialized_vmcs vm s r =
      if nonzero (bit_and vm.flags vm_t_flag_vmcs_initialized)
      then panic vmcs_already_initialized
      else vmx_get_free_vmcs_region mm_get_free_page cpu.rdmsr s r >>= λ region.
          vmx_assert (vmclear region.0) region >>= λ _.
          vmx_assert (vmptrld region.0) region >>= λ _.
          vmx_get_msr_bitmaps_page mm_get_free_page cpu.rdmsr region.1 region.2 >>= λ page.
          write_fields cpu.rdmsr vmwrite (default_vmcs_fields cpu vm.vmcs_config page.0) vm.vmcs
          >>= λ vmcs. ok (
            record vm {
              vmcs_region = region.0;
              vmcs = vmcs;
              flags = bit_or vm.flags vm_t_flag_vmcs_initialized;
            },
            page.1,
            page.2,
          )

-- What the function leaves in the machine `new` that was `old`.
pub record IsCreated (cpu : Cpu) (region page : ℕ) (old new : Machine) : Type 0 where
  pub initialized : nonzero (bit_and new.flags vm_t_flag_vmcs_initialized) ≡ true
  pub in_region : new.vmcs_region ≡ region
  pub same_config : new.vmcs_config ≡ old.vmcs_config
  pub reads :
      (i : ℕ) (r : DefaultField)
      → get_elem? (default_vmcs_fields cpu old.vmcs_config page) i ≡ some r
      → new.vmcs (encoding_of r) ≡ checked_value cpu.rdmsr r
  pub others :
      (e : ℕ)
      → has_encoding e (default_vmcs_fields cpu old.vmcs_config page) ≡ false
      → new.vmcs e ≡ old.vmcs e

flag_set : (flags : ℕ) → nonzero (bit_and (bit_or flags 1) 1) ≡ true
flag_set flags = ground (
  arith,
  bit_and_lowest (bit_or flags 1) 1,
  bit_or_lowest flags 1,
  bit_and-zero (bit_or flags 1 / 2),
)

module _ {R : Type 0} (mm_get_free_page : R → Result (ℕ × R)) (cpu : Cpu) (vmclear : ℕ → Bool)
    (vmptrld : ℕ → Bool) (vmwrite : ℕ → Bool) where
  -- A machine without VMCS gets one when the two pages are given out and the instructions succeed:
  -- each field of the table reads as its checked value, every other field is as it was, and the
  -- flag is set.
  pub vmx_create_initialized_vmcs-IsCreated :
      (vm : Machine) (s s₁ s₂ : VmxPages) (r r₁ r₂ : R) (region page : ℕ)
      → nonzero (bit_and vm.flags vm_t_flag_vmcs_initialized) ≡ false
      → vmx_get_free_vmcs_region mm_get_free_page cpu.rdmsr s r ≡ ok (region, s₁, r₁)
      → vmclear region ≡ true
      → vmptrld region ≡ true
      → vmx_get_msr_bitmaps_page mm_get_free_page cpu.rdmsr s₁ r₁ ≡ ok (page, s₂, r₂)
      → ((e : ℕ)
          → has_encoding e (default_vmcs_fields cpu vm.vmcs_config page) ≡ true
          → vmwrite e ≡ true)
      → (new : Machine) × (vmx_create_initialized_vmcs mm_get_free_page cpu vmclear vmptrld vmwrite
            vm s r
          ≡ ok (new, s₂, r₂))
        × IsCreated cpu region page vm new
  unfolding vmx_create_initialized_vmcs vmx_assert
  vmx_create_initialized_vmcs-IsCreated vm s s₁ s₂ r r₁ r₂ region page fresh got cleared loaded
        bitmaps writes =
      let table = default_vmcs_fields cpu vm.vmcs_config page in
      let (last, wrote) = write_fields-total cpu.rdmsr vmwrite table vm.vmcs writes in
      (
        record vm {
          vmcs_region = region;
          vmcs = last;
          flags = bit_or vm.flags vm_t_flag_vmcs_initialized;
        },
        rw (fresh, got, cleared, loaded, bitmaps, wrote) refl,
        record {
          initialized = flag_set vm.flags;
          in_region = refl;
          same_config = refl;
          reads = λ i q at.
              write_fields-reads cpu.rdmsr vmwrite table vm.vmcs last i q wrote
                (default_vmcs_fields-all_distinct cpu vm.vmcs_config page) at;
          others =
              λ e absent. write_fields-others cpu.rdmsr vmwrite table vm.vmcs last e wrote absent;
        },
      )

  -- A second call for the same machine does not get past its first test.
  pub IsCreated-again :
      (old new : Machine) (region page : ℕ) (s : VmxPages) (r : R)
      → IsCreated cpu region page old new
      → vmx_create_initialized_vmcs mm_get_free_page cpu vmclear vmptrld vmwrite new s r
        ≡ panic vmcs_already_initialized
  unfolding vmx_create_initialized_vmcs
  IsCreated-again old new region page s r created = rw created.initialized refl

-- Each bit of a checked control field, where the processor reports consistent allowed settings:
-- one where it must be one, zero where it must be zero, and as requested elsewhere.
pub IsCreated-allowed :
    (cpu : Cpu) (region page : ℕ) (old new : Machine) (i e v msr k : ℕ)
    → IsCreated cpu region page old new
    → get_elem? (default_vmcs_fields cpu old.vmcs_config page) i ≡ some (row e v msr)
    → msr ≢ 0
    → bit k (cpu.rdmsr msr % 2 ^ 32) ≤ bit k (cpu.rdmsr msr / 2 ^ 32)
    → bit k (new.vmcs e)
      ≡ max
          (bit k (cpu.rdmsr msr % 2 ^ 32))
          (min (bit k (v % 2 ^ 32)) (bit k (cpu.rdmsr msr / 2 ^ 32)))
unfolding encoding_of checked_value
IsCreated-allowed cpu region page old new i e v msr k created at checked consistent = ground (
  arith,
  created.reads i (row e v msr) at,
  bit-vmx_ensure_allowed_bits cpu.rdmsr msr v k consistent,
)
