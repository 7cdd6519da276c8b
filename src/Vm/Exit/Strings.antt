-- ===== src/Vm/Exit/Strings.antt =====
-- The string I/O instructions of hv/src/vmm/vm_emulated_instructions.c: OUTS, INS and their REP
-- forms, on the registers and the memory of the guest and the data of its devices.
use rkhv.Base.{ℕ, zero, suc, ◌+◌, ◌-◌, ◌/◌, ◌%◌, ◌^◌, List, ◌==◌, if◌then◌else◌}
use rkhv.Base.Result.{Result, ok, ◌>>=◌}
use rkhv.Memory.{v2p_identity_map}
use rkhv.Memory.Bytes.{load_byte, memcpy, word_of}
use rkhv.Vm.Exit.{VmState, rcx, set_gpr}
use rkhv.Vm.GuestPaging.{Guest, Mode, vm_guest_paging_get_host_virtual_address_during_vmexit}
use rkhv.Vm.Io.{Size, sizeof, Device, vm_out, vm_in}
use rkhv.Vm.Msr.{MsrState}

-- vmx_vmexit_state_t with what it points at, and the data of the devices.
pub record ExitState (S : Type 0) : Type 0 where
  pub vm_state : VmState
  pub rflags : ℕ
  pub cr0 : ℕ
  pub msr_state : MsrState
  pub guest : Guest
  pub device_data : S

abbrev pub rsi : ℕ
rsi = 6

abbrev pub rdi : ℕ
rdi = 7

-- The paging mode of the guest: vm_state->msrs.IA32_EFER is one of the saved MSRs.
unfoldable pub mode_of : {S : Type 0} → ExitState S → Mode
mode_of s = record {
  cr0 = s.cr0;
  cr3 = (s.vm_state).cr3;
  cr4 = (s.vm_state).cr4;
  ia32_efer = (s.msr_state).msrs 0xC0000080;
}

-- `df ? -sizeof(type) : sizeof(type)`, added to a 64-bit register.
unfoldable pub string_step : ℕ → Size → ℕ → ℕ
string_step rflags size address =
    (address + (if rflags / 2 ^ 10 % 2 == 0 then sizeof size else 2 ^ 64 - sizeof size)) % 2 ^ 64

-- `*hostva`, behind the identity map.
unfoldable pub load_value : Guest → Size → ℕ → ℕ
load_value g size hostva =
    word_of (sizeof size) (λ k. load_byte g.memory (v2p_identity_map hostva + k))

unfoldable pub store_value : Size → ℕ → ℕ → Guest → Guest
store_value size hostva value g = record g {
  memory = memcpy (v2p_identity_map hostva) (λ k. value / 256 ^ k) (sizeof size) g.memory;
}

module _ {S : Type 0} (devices : List (Device S)) (size : Size) (port : ℕ) where
  -- VM_EMULATED_INSTRUCTION_OUT_STR
  unfoldable pub vm_emulated_instruction_outs : ExitState S → Result (ExitState S)
  vm_emulated_instruction_outs s =
      vm_guest_paging_get_host_virtual_address_during_vmexit s.guest (mode_of s)
        ((s.vm_state).gpr rsi) (sizeof size)
      >>= λ hostva.
          vm_out size port (load_value s.guest size hostva) devices s.device_data >>= λ device_data.
          ok (record s {
            device_data = device_data;
            vm_state = set_gpr rsi (string_step s.rflags size ((s.vm_state).gpr rsi)) s.vm_state;
          })

  -- VM_EMULATED_INSTRUCTION_IN_STR
  unfoldable pub vm_emulated_instruction_ins : ExitState S → Result (ExitState S)
  vm_emulated_instruction_ins s =
      vm_guest_paging_get_host_virtual_address_during_vmexit s.guest (mode_of s)
        ((s.vm_state).gpr rdi) (sizeof size)
      >>= λ hostva. vm_in size port devices s.device_data >>= λ input. ok (record s {
        guest = store_value size hostva input.0 s.guest;
        device_data = input.1;
        vm_state = set_gpr rdi (string_step s.rflags size ((s.vm_state).gpr rdi)) s.vm_state;
      })

-- VM_EMULATED_INSTRUCTION_IO_STRREP: at most `fuel` turns of the `while`.
module _ {S : Type 0} (instruction : ExitState S → Result (ExitState S)) where
  unfoldable pub rep_loop : ℕ → ExitState S → Result (ExitState S)
  rep_loop zero s = ok s
  rep_loop (suc fuel) s =
      let rest = rep_loop fuel in
      if (s.vm_state).gpr rcx == 0
      then ok s
      else instruction s >>= λ t. rest (record t {
        vm_state = set_gpr rcx (((t.vm_state).gpr rcx + 2 ^ 64 - 1) % 2 ^ 64) t.vm_state;
      })

  -- RCX itself is fuel enough.
  unfoldable pub vm_emulated_instruction_rep : ExitState S → Result (ExitState S)
  unfolding rep_loop
  vm_emulated_instruction_rep s = rep_loop ((s.vm_state).gpr rcx) s
