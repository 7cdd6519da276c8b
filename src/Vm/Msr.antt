-- ===== src/Vm/Msr.antt =====
-- hv/src/vmm/vmx_msr.c and the list of hv/src/vmm/vmx_msr.h: the MSRs that are swapped between
-- the host and a guest, and the bitmaps that let a guest access them. vmread and vmwrite succeed.
pub mod Swap
pub mod Bitmaps
use rkhv.Base.{
  ℕ, ◌+◌, ◌-◌, ◌*◌, ◌/◌, ◌%◌, ◌^◌, bit_and, Bool, true, false, ◌&&◌, ◌||◌, List, [], ◌∷◌, ltb, leb,
  ◌==◌, if◌then◌else◌,
}
use rkhv.Memory.{page_size}

-- Registers by their number. The fields of vmx_msr_state_t are named by the MSR that they hold.
abbrev pub Store : Type 0
Store = ℕ → ℕ

unfoldable pub put : Store → ℕ → ℕ → Store
put f a v q = if q == a then v else f q

-- X_VMCS(addr, name, vmcs) and X_RWBK(addr, name)
pub data Entry : Type 0 where
  x_vmcs : ℕ → ℕ → Entry
  x_rwbk : ℕ → Entry

-- VMX_MSR_LIST
abbrev pub vmx_msr_list : List Entry
vmx_msr_list =
    x_vmcs 0xC0000080 0x2806
    ∷ x_vmcs 0xC0000100 0x680E
    ∷ x_vmcs 0xC0000101 0x6810
    ∷ x_rwbk 0x1A0
    ∷ x_rwbk 0x8B
    ∷ x_rwbk 0xDA0
    ∷ x_rwbk 0xC0000102
    ∷ []

-- The MSRs of the processor, the fields of the VMCS, vmx_msr_host_backup and vm_state.msrs.
pub record MsrState : Type 0 where
  pub cpu : Store
  pub vmcs : Store
  pub host_backup : Store
  pub msrs : Store

unfoldable pub launch_one : Entry → MsrState → MsrState
unfolding put
launch_one (x_vmcs addr field) s = s
launch_one (x_rwbk addr) s = record s { host_backup = put s.host_backup addr (s.cpu addr) }

unfoldable pub exit_one : Entry → MsrState → MsrState
unfolding put
exit_one (x_vmcs addr field) s = record s { msrs = put s.msrs addr (s.vmcs field) }
exit_one (x_rwbk addr) s = record s {
  msrs = put s.msrs addr (s.cpu addr);
  cpu = put s.cpu addr (s.host_backup addr);
}

unfoldable pub resume_one : Entry → MsrState → MsrState
unfolding put
resume_one (x_vmcs addr field) s = record s { vmcs = put s.vmcs field (s.msrs addr) }
resume_one (x_rwbk addr) s = record s {
  host_backup = put s.host_backup addr (s.cpu addr);
  cpu = put s.cpu addr (s.msrs addr);
}

unfoldable pub each : (Entry → MsrState → MsrState) → List Entry → MsrState → MsrState
each f [] s = s
each f (e ∷ es) s = each f es (f e s)

unfoldable pub vmx_msr_vmlaunch : MsrState → MsrState
unfolding each launch_one
vmx_msr_vmlaunch s = each launch_one vmx_msr_list s

unfoldable pub vmx_msr_vmexit : MsrState → MsrState
unfolding each exit_one
vmx_msr_vmexit s = each exit_one vmx_msr_list s

unfoldable pub vmx_msr_vmresume : MsrState → MsrState
unfolding each resume_one
vmx_msr_vmresume s = each resume_one vmx_msr_list s

-- The bytes of the page of bitmaps.
abbrev pub Bytes : Type 0
Bytes = ℕ → ℕ

abbrev pub msr_bitmaps_write_low : ℕ
msr_bitmaps_write_low = 2048

abbrev pub msr_bitmaps_write_high : ℕ
msr_bitmaps_write_high = 3072

abbrev pub msr_bitmaps_high_base : ℕ
msr_bitmaps_high_base = 0xc0000000

unfoldable pub memset : ℕ → ℕ → ℕ → Bytes → Bytes
memset start value size m i = if leb start i && ltb i (start + size) then value else m i

-- `m[i] &= ~(1 << shift)`, on bytes
unfoldable pub clear_bit : ℕ → ℕ → Bytes → Bytes
unfolding put
clear_bit i shift m = put m i (bit_and (m i) (0xff - 2 ^ shift))

unfoldable pub allow_msr : ℕ → Bytes → Bytes
unfolding clear_bit
allow_msr addr m =
    if ltb addr msr_bitmaps_high_base
    then clear_bit (msr_bitmaps_write_low + addr / 8) (addr % 8) m
    else clear_bit (msr_bitmaps_write_high + (addr - msr_bitmaps_high_base) / 8)
        ((addr - msr_bitmaps_high_base) % 8) m

unfoldable pub allow_all : List Entry → Bytes → Bytes
unfolding allow_msr
allow_all [] m = m
allow_all (x_vmcs addr field ∷ es) m = allow_all es (allow_msr addr m)
allow_all (x_rwbk addr ∷ es) m = allow_all es (allow_msr addr m)

unfoldable pub vmx_msr_init_bitmaps : Bytes → Bytes
unfolding memset allow_all
vmx_msr_init_bitmaps m = allow_all vmx_msr_list (
    memset 3072 0xff (page_size / 4) (
      memset 2048 0xff (page_size / 4)
        (memset 1024 0 (page_size / 4) (memset 0 0 (page_size / 4) m))))
