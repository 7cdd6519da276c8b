-- ===== src/Vm/Linux/Loader.antt =====
-- vm_guest_linux_loader of hv/src/vmm/guest_linux_loader.c. The image is the bytes from its
-- address on, the command line a list of bytes up to its terminator or further.
use rkhv.Base.{
  ℕ, zero, suc, ◌+◌, ◌-◌, ◌*◌, ◌/◌, ◌%◌, ◌^◌, bit_and, Bool, ◌||◌, not, none, some, List, [], ◌∷◌,
  ltb, leb, ◌==◌, nonzero, if◌then◌else◌,
}
use rkhv.Base.Result.{
  Panic, Result, ok, panic, out_of_bounds, ◌>>=◌, guest_cr3_set, linux_magic, linux_64_bit_entry,
  zeropage_ept_walk, cmdline_ept_walk, guest_memory_too_small, cmdline_too_long,
  pref_address_unaligned,
}
use rkhv.Memory.{page_size}
use rkhv.Memory.Bytes.{memcpy}
use rkhv.Text.{str_strlen}
use rkhv.Interrupts.{rkhv_cs}
use rkhv.Vm.Msr.{Bytes}
use rkhv.Vm.GuestPaging.{Guest, host_address}
use rkhv.Vm.GuestPaging.Setup.{vm_guest_paging_setup_identity}
use rkhv.Vm.Vmcs.Config.{Cpu, GuestState}
use rkhv.Vm.Vmcs.Constants.{ia32_efer, rkhv_ds}
use rkhv.Vm.Linux.SetupHeader.{
  header, xloadflags, cmdline_size, setup_sects, pref_address, kernel_alignment,
}
use rkhv.Vm.Linux.ZeroPage.{get_header, zeropage}
use rkhv.Vm.Linux.Kernel.{pages_of, copy_kernel}

-- What the loader uses of vm_t; `rsi` is that of initial_gpr_state.
pub record LinuxGuest : Type 0 where
  pub guest : Guest
  pub guest_state : GuestState
  pub rsi : ℕ

-- The highest guest page that the initial setup has not used: its guest physical address, the
-- host physical address, and the guest with one more page in use.
unfoldable pub take_top_page : Panic → Guest → Result (ℕ × ℕ × Guest)
take_top_page reason g =
    let used = g.guest_physical_pages_used_by_initial_setup in
    let guestpa = (g.guest_physical_pages + 2 ^ 65 - used - 1) % 2 ^ 64 * page_size % 2 ^ 64 in
    elim (host_address g guestpa) [
      | none ↦ panic reason
      | some hostpa ↦ ok (
        guestpa,
        hostpa,
        record g { guest_physical_pages_used_by_initial_setup = (used + 1) % 2 ^ 64 },
      )
    ]

unfoldable pub check_header : Bytes → Result Bytes
check_header image =
    if not (get_header header image == 0x53726448)
    then panic linux_magic
    else if not (bit_and (get_header xloadflags image) 1 == 1)
    then panic linux_64_bit_entry
    else ok image

-- The condition of the PANIC about too little memory; `-` on a size_t goes round.
unfoldable pub memory_too_small : ℕ → ℕ → ℕ → Bool
memory_too_small guest_physical_pages used image_size =
    leb guest_physical_pages (0x1000000 / page_size)
    || leb ((guest_physical_pages + 2 ^ 65 - used - 0x1000000 / page_size) % 2 ^ 64)
        (image_size / page_size)

-- The byte of a text at an index.
unfoldable pub char_at : List ℕ → ℕ → ℕ
char_at [] i = 0
char_at (c ∷ s) zero = c
char_at (c ∷ s) (suc i) = char_at s i

-- The check of the length, the copy and the terminator.
unfoldable pub write_cmdline : Bytes → List ℕ → ℕ → Guest → Result Guest
write_cmdline image cmdline cmdline_page_hostpa g = elim (str_strlen cmdline) [
  | none ↦ out_of_bounds
  | some cmdline_len ↦
      if ltb (get_header cmdline_size image) cmdline_len || ltb page_size cmdline_len
      then panic cmdline_too_long
      else ok (record g {
        memory =
            memcpy (cmdline_page_hostpa + cmdline_len) (λ k. 0) 1
              (memcpy cmdline_page_hostpa (char_at cmdline) cmdline_len g.memory);
      })
]

-- `pref_address % kernel_alignment != 0`, which C leaves undefined for an alignment of 0.
unfoldable pub check_alignment : Bytes → Result Bytes
check_alignment z =
    if get_header kernel_alignment z == 0
    then out_of_bounds
    else if nonzero (get_header pref_address z % get_header kernel_alignment z)
    then panic pref_address_unaligned
    else ok z

-- The registers that the guest starts with.
unfoldable pub entry_state : Cpu → ℕ → ℕ → GuestState
entry_state cpu cr3 protected_kernel_guestpa = record {
  rip = (protected_kernel_guestpa + 0x200) % 2 ^ 64;
  rsp = 0;
  cr0 = cpu.cr0;
  cr3 = cr3;
  cr4 = cpu.cr4;
  ia32_efer = cpu.rdmsr ia32_efer;
  cs = rkhv_cs;
  ds = rkhv_ds;
  gdtr_size = cpu.gdtr_size;
  gdtr_offset = cpu.gdtr_offset;
  idtr_size = cpu.idtr_size;
  idtr_offset = cpu.idtr_offset;
}

-- image_protected_kernel - image
unfoldable pub kernel_offset : Bytes → ℕ
kernel_offset z = (get_header setup_sects z + 1) * 512

-- From the zeropage on, with the addresses of its page and of that of the command line.
unfoldable pub load_kernel : Cpu → Bytes → ℕ → ℕ → ℕ → ℕ → ℕ → Guest → Result LinuxGuest
load_kernel cpu image image_size cr3 zeropage_guestpa zeropage_hostpa cmdline_page_guestpa g =
    let z = zeropage image g.guest_physical_pages cmdline_page_guestpa in
    let size = (image_size + 2 ^ 64 - kernel_offset z) % 2 ^ 64 in
    check_alignment z >>= λ _.
    copy_kernel (λ k. image (kernel_offset z + k)) size (get_header pref_address z) (pages_of size)
      0 (record g { memory = memcpy zeropage_hostpa z page_size g.memory })
    >>= λ last. ok (record {
      guest = last;
      guest_state = entry_state cpu cr3 (get_header pref_address z);
      rsi = zeropage_guestpa;
    })

unfoldable pub vm_guest_linux_loader : Cpu → Bytes → ℕ → List ℕ → LinuxGuest → Result LinuxGuest
vm_guest_linux_loader cpu image image_size cmdline vm =
    if nonzero vm.guest_state.cr3
    then panic guest_cr3_set
    else vm_guest_paging_setup_identity vm.guest >>= λ identity. check_header image >>= λ _.
        take_top_page zeropage_ept_walk identity.1 >>= λ zero_page.
        take_top_page cmdline_ept_walk zero_page.2 >>= λ cmdline_page.
        (let g = cmdline_page.2 in
          if memory_too_small g.guest_physical_pages g.guest_physical_pages_used_by_initial_setup
            image_size
          then panic guest_memory_too_small
          else write_cmdline image cmdline cmdline_page.1 g >>= λ written.
              load_kernel cpu image image_size identity.0 zero_page.0 zero_page.1 cmdline_page.0
                written)
