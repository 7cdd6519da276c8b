-- ===== src/Tests/LinuxRuns.antt =====
-- A kernel of 5000 bytes, a guest behind one large page, and the command line "ro".
use rkhv.Base.{
  ℕ, zero, suc, ◌+◌, ◌*◌, ◌%◌, ◌^◌, ◌<◌, ◌≡◌, refl, arith, false, some, List, [], ◌∷◌, ◌==◌,
  if◌then◌else◌,
}
use rkhv.Base.Result.{ok, ◌>>=◌}
use rkhv.Memory.{Memory, page_size, entry}
use rkhv.Memory.Bytes.{load_byte}
use rkhv.Paging.{
  linear_address_get_pml4, linear_address_get_directory_ptr, linear_address_get_directory,
  linear_address_get_table,
}
use rkhv.Text.{str_strlen}
use rkhv.Vm.Msr.{Bytes}
use rkhv.Vm.Ept.{vmx_ept_get_host_physical_address, is_read, is_large, frame}
use rkhv.Vm.GuestPaging.{Guest, host_address}
use rkhv.Vm.Vmcs.Config.{Cpu}
use rkhv.Vm.Linux.ZeroPage.{
  get_header, set_header, zeropage, set_fields, set_setup_sects, copy_header, set_ramdisk,
  set_cmd_line, set_e820_table, image_setup_header_size,
}
use rkhv.Vm.Linux.ZeroPage.Fields.{IsZeroPage, zeropage-IsZeroPage}
use rkhv.Vm.Linux.Kernel.{IsBacked, IsLoaded, pages_of, copy_kernel, copy_kernel-IsLoaded}
use rkhv.Vm.Linux.Checks.{cmdline_byte, memory_too_small-wraps, write_cmdline-cmdline_byte}
use rkhv.Vm.Linux.SetupHeader.{kernel_alignment, pref_address}
use rkhv.Vm.Linux.Loader.{LinuxGuest, memory_too_small, write_cmdline, kernel_offset, load_kernel}
use rkhv.Vm.Linux.Loaded.{kernel_size, IsBeside, IsPrepared, load_kernel-IsPrepared}

-- The PML4 at 0x1000, the PDPT at 0x2000, and a 1 GiB page at 0x40000000.
abbrev tables : Memory
tables w = if w == 0x200 then 0x2007 else if w == 0x400 then 0x40000087 else 0

abbrev guest : Guest
guest = record {
  memory = tables;
  flags = 2;
  eptp = 0x1000;
  guest_physical_pages = 0x4000;
  guest_physical_pages_used_by_initial_setup = 0;
}

abbrev host : ℕ → ℕ
host p = 0x41000000 + p * page_size

abbrev kernel : ℕ → ℕ
kernel i = i % 256

walk :
    (m : Memory) (p : ℕ)
    → p < 2
    → m 0x200 ≡ 0x2007
    → m 0x400 ≡ 0x40000087
    → host_address (record guest { memory = m }) ((0x1000000 + p * page_size) % 2 ^ 64)
      ≡ some (host p)
unfolding host_address vmx_ept_get_host_physical_address entry is_read is_large frame
    linear_address_get_pml4 linear_address_get_directory_ptr linear_address_get_directory
    linear_address_get_table
walk m zero h pml4e pdpte = rw (pml4e, pdpte) refl
walk m (suc zero) h pml4e pdpte = rw (pml4e, pdpte) refl
walk m (suc (suc p)) h pml4e pdpte = absurd (omega (arith, h))

backed : IsBacked 0x1000000 (pages_of 5000) host guest
unfolding pages_of
backed = record {
  aligned = λ p h. omega arith;
  apart = λ p q hp hq differ same. differ (omega (arith, same));
  translates = λ m same p h.
      walk m p h (same 0x200 (λ q hq at. omega (arith, at.0)))
        (same 0x400 (λ q hq at. omega (arith, at.0)));
}

copy_kernel-IsLoaded_example :
    (last : Guest) × (copy_kernel kernel 5000 0x1000000 (pages_of 5000) 0 guest ≡ ok last)
    × IsLoaded kernel 5000 host guest last
copy_kernel-IsLoaded_example = copy_kernel-IsLoaded kernel 5000 0x1000000 host guest backed

-- A guest of 16 MiB and 16 KiB, and an image of 1 GiB.
memory_too_small-wraps_example : memory_too_small 0x1004 516 0x40000000 ≡ false
memory_too_small-wraps_example =
    memory_too_small-wraps 0x1004 516 0x40000000 (omega arith) (omega arith) (omega arith)
      (omega arith)

-- An image whose header has a jump over 0x6a bytes and allows 255 bytes of command line.
abbrev image : Bytes
image i = if i == 0x201 then 0x6a else if i == 0x238 then 255 else 0

abbrev ro : List ℕ
ro = 114 ∷ 111 ∷ 0 ∷ []

write_cmdline-cmdline_byte_example :
    (last : Guest) × (write_cmdline image ro 0x5000 guest ≡ ok last)
    × ((a : ℕ) → load_byte last.memory a ≡ cmdline_byte ro 2 0x5000 guest a)
unfolding get_header str_strlen
write_cmdline-cmdline_byte_example =
    write_cmdline-cmdline_byte image ro 2 0x5000 guest refl (omega arith) (omega arith)

zeropage-IsZeroPage_example : IsZeroPage image 0x4000 0x3dfc000 (zeropage image 0x4000 0x3dfc000)
unfolding image_setup_header_size
zeropage-IsZeroPage_example =
    zeropage-IsZeroPage image 0x4000 0x3dfc000 (omega arith) (omega arith) (omega arith)
      (omega arith)

abbrev cpu : Cpu
cpu = record {
  rdmsr = λ msr. 0;
  cr0 = 0x80000011;
  cr3 = 0x1000;
  cr4 = 0x20;
  gdtr_size = 23;
  gdtr_offset = 0x100;
  idtr_size = 4095;
  idtr_offset = 0x200;
  vmx_vmexit = 0x300;
  gdt = λ table index. record {
    segment_limit_low = 0;
    base_address_low = 0;
    base_address_mid = 0;
    access = 0;
    flags = 0;
    base_address_high = 0;
  };
}

-- An image of 7560 bytes with four sectors of set-up, whose kernel goes to 16 MiB.
abbrev bootable : Bytes
bootable i =
    if i == 0x201
    then 0x6a
    else if i == 0x238
    then 255
    else if i == 0x232
    then 0x20
    else if i == 0x25b
    then 1
    else if i == 0xa00
    then 0xcc
    else 0

abbrev bootable_zeropage : Bytes
bootable_zeropage = zeropage bootable 0x4000 0x3000000

bootable_pages : pages_of (kernel_size bootable_zeropage 7560) ≡ 2
unfolding pages_of kernel_offset zeropage set_fields set_setup_sects copy_header set_ramdisk
    set_cmd_line set_e820_table get_header set_header image_setup_header_size
bootable_pages = refl

bootable_address : get_header pref_address bootable_zeropage ≡ 0x1000000
unfolding zeropage set_fields set_setup_sects copy_header set_ramdisk set_cmd_line set_e820_table
    get_header set_header image_setup_header_size
bootable_address = refl

bootable_alignment : get_header kernel_alignment bootable_zeropage ≡ 0x200000
unfolding zeropage set_fields set_setup_sects copy_header set_ramdisk set_cmd_line set_e820_table
    get_header set_header image_setup_header_size
bootable_alignment = refl

beside :
    IsBeside
      (get_header pref_address bootable_zeropage)
      (pages_of (kernel_size bootable_zeropage 7560))
      host
      0x42000000
      0x43000000
      guest
beside =
    rw (bootable_pages, bootable_address)
      (record {
        zp_aligned = refl;
        cl_aligned = refl;
        zp_cl = λ e. omega (arith, e);
        host_aligned = λ p h. omega arith;
        apart = λ p q hp hq differ same. differ (omega (arith, same));
        host_zp = λ p h e. omega (arith, e, h);
        host_cl = λ p h e. omega (arith, e, h);
        translates = λ m same p h.
            walk m p h
              (same 0x200 (λ at. omega (arith, at.0)) (λ at. omega (arith, at.0))
                (λ q hq at. omega (arith, at.0)))
              (same 0x400 (λ at. omega (arith, at.0)) (λ at. omega (arith, at.0))
                (λ q hq at. omega (arith, at.0)));
      })

load_kernel-IsPrepared_example :
    (last : LinuxGuest) × ((write_cmdline bootable ro 0x43000000 guest
        >>= load_kernel cpu bootable 7560 0x3fff000 0x2000000 0x42000000 0x3000000)
      ≡ ok last)
    × IsPrepared cpu bootable 7560 ro 2 0x3fff000 0x2000000 0x42000000 0x3000000 0x43000000 host
        guest last
unfolding get_header str_strlen
load_kernel-IsPrepared_example =
    load_kernel-IsPrepared cpu bootable 7560 ro 2 0x3fff000 0x2000000 0x42000000 0x3000000
      0x43000000 host guest refl (omega arith) (omega arith) (rw bootable_alignment (omega arith))
      (rw (bootable_alignment, bootable_address) refl) beside
