-- ===== src/Vm/Linux/Checks.antt =====
-- The checks of vm_guest_linux_loader, hv/src/vmm/guest_linux_loader.c: the size of the guest's
-- memory and the length of the command line.
use rkhv.Base.{
  ℕ, ◌+◌, ◌-◌, ◌%◌, ◌^◌, ◌≤◌, ◌<◌, ◌≡◌, refl, arith, ◌&&◌, ◌||◌, false, some, List, ltb, leb, ◌==◌,
  if◌then◌else◌, Bool-cases, inl, inr,
}
use rkhv.Base.Result.{ok}
use rkhv.Memory.{page_size}
use rkhv.Memory.Bytes.{load_byte, memcpy, copied_byte, in_range, load_byte-memcpy}
use rkhv.Text.{str_strlen}
use rkhv.Vm.Msr.{Bytes}
use rkhv.Vm.GuestPaging.{Guest}
use rkhv.Vm.Linux.SetupHeader.{cmdline_size}
use rkhv.Vm.Linux.ZeroPage.{get_header}
use rkhv.Vm.Linux.Loader.{memory_too_small, char_at, write_cmdline}

-- For a guest with more than 16 MiB, but with fewer pages above them than the setup has used, the
-- subtraction goes round, and an image of any size passes the check.
pub memory_too_small-wraps :
    (guest_physical_pages used image_size : ℕ)
    → 0x1000 < guest_physical_pages
    → guest_physical_pages < used + 0x1000
    → used < 2 ^ 32
    → image_size < 2 ^ 64
    → memory_too_small guest_physical_pages used image_size ≡ false
unfolding memory_too_small
memory_too_small-wraps guest_physical_pages used image_size above below few fits = ground arith

-- The bytes of memory after a command line of length `n` was written to `page`.
unfoldable pub cmdline_byte : List ℕ → ℕ → ℕ → Guest → ℕ → ℕ
cmdline_byte cmdline n page g a =
    if leb page a && ltb a (page + n)
    then char_at cmdline (a - page) % 256
    else if a == page + n
    then 0
    else load_byte g.memory a

-- A command line of at most a page and at most the header's limit is accepted; memory then has the
-- bytes of cmdline_byte, where a line of a whole page has its terminator behind the page.
pub write_cmdline-cmdline_byte :
    (image : Bytes) (cmdline : List ℕ) (n page : ℕ) (g : Guest)
    → str_strlen cmdline ≡ some n
    → n ≤ get_header cmdline_size image
    → n ≤ page_size
    → (last : Guest) × (write_cmdline image cmdline page g ≡ ok last)
      × ((a : ℕ) → load_byte last.memory a ≡ cmdline_byte cmdline n page g a)
unfolding write_cmdline cmdline_byte copied_byte in_range
write_cmdline-cmdline_byte image cmdline n page g len short fits = (
  record g { memory = memcpy (page + n) (λ k. 0) 1 (memcpy page (char_at cmdline) n g.memory) },
  rw (write_cmdline, len)
      (elim (Bool-cases (ltb (get_header cmdline_size image) n || ltb page_size n)) [
        | inl long ↦ absurd (ground arith)
        | inr accepted ↦ rw accepted refl
      ]),
  λ a.
      rw
        (
          load_byte-memcpy (page + n) 1 (λ k. 0) (memcpy page (char_at cmdline) n g.memory) a,
          load_byte-memcpy page n (char_at cmdline) g.memory a,
        )
        (ground arith),
)
