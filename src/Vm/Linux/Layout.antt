-- ===== src/Vm/Linux/Layout.antt =====
-- Where vm_guest_linux_loader, hv/src/vmm/guest_linux_loader.c, puts what it adds to a guest, and
-- what holds of an image that it accepts.
use rkhv.Base.{
  subst, ℕ, ◌-◌, ◌*◌, ◌^◌, ◌<◌, ◌≡◌, refl, ap, ◌∙◌, arith, bit_and, false, List, nonzero,
}
use rkhv.Base.Result.{
  ok, >>=-eq-ok, if-eq-ok, zeropage_ept_walk, cmdline_ept_walk, guest_cr3_set,
  guest_memory_too_small,
}
use rkhv.Memory.{page_size}
use rkhv.Vm.Msr.{Bytes}
use rkhv.Vm.GuestPaging.{Guest}
use rkhv.Vm.GuestPaging.Setup.{vm_guest_paging_setup_identity}
use rkhv.Vm.Vmcs.Config.{Cpu, GuestState}
use rkhv.Vm.Linux.SetupHeader.{header, xloadflags, pref_address}
use rkhv.Vm.Linux.ZeroPage.{get_header, zeropage}
use rkhv.Vm.Linux.Loader.{
  LinuxGuest, take_top_page, check_header, memory_too_small, write_cmdline, entry_state,
  load_kernel, vm_guest_linux_loader,
}
use rkhv.Vm.Linux.Pages.{
  setup_identity-Pages, take_top_page-Pages, check_header-ok, write_cmdline-Pages,
  load_kernel-Pages,
}

-- The guest that a successful call leaves. From the top of its memory down stand the identity
-- tables (514 pages), the zeropage and the command line.
pub record IsStarted (cpu : Cpu) (image : Bytes) (vm last : LinuxGuest) : Type 0 where
  pub fresh : nonzero vm.guest_state.cr3 ≡ false
  pub magic : get_header header image ≡ 0x53726448
  pub entry_64 : bit_and (get_header xloadflags image) 1 ≡ 1
  pub enough : 0x1000 < vm.guest.guest_physical_pages
  pub in_use : last.guest.guest_physical_pages_used_by_initial_setup ≡ 516
  pub tables : last.guest_state.cr3 ≡ (vm.guest.guest_physical_pages - 1) * page_size
  pub zero_page : last.rsi ≡ (vm.guest.guest_physical_pages - 515) * page_size
  pub entry_point :
      last.guest_state
      ≡ entry_state cpu last.guest_state.cr3 (
          get_header pref_address (
            zeropage image vm.guest.guest_physical_pages
              ((vm.guest.guest_physical_pages - 516) * page_size)))

memory_too_small-above :
    (pages used image_size : ℕ) → memory_too_small pages used image_size ≡ false → 0x1000 < pages
unfolding memory_too_small
memory_too_small-above pages used image_size large = ground arith

entry_state-cr3 : (cpu : Cpu) (cr3 entry : ℕ) → (entry_state cpu cr3 entry).cr3 ≡ cr3
unfolding entry_state
entry_state-cr3 cpu cr3 entry = refl

started :
    (cpu : Cpu) (image : Bytes) (image_size pages cr3 zp zp_host cl cl_host : ℕ) (cmdline : List ℕ)
    (vm last : LinuxGuest) (g₁ g₂ g₃ g₄ : Guest)
    → pages ≡ vm.guest.guest_physical_pages
    → pages < 2 ^ 52
    → nonzero vm.guest_state.cr3 ≡ false
    → vm_guest_paging_setup_identity vm.guest ≡ ok (cr3, g₁)
    → (get_header header image ≡ 0x53726448) × (bit_and (get_header xloadflags image) 1 ≡ 1)
    → take_top_page zeropage_ept_walk g₁ ≡ ok (zp, zp_host, g₂)
    → take_top_page cmdline_ept_walk g₂ ≡ ok (cl, cl_host, g₃)
    → memory_too_small g₃.guest_physical_pages g₃.guest_physical_pages_used_by_initial_setup
        image_size
      ≡ false
    → write_cmdline image cmdline cl_host g₃ ≡ ok g₄
    → load_kernel cpu image image_size cr3 zp zp_host cl g₄ ≡ ok last
    → IsStarted cpu image vm last
started cpu image image_size pages cr3 zp zp_host cl cl_host cmdline vm last g₁ g₂ g₃ g₄ same fits
      fresh set_up accepted took took_too large wrote loaded =
    let (v₁, cr3_at) = setup_identity-Pages vm.guest g₁ cr3 set_up in
    let (v₂, zp_at) =
      take_top_page-Pages _ g₁ g₂ zp zp_host vm.guest.guest_physical_pages 514 v₁ (omega arith)
        took in
    let (v₃, cl_at) =
      take_top_page-Pages _ g₂ g₃ cl cl_host vm.guest.guest_physical_pages 515 v₂ (omega arith)
        took_too in
    let above : 0x1000 < vm.guest.guest_physical_pages =
      subst (λ n. 0x1000 < n) v₃.0 (memory_too_small-above _ _ image_size large) in
    let v₄ =
      write_cmdline-Pages image cmdline cl_host vm.guest.guest_physical_pages 516 g₃ g₄ v₃ wrote in
    let (v₅, state, rsi) =
      load_kernel-Pages cpu image image_size cr3 zp zp_host cl vm.guest.guest_physical_pages 516 g₄
        last v₄ loaded in
    let cr3_is : last.guest_state.cr3 ≡ cr3 =
      ap (λ (t : GuestState). t.cr3) state ∙ entry_state-cr3 cpu cr3 _ in
    let cl_is : cl ≡ (vm.guest.guest_physical_pages - 516) * page_size =
      omega (arith, cl_at, above, fits, same) in
    record {
      fresh = fresh;
      magic = accepted.0;
      entry_64 = accepted.1;
      enough = above;
      in_use = v₅.1;
      tables = cr3_is ∙ omega (arith, cr3_at, above, fits, same);
      zero_page = rsi ∙ omega (arith, zp_at, above, fits, same);
      entry_point = state ∙ rw (cr3_is, ← cl_is, v₄.0) refl;
    }

-- A call that comes back, for fewer than 2^52 pages, leaves such a guest.
pub vm_guest_linux_loader-IsStarted :
    (cpu : Cpu) (image : Bytes) (image_size : ℕ) (cmdline : List ℕ) (vm last : LinuxGuest)
    → vm.guest.guest_physical_pages < 2 ^ 52
    → vm_guest_linux_loader cpu image image_size cmdline vm ≡ ok last
    → IsStarted cpu image vm last
unfolding vm_guest_linux_loader
vm_guest_linux_loader-IsStarted cpu image image_size cmdline vm last fits done =
    let (fresh, s₀) = if-eq-ok _ guest_cr3_set _ done in
    let (identity, set_up, s₁) = >>=-eq-ok (vm_guest_paging_setup_identity vm.guest) _ s₀ in
    let (checked, accepted, s₂) = >>=-eq-ok (check_header image) _ s₁ in
    let (zero_page, took, s₃) = >>=-eq-ok (take_top_page zeropage_ept_walk identity.1) _ s₂ in
    let (cmdline_page, took_too, s₄) =
      >>=-eq-ok (take_top_page cmdline_ept_walk zero_page.2) _ s₃ in
    let (large, s₅) = if-eq-ok _ guest_memory_too_small _ s₄ in
    let (written, wrote, loaded) =
      >>=-eq-ok (write_cmdline image cmdline cmdline_page.1 cmdline_page.2) _ s₅ in
    started cpu image image_size vm.guest.guest_physical_pages identity.0 zero_page.0 zero_page.1
      cmdline_page.0 cmdline_page.1 cmdline vm last identity.1 zero_page.2 cmdline_page.2 written
      refl fits fresh set_up (check_header-ok image checked accepted) took took_too large wrote
      loaded
