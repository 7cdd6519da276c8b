-- ===== src/Vm/Linux/Pages.antt =====
-- The steps of vm_guest_linux_loader, hv/src/vmm/guest_linux_loader.c, one by one: the pages of the
-- guest that they take, and what they return.
use rkhv.Base.{
  subst, ℕ, zero, suc, ◌+◌, ◌-◌, ◌*◌, ◌%◌, ◌^◌, ◌<◌, ◌≡◌, refl, sym, ◌∙◌, ap, arith, bit_and, ◌||◌,
  List, ltb, ◌==◌, nonzero, Bool-cases, Option-cases, inl, inr,
}
use rkhv.Base.Result.{Panic, Result, ok, >>=-eq-ok, ok-inj}
use rkhv.Memory.{page_size}
use rkhv.Memory.Bytes.{memcpy}
use rkhv.Text.{str_strlen}
use rkhv.Paging.{page_table_entries}
use rkhv.Vm.Msr.{Bytes}
use rkhv.Vm.GuestPaging.{Guest, host_address}
use rkhv.Vm.GuestPaging.Setup.{vm_guest_paging_setup_identity, fill_pdpt, get_hostva}
use rkhv.Vm.Vmcs.Config.{Cpu}
use rkhv.Vm.Linux.SetupHeader.{header, xloadflags, pref_address, cmdline_size}
use rkhv.Vm.Linux.ZeroPage.{get_header, zeropage}
use rkhv.Vm.Linux.Kernel.{copy_page, copy_kernel, pages_of}
use rkhv.Vm.Linux.Loader.{
  LinuxGuest, take_top_page, check_header, write_cmdline, check_alignment, entry_state, load_kernel,
  kernel_offset,
}

-- The pages of a guest, and those in use.
abbrev pub Pages : ℕ → ℕ → Guest → Type 0
Pages pages used g =
    (g.guest_physical_pages ≡ pages) × (g.guest_physical_pages_used_by_initial_setup ≡ used)

fill_pdpt-Pages :
    (pdpt_guestpa pdpt_host rounds pdpt_index pages used : ℕ) (g last : Guest)
    → Pages pages used g
    → fill_pdpt pdpt_guestpa pdpt_host rounds pdpt_index g ≡ ok last
    → Pages pages (used + rounds) last
unfolding fill_pdpt
fill_pdpt-Pages pdpt_guestpa pdpt_host zero pdpt_index pages used g last v done =
    subst (Pages pages (used + 0)) (ok-inj done) (v.0, omega (arith, v.1))
fill_pdpt-Pages pdpt_guestpa pdpt_host (suc rounds) pdpt_index pages used g last v done =
    let (pd, walked, filled) =
      >>=-eq-ok (get_hostva g ((pdpt_guestpa + 2 ^ 64 - (pdpt_index + 1) * page_size) % 2 ^ 64)) _
        done in
    let (a, b) =
      fill_pdpt-Pages pdpt_guestpa pdpt_host rounds (pdpt_index + 1) pages (used + 1) _ last
        (v.0, omega (arith, v.1)) filled in
    (a, omega (arith, b))

abbrev pml4_of : Guest → ℕ
pml4_of g = (g.guest_physical_pages - 1) * page_size % 2 ^ 64

abbrev pdpt_of : Guest → ℕ
pdpt_of g = (pml4_of g + 2 ^ 64 - page_size) % 2 ^ 64

abbrev top_of : Guest → ℕ
top_of g =
    (g.guest_physical_pages + 2 ^ 65 - g.guest_physical_pages_used_by_initial_setup - 1)
    % 2 ^ 64
    * page_size
    % 2 ^ 64

returned :
    (address cr3 : ℕ) (g last : Guest) (pages used : ℕ)
    → ◌≡◌ {A = Result (ℕ × Guest)} (ok (address, g)) (ok (cr3, last))
    → Pages pages used g
    → Pages pages used last × (cr3 ≡ address)
returned address cr3 g last pages used done v =
    let whole : ◌≡◌ {A = ℕ × Guest} (address, g) (cr3, last) = ok-inj done in
    (
      subst (Pages pages used) (ap (λ (x : ℕ × Guest). x.1) whole) v,
      ap (λ (x : ℕ × Guest). x.0) (sym whole),
    )

pub setup_identity-Pages :
    (g last : Guest) (cr3 : ℕ)
    → vm_guest_paging_setup_identity g ≡ ok (cr3, last)
    → Pages g.guest_physical_pages (2 + page_table_entries) last
      × (cr3 ≡ (g.guest_physical_pages - 1) * page_size % 2 ^ 64)
unfolding vm_guest_paging_setup_identity
setup_identity-Pages g last cr3 done = elim (Bool-cases (g.guest_physical_pages == 0)) [
  | inl empty ↦ absurd (cc (rw empty at done))
  | inr given ↦ elim (Bool-cases (nonzero g.guest_physical_pages_used_by_initial_setup)) [
    | inl taken ↦ absurd (cc (rw (given, taken) at done))
    | inr fresh ↦
        let (pml4_host, first, rest) =
          >>=-eq-ok (get_hostva g (pml4_of g)) _ (rw (given, fresh) at done) in
        let (pdpt_host, second, then_fill) = >>=-eq-ok (get_hostva g (pdpt_of g)) _ rest in
        let (filled, ran, last_step) =
          >>=-eq-ok
            (fill_pdpt (pdpt_of g) pdpt_host page_table_entries 0
              (record g { guest_physical_pages_used_by_initial_setup = 2 }))
            _ then_fill in
        returned (pml4_of g) cr3 _ last g.guest_physical_pages 514 last_step (
          fill_pdpt-Pages (pdpt_of g) pdpt_host page_table_entries 0 g.guest_physical_pages 2 _
            filled (refl, refl) ran)
  ]
]

pub take_top_page-Pages :
    (reason : Panic) (g h : Guest) (guestpa hostpa pages used : ℕ)
    → Pages pages used g
    → used < 2 ^ 32
    → take_top_page reason g ≡ ok (guestpa, hostpa, h)
    → Pages pages (used + 1) h
      × (guestpa ≡ (pages + 2 ^ 65 - used - 1) % 2 ^ 64 * page_size % 2 ^ 64)
unfolding take_top_page
take_top_page-Pages reason g h guestpa hostpa pages used v few done =
    elim (Option-cases (host_address g (top_of g))) [
      | inl e ↦ absurd (cc (rw (take_top_page, e) at done))
      | inr (p, e) ↦
          let whole : ◌≡◌ {A = ℕ × ℕ × Guest}
              (
                top_of g,
                p,
                record g {
                  guest_physical_pages_used_by_initial_setup =
                      (g.guest_physical_pages_used_by_initial_setup + 1) % 2 ^ 64;
                },
              )
              (guestpa, hostpa, h) =
            ok-inj (rw (take_top_page, e) at done) in
          (
            (
              ap (λ (x : ℕ × ℕ × Guest). (x.2).guest_physical_pages) (sym whole) ∙ v.0,
              ap (λ (x : ℕ × ℕ × Guest). (x.2).guest_physical_pages_used_by_initial_setup)
                    (sym whole)
                  ∙ omega (arith, v.1, few),
            ),
            ap (λ (x : ℕ × ℕ × Guest). x.0) (sym whole) ∙ rw (v.0, v.1) refl,
          )
    ]

copy_kernel-Pages :
    (image : ℕ → ℕ) (size guestpa rounds page pages used : ℕ) (g last : Guest)
    → Pages pages used g
    → copy_kernel image size guestpa rounds page g ≡ ok last
    → Pages pages used last
unfolding copy_kernel copy_page
copy_kernel-Pages image size guestpa zero page pages used g last v done =
    subst (Pages pages used) (ok-inj done) v
copy_kernel-Pages image size guestpa (suc rounds) page pages used g last v done =
    elim (Option-cases (host_address g ((guestpa + page * page_size) % 2 ^ 64))) [
      | inl e ↦ absurd (cc (rw (copy_kernel, e) at done))
      | inr (hostpa, e) ↦
          copy_kernel-Pages image size guestpa rounds (page + 1) pages used _ last v
            (rw (copy_kernel, e) at done)
    ]

pub check_header-ok :
    (image z : Bytes)
    → check_header image ≡ ok z
    → (get_header header image ≡ 0x53726448) × (bit_and (get_header xloadflags image) 1 ≡ 1)
unfolding check_header
check_header-ok image z done = ground arith

pub write_cmdline-Pages :
    (image : Bytes) (cmdline : List ℕ) (page pages used : ℕ) (g last : Guest)
    → Pages pages used g
    → write_cmdline image cmdline page g ≡ ok last
    → Pages pages used last
unfolding write_cmdline
write_cmdline-Pages image cmdline page pages used g last v done =
    elim (Option-cases (str_strlen cmdline)) [
      | inl e ↦ absurd (cc (rw (write_cmdline, e) at done))
      | inr (n, e) ↦ elim (Bool-cases (ltb (get_header cmdline_size image) n || ltb page_size n)) [
        | inl long ↦ absurd (cc (rw (write_cmdline, e, long) at done))
        | inr short ↦ subst (Pages pages used) (ok-inj (rw (write_cmdline, e, short) at done)) v
      ]
    ]

pub load_kernel-Pages :
    (cpu : Cpu) (image : Bytes) (image_size cr3 zp zp_host cl pages used : ℕ) (g : Guest)
    (last : LinuxGuest)
    → Pages pages used g
    → load_kernel cpu image image_size cr3 zp zp_host cl g ≡ ok last
    → Pages pages used last.guest
      × (last.guest_state
          ≡ entry_state cpu cr3
              (get_header pref_address (zeropage image g.guest_physical_pages cl)))
      × (last.rsi ≡ zp)
unfolding load_kernel
load_kernel-Pages cpu image image_size cr3 zp zp_host cl pages used g last v done =
    let z = zeropage image g.guest_physical_pages cl in
    let size = (image_size + 2 ^ 64 - kernel_offset z) % 2 ^ 64 in
    let (checked, aligned, copying) = >>=-eq-ok (check_alignment z) _ done in
    let (copied, ran, ended) =
      >>=-eq-ok
        (copy_kernel (λ k. image (kernel_offset z + k)) size (get_header pref_address z)
          (pages_of size) 0 (record g { memory = memcpy zp_host z page_size g.memory }))
        _ copying in
    let whole = ok-inj ended in
    let counts = copy_kernel-Pages _ _ _ _ _ pages used _ copied v ran in
    (
      subst (Pages pages used) (ap (λ (x : LinuxGuest). x.guest) whole) counts,
      ap (λ (x : LinuxGuest). x.guest_state) (sym whole),
      ap (λ (x : LinuxGuest). x.rsi) (sym whole),
    )
