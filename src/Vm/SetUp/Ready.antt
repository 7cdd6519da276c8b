-- ===== src/Vm/SetUp/Ready.antt =====
-- The processor after xsave_setup, hv/src/xsave.c, and vmx_setup, hv/src/vmm/vmx_init.c, in the
-- order of hvmain, hv/src/main.c.
use Prim.Native.Nat.{max}
use rkhv.Base.{
  ℕ, ◌+◌, ◌*◌, ◌/◌, ◌%◌, ◌^◌, ◌≡◌, refl, ap, arith, bit_and, bit_or, Bool, true, false, ◌&&◌, leb,
  ltb, ◌==◌, nonzero, Bool-cases, inl, inr,
}
use rkhv.Base.Bits.{bit_and_low, bit_and_field, bit_or_fields}
use rkhv.Base.Result.{
  vmx_assert, xsave_area_size_changed, vmcs_region_size, ept_page_walk_length, ept_write_back,
  Panic, Result, ok, panic, out_of_bounds, ◌>>=◌, Result-cases,
}
use rkhv.Mm.VmxPages.{VmxPages, vmx_get_vmxon_region, ia32_vmx_basic}
use rkhv.Vm.Exit.{CpuidRegs, cr4_vmxe}
use rkhv.Vm.SetUp.{
  Control, Xsave, xsave_setup, vmx_setup, set_up, cr4_osfxsr, cr4_osxsave, ia32_vmx_ept_vpid_cap,
}
use rkhv.Vm.Vmcs.Bits.{bit, bit-bit_or}

region_size_lem : (x : ℕ) → bit_and x 0x1fff ≡ x % 2 ^ 13
region_size_lem x = bit_and_low 13 x

walk_length_lem : (x : ℕ) → nonzero (bit_and x (2 ^ 6)) ≡ (x / 2 ^ 6 % 2 == 1)
walk_length_lem x = ground (arith, bit_and_field 6 1 x)

write_back_lem : (x : ℕ) → nonzero (bit_and x (2 ^ 14)) ≡ (x / 2 ^ 14 % 2 == 1)
write_back_lem x = ground (arith, bit_and_field 14 1 x)

-- What the hypervisor needs of VMX on the processor.
abbrev pub is_supported : (ℕ → ℕ) → Bool
is_supported rdmsr =
    leb (rdmsr ia32_vmx_basic / 2 ^ 32 % 2 ^ 13) 4096
    && ((rdmsr ia32_vmx_ept_vpid_cap / 2 ^ 6 % 2 == 1)
        && (rdmsr ia32_vmx_ept_vpid_cap / 2 ^ 14 % 2 == 1))

-- CPUID reports with the new XCR0 the size that it reported as the greatest.
abbrev pub is_constant : (ℕ → CpuidRegs) → ℕ → Bool
is_constant cpuid xcr0 =
    (cpuid xcr0).c % 2 ^ 32
    == (cpuid ((cpuid xcr0).d % 2 ^ 32 * 2 ^ 32 + (cpuid xcr0).a % 2 ^ 32)).b % 2 ^ 32

-- VMXON accepts the page that is given for it.
abbrev pub is_on : {R : Type 0} → (ℕ → Bool) → Result (ℕ × VmxPages × R) → Bool
is_on vmxon (ok region) = vmxon region.0
is_on vmxon (panic p) = false
is_on vmxon out_of_bounds = false

pub record IsReady (rdmsr : ℕ → ℕ) (cpuid : ℕ → CpuidRegs) (s t : Control) (x : Xsave)
    : Type 0 where
  pub cr4 :
      (k : ℕ)
      → bit k t.cr4
        ≡ max (max (max (bit k s.cr4) (bit k cr4_osfxsr)) (bit k cr4_osxsave)) (bit k cr4_vmxe)
  pub xcr0 : t.xcr0 ≡ x.xsave_host_xcr0
  pub accepted : x.xsave_host_xcr0 ≡ (cpuid s.xcr0).d % 2 ^ 32 * 2 ^ 32 + (cpuid s.xcr0).a % 2 ^ 32
  pub size : x.xsave_area_size ≡ (cpuid t.xcr0).b % 2 ^ 32
  pub supported : is_supported rdmsr ≡ true

-- XCR0 with everything that CPUID accepts.
abbrev all_features : CpuidRegs → ℕ
all_features r = r.d % 2 ^ 32 * 2 ^ 32 + r.a % 2 ^ 32

all_features_lem : (r : CpuidRegs) → bit_or (r.d % 2 ^ 32 * 2 ^ 32) (r.a % 2 ^ 32) ≡ all_features r
all_features_lem r = bit_or_fields 32 (r.d % 2 ^ 32) (r.a % 2 ^ 32) (omega arith)

abbrev with_xsave : (ℕ → CpuidRegs) → Control → Control
with_xsave cpuid s = record {
  cr4 = bit_or (bit_or s.cr4 cr4_osfxsr) cr4_osxsave;
  xcr0 = all_features (cpuid s.xcr0);
}

xsave_setup-constant :
    (cpuid : ℕ → CpuidRegs) (s : Control)
    → is_constant cpuid s.xcr0 ≡ true
    → xsave_setup cpuid s
      ≡ ok (
        with_xsave cpuid s,
        record {
          xsave_host_xcr0 = all_features (cpuid s.xcr0);
          xsave_area_size = (cpuid s.xcr0).c % 2 ^ 32;
        },
      )
unfolding xsave_setup
xsave_setup-constant cpuid s constant = rw (all_features_lem (cpuid s.xcr0), constant) refl

xsave_setup-panic :
    (cpuid : ℕ → CpuidRegs) (s : Control)
    → is_constant cpuid s.xcr0 ≡ false
    → (p : Panic) × (xsave_setup cpuid s ≡ panic p)
unfolding xsave_setup
xsave_setup-panic cpuid s changed =
    (xsave_area_size_changed, rw (all_features_lem (cpuid s.xcr0), changed) refl)

cr4_lem :
    (k cr4 : ℕ)
    → bit k (bit_or (bit_or (bit_or cr4 cr4_osfxsr) cr4_osxsave) cr4_vmxe)
      ≡ max (max (max (bit k cr4) (bit k cr4_osfxsr)) (bit k cr4_osxsave)) (bit k cr4_vmxe)
cr4_lem k cr4 = rw (bit-bit_or, bit-bit_or, bit-bit_or) refl

module _ {R : Type 0} (mm_get_free_page : R → Result (ℕ × R)) (rdmsr : ℕ → ℕ) (vmxon : ℕ → Bool)
    (cpuid : ℕ → CpuidRegs) where
  -- The page that VMXON was given, and accepted, with the state after it was taken.
  pub record IsOn (pages pages' : VmxPages) (r r' : R) : Type 0 where
    pub page : ℕ
    pub given : vmx_get_vmxon_region mm_get_free_page rdmsr pages r ≡ ok (page, pages', r')
    pub accepted : vmxon page ≡ true

  abbrev pub Outcome : Control → VmxPages → R → Result (Control × VmxPages × R × Xsave) → Type 0
  Outcome s pages r (ok v) = IsReady rdmsr cpuid s v.0 v.3 × IsOn pages v.1 r v.2
  Outcome s pages r (panic p) =
      (is_constant cpuid s.xcr0
        && (is_supported rdmsr
            && is_on vmxon (vmx_get_vmxon_region mm_get_free_page rdmsr pages r)))
      ≡ false
  Outcome s pages r out_of_bounds =
      is_on vmxon (vmx_get_vmxon_region mm_get_free_page rdmsr pages r) ≡ false

  vmx_setup-supported :
      (s : Control) (pages : VmxPages) (r : R)
      → is_supported rdmsr ≡ true
      → vmx_setup mm_get_free_page rdmsr vmxon s pages r ≡ (
          vmx_get_vmxon_region mm_get_free_page rdmsr pages r >>= λ region.
          vmx_assert
            (vmxon region.0)
            (record s { cr4 = bit_or s.cr4 cr4_vmxe }, region.1, region.2))
  unfolding vmx_setup
  vmx_setup-supported s pages r supported =
      let size : ltb 4096 (bit_and (rdmsr ia32_vmx_basic / 2 ^ 32) 0x1fff) ≡ false =
        rw (region_size_lem (rdmsr ia32_vmx_basic / 2 ^ 32)) (ground arith) in
      let length : nonzero (bit_and (rdmsr ia32_vmx_ept_vpid_cap) (2 ^ 6)) ≡ true =
        rw (walk_length_lem (rdmsr ia32_vmx_ept_vpid_cap)) (ground arith) in
      let kind : nonzero (bit_and (rdmsr ia32_vmx_ept_vpid_cap) (2 ^ 14)) ≡ true =
        rw (write_back_lem (rdmsr ia32_vmx_ept_vpid_cap)) (ground arith) in
      rw (size, length, kind) refl

  vmx_setup-panic :
      (s : Control) (pages : VmxPages) (r : R)
      → is_supported rdmsr ≡ false
      → (p : Panic) × (vmx_setup mm_get_free_page rdmsr vmxon s pages r ≡ panic p)
  unfolding vmx_setup
  vmx_setup-panic s pages r unsupported =
      rw
        (
          region_size_lem (rdmsr ia32_vmx_basic / 2 ^ 32),
          walk_length_lem (rdmsr ia32_vmx_ept_vpid_cap),
          write_back_lem (rdmsr ia32_vmx_ept_vpid_cap),
        )
        (elim (Bool-cases (leb (rdmsr ia32_vmx_basic / 2 ^ 32 % 2 ^ 13) 4096)) [
          | inr large ↦ (vmcs_region_size, ground arith)
          | inl small ↦ elim (Bool-cases (rdmsr ia32_vmx_ept_vpid_cap / 2 ^ 6 % 2 == 1)) [
            | inr short ↦ (ept_page_walk_length, ground arith)
            | inl long ↦ (ept_write_back, ground arith)
          ]
        ])

  -- The set-up either ends with the three bits of CR4 set and the others as they were, with
  -- everything in XCR0 that CPUID reports, with the size of the area that CPUID reports for this
  -- XCR0, and with what is needed of VMX, or it stops, and then CPUID reports another size, VMX
  -- lacks something, or there is no page that VMXON accepts.
  pub set_up-Outcome :
      (s : Control) (pages : VmxPages) (r : R)
      → Outcome s pages r (set_up mm_get_free_page rdmsr vmxon cpuid s pages r)
  unfolding set_up vmx_assert
  set_up-Outcome s pages r = elim (Bool-cases (is_constant cpuid s.xcr0)) [
    | inr changed ↦
        let (p, stopped) = xsave_setup-panic cpuid s changed in rw (stopped, changed) refl
    | inl constant ↦ elim (Bool-cases (is_supported rdmsr)) [
      | inr unsupported ↦
          let (p, stopped) = vmx_setup-panic (with_xsave cpuid s) pages r unsupported in
          rw (xsave_setup-constant cpuid s constant, stopped, constant, unsupported) refl
      | inl supported ↦
          rw
            (
              xsave_setup-constant cpuid s constant,
              vmx_setup-supported (with_xsave cpuid s) pages r supported,
            )
            (elim (Result-cases (vmx_get_vmxon_region mm_get_free_page rdmsr pages r)) [
              | inl (v, got) ↦ elim (Bool-cases (vmxon v.0)) [
                | inl on ↦
                    rw (got, on)
                      (
                        record {
                          cr4 = λ k. cr4_lem k s.cr4;
                          xcr0 = refl;
                          accepted = refl;
                          size = ground (arith, constant);
                          supported = supported;
                        },
                        record { page = v.0; given = got; accepted = on },
                      )
                | inr off ↦ rw (got, off) (ground arith)
              ]
              | inr (inl (p, got)) ↦ rw got (ground arith)
              | inr (inr got) ↦ rw got (ap (is_on vmxon) got)
            ])
    ]
  ]
