-- ===== src/Mm/VmxPages/Cached.antt =====
-- The pages of hv/src/memory_management/vmm_vmx_pages.c that are kept: VMXON region, MSR bitmaps.
use rkhv.Base.{ℕ, ◌≡◌, ap, true, ◌||◌, ◌==◌, arith, Bool-cases, inl, inr}
use rkhv.Base.Result.{Result, ok, >>=-eq-ok}
use rkhv.Mm.VmxPages.{VmxPages, mm_page_used_by_vmx, vmx_get_vmxon_region, vmx_get_msr_bitmaps_page}

module _ {R : Type 0} (mm_get_free_page : R → Result (ℕ × R)) (rdmsr : ℕ → ℕ) where
  vmx_get_vmxon_region-facts :
      (s s' : VmxPages) (r r' : R) (p : ℕ)
      → vmx_get_vmxon_region mm_get_free_page rdmsr s r ≡ ok (p, s', r')
      → (s'.vmxon_region_valid ≡ true)
        × (s'.vmxon_region ≡ p)
        × (s'.msr_bitmaps_page_valid ≡ s.msr_bitmaps_page_valid)
        × (s'.msr_bitmaps_page ≡ s.msr_bitmaps_page)
        × (s.vmxon_region_valid ≡ true → s.vmxon_region ≡ p)
  unfolding vmx_get_vmxon_region
  vmx_get_vmxon_region-facts s s' r r' p e = elim (Bool-cases s.vmxon_region_valid) [
    | inl v ↦
        let done = rw v at e in
        (
          ground (arith, v, done),
          ground (arith, done),
          ground (arith, done),
          ground (arith, done),
          λ u. ground (arith, done),
        )
    | inr v ↦
        let (f, got, done) = >>=-eq-ok (mm_get_free_page r) _ (rw v at e) in
        (
          ground (arith, done),
          ground (arith, done),
          ground (arith, done),
          ground (arith, done),
          λ u. cc (u, v),
        )
  ]

  -- The VMXON region, once it is there, is what every later call returns, with the
  -- state and the allocator as they are, and it is used by VMX, beside the pages that were.
  pub vmx_get_vmxon_region-mm_page_used_by_vmx :
      (s s' : VmxPages) (r r' later : R) (p page : ℕ)
      → vmx_get_vmxon_region mm_get_free_page rdmsr s r ≡ ok (p, s', r')
      → (vmx_get_vmxon_region mm_get_free_page rdmsr s' later ≡ ok (p, s', later))
        × (mm_page_used_by_vmx page s' ≡ (mm_page_used_by_vmx page s || page == p))
  unfolding vmx_get_vmxon_region mm_page_used_by_vmx
  vmx_get_vmxon_region-mm_page_used_by_vmx s s' r r' later p page e =
      let k = vmx_get_vmxon_region-facts s s' r r' p e in
      (
        simp k.0 (ap (λ q. ok (q, s', later)) k.1),
        elim (Bool-cases s.vmxon_region_valid) [
          | inl v ↦ let same = k.4 v in ground (arith, k.0, k.1, k.2, k.3, same, v)
          | inr v ↦ ground (arith, k.0, k.1, k.2, k.3, v)
        ],
      )

  vmx_get_msr_bitmaps_page-facts :
      (s s' : VmxPages) (r r' : R) (p : ℕ)
      → vmx_get_msr_bitmaps_page mm_get_free_page rdmsr s r ≡ ok (p, s', r')
      → (s'.msr_bitmaps_page_valid ≡ true)
        × (s'.msr_bitmaps_page ≡ p)
        × (s'.vmxon_region_valid ≡ s.vmxon_region_valid)
        × (s'.vmxon_region ≡ s.vmxon_region)
        × (s.msr_bitmaps_page_valid ≡ true → s.msr_bitmaps_page ≡ p)
  unfolding vmx_get_msr_bitmaps_page
  vmx_get_msr_bitmaps_page-facts s s' r r' p e = elim (Bool-cases s.msr_bitmaps_page_valid) [
    | inl v ↦
        let done = rw v at e in
        (
          ground (arith, v, done),
          ground (arith, done),
          ground (arith, done),
          ground (arith, done),
          λ u. ground (arith, done),
        )
    | inr v ↦
        let (f, got, done) = >>=-eq-ok (mm_get_free_page r) _ (rw v at e) in
        (
          ground (arith, done),
          ground (arith, done),
          ground (arith, done),
          ground (arith, done),
          λ u. cc (u, v),
        )
  ]

  -- The page of MSR bitmaps, once it is there, is what every later call returns, with the
  -- state and the allocator as they are, and it is used by VMX, beside the pages that were.
  pub vmx_get_msr_bitmaps_page-mm_page_used_by_vmx :
      (s s' : VmxPages) (r r' later : R) (p page : ℕ)
      → vmx_get_msr_bitmaps_page mm_get_free_page rdmsr s r ≡ ok (p, s', r')
      → (vmx_get_msr_bitmaps_page mm_get_free_page rdmsr s' later ≡ ok (p, s', later))
        × (mm_page_used_by_vmx page s' ≡ (mm_page_used_by_vmx page s || page == p))
  unfolding vmx_get_msr_bitmaps_page mm_page_used_by_vmx
  vmx_get_msr_bitmaps_page-mm_page_used_by_vmx s s' r r' later p page e =
      let k = vmx_get_msr_bitmaps_page-facts s s' r r' p e in
      (
        simp k.0 (ap (λ q. ok (q, s', later)) k.1),
        elim (Bool-cases s.msr_bitmaps_page_valid) [
          | inl v ↦ let same = k.4 v in ground (arith, k.0, k.1, k.2, k.3, same, v)
          | inr v ↦ ground (arith, k.0, k.1, k.2, k.3, v)
        ],
      )
