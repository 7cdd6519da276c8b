-- ===== src/Vm/Vmcs/Writes.antt =====
-- The loop of vmx_create_initialized_vmcs, hv/src/vmm/vmx_vmcs.c, that writes the table of fields.
use rkhv.Base.{
  ℕ, zero, suc, Bool, true, false, not, ◌&&◌, ◌||◌, List, [], ◌∷◌, some, ◌≡◌, refl, subst, arith,
  ◌==◌, ==_iff, Bool-cases, inl, inr, if◌then◌else◌, get_elem?,
}
use rkhv.Base.Result.{vmx_assert, Result, ok, ◌>>=◌}
use rkhv.Vm.Msr.{Store, put}
use rkhv.Vm.Vmcs.Bits.{vmx_ensure_allowed_bits}
use rkhv.Vm.Vmcs.Table.{DefaultField, row}

unfoldable pub encoding_of : DefaultField → ℕ
encoding_of (row field_encoding value allowed_msr) = field_encoding

unfoldable pub checked_value : (ℕ → ℕ) → DefaultField → ℕ
checked_value rdmsr (row field_encoding value allowed_msr) =
    if allowed_msr == 0 then value else vmx_ensure_allowed_bits rdmsr allowed_msr value

unfoldable pub has_encoding : ℕ → List DefaultField → Bool
unfolding encoding_of
has_encoding e [] = false
has_encoding e (r ∷ rs) = encoding_of r == e || has_encoding e rs

unfoldable pub all_distinct : List DefaultField → Bool
unfolding encoding_of has_encoding
all_distinct [] = true
all_distinct (r ∷ rs) = not (has_encoding (encoding_of r) rs) && all_distinct rs

-- `vmwrite` answers whether the instruction succeeds for a field.
module _ (rdmsr : ℕ → ℕ) (vmwrite : ℕ → Bool) where
  unfoldable pub write_fields : List DefaultField → Store → Result Store
  write_fields [] vmcs = ok vmcs
  write_fields (r ∷ rs) vmcs =
      vmx_assert (vmwrite (encoding_of r)) (put vmcs (encoding_of r) (checked_value rdmsr r))
      >>= write_fields rs

  -- The loop ends in success when each instruction does.
  pub write_fields-total :
      (rs : List DefaultField) (vmcs : Store)
      → ((e : ℕ) → has_encoding e rs ≡ true → vmwrite e ≡ true)
      → (last : Store) × (write_fields rs vmcs ≡ ok last)
  unfolding write_fields vmx_assert has_encoding
  write_fields-total [] vmcs all = (vmcs, refl)
  write_fields-total (r ∷ rs) vmcs all =
      let now : vmwrite (encoding_of r) ≡ true =
        all (encoding_of r) (ground (arith, ==_iff (encoding_of r) (encoding_of r))) in
      rw (write_fields, now) (write_fields-total rs _ (λ e h. all e (ground arith)))

  write_fields-rest :
      (r : DefaultField) (rs : List DefaultField) (vmcs last : Store)
      → write_fields (r ∷ rs) vmcs ≡ ok last
      → write_fields rs (put vmcs (encoding_of r) (checked_value rdmsr r)) ≡ ok last
  unfolding write_fields vmx_assert
  write_fields-rest r rs vmcs last done = elim (Bool-cases (vmwrite (encoding_of r))) [
    | inl now ↦ rw now at done
    | inr never ↦ absurd (cc (rw never at done))
  ]

  -- A field that is not in the table keeps its value.
  pub write_fields-others :
      (rs : List DefaultField) (vmcs last : Store) (e : ℕ)
      → write_fields rs vmcs ≡ ok last
      → has_encoding e rs ≡ false
      → last e ≡ vmcs e
  unfolding has_encoding put
  write_fields-others [] vmcs last e done absent = unfold write_fields in (cc done)
  write_fields-others (r ∷ rs) vmcs last e done absent = ground (
    arith,
    write_fields-others rs _ last e (write_fields-rest r rs vmcs last done) (ground arith),
  )

  -- A field of the table has its checked value.
  pub write_fields-reads :
      (rs : List DefaultField) (vmcs last : Store) (i : ℕ) (r : DefaultField)
      → write_fields rs vmcs ≡ ok last
      → all_distinct rs ≡ true
      → get_elem? rs i ≡ some r
      → last (encoding_of r) ≡ checked_value rdmsr r
  unfolding all_distinct put
  write_fields-reads [] vmcs last i r done distinct at = ground arith
  write_fields-reads (q ∷ rs) vmcs last zero r done distinct at =
      let q_is_r : q ≡ r = ground (arith) in
      subst (λ t. last (encoding_of t) ≡ checked_value rdmsr t) q_is_r
        (ground (
          arith,
          write_fields-others rs _ last (encoding_of q) (write_fields-rest q rs vmcs last done)
              (ground arith),
        ))
  write_fields-reads (q ∷ rs) vmcs last (suc i) r done distinct at =
      write_fields-reads rs _ last i r (write_fields-rest q rs vmcs last done) (ground arith) at
