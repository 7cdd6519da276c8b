-- ===== src/Base/Result.antt =====
-- The outcome of code that may stop the hypervisor: a value, a PANIC with its place in the
-- source, or behaviour that C leaves undefined (here: a read out of an array's bounds).
use mathlib.Core.Bool.{Bool, true, false}
use rkhv.Base.Tests.{if◌then◌else◌}
use mathlib.Core.Path.{◌≡◌, refl}
use mathlib.Core.Logic.{◌⊎◌, inl, inr}

-- One constructor for each PANIC that the modelled functions contain.
pub data Panic : Type 0 where
  subarenas_unsupported corrupted_arena_list : Panic
  no_usable_region out_of_memory : Panic
  ept_remap ept_already_initialized guest_memory_reallocated : Panic
  device_already_registered vm_unsynced : Panic
  no_guest_pages guest_pages_used guest_identity_ept_walk : Panic
  unsupported_paging_mode guest_walk_failed ept_walk_failed crosses_page : Panic
  unsupported_cr_write unsupported_cr_read unsupported_cr_access : Panic
  xcr_index xcr0_bit_zero xcr0_unsupported : Panic
  unsupported_io unsupported_msr vm_halted unsupported_exit uart_port : Panic
  vmcs_already_initialized vmx_assert_failed : Panic
  vmcs_region_size ept_page_walk_length ept_write_back xsave_area_size_changed : Panic
  guest_cr3_set linux_magic linux_64_bit_entry zeropage_ept_walk cmdline_ept_walk : Panic
  guest_memory_too_small cmdline_too_long pref_address_unaligned kernel_ept_walk : Panic

pub data Result {ℓ} (A : Type ℓ) : Type ℓ where
  ok : A → Result A
  panic : Panic → Result A
  out_of_bounds : Result A

-- The next step, unless the run has ended.
infixl 5 ◌>>=◌
abbrev pub ◌>>=◌ {ℓ ℓ'} :
    {State : Type ℓ} {Next : Type ℓ'} → Result State → (State → Result Next) → Result Next
out_of_bounds >>= step = out_of_bounds
panic reason >>= step = panic reason
ok state >>= step = step state

-- A run that does not end early comes from a first part that does not.
pub >>=-eq-ok {ℓ ℓ'} :
    {State : Type ℓ} {Next : Type ℓ'} (run : Result State) (step : State → Result Next)
    {last : Next}
    → (run >>= step) ≡ ok last
    → (state : State) × (run ≡ ok state) × (step state ≡ ok last)
>>=-eq-ok out_of_bounds step ended = cc
>>=-eq-ok (panic reason) step ended = cc
>>=-eq-ok (ok state) step ended = (state, refl, ended)

pub Result-cases {ℓ} :
    {A : Type ℓ} (m : Result A)
    → ((a : A) × (m ≡ ok a)) ⊎ (((p : Panic) × (m ≡ panic p)) ⊎ (m ≡ out_of_bounds))
Result-cases (ok a) = inl (a, refl)
Result-cases (panic p) = inr (inl (p, refl))
Result-cases out_of_bounds = inr (inr refl)

-- A guard that does not PANIC.
pub if-eq-ok {ℓ} :
    {A : Type ℓ} (test : Bool) (reason : Panic) (run : Result A) {last : A}
    → (if test then panic reason else run) ≡ ok last
    → (test ≡ false) × (run ≡ ok last)
if-eq-ok true reason run ended = cc
if-eq-ok false reason run ended = (refl, ended)

pub ok-inj {ℓ} : {A : Type ℓ} {a b : A} → ◌≡◌ {A = Result A} (ok a) (ok b) → a ≡ b
ok-inj e = cc e

-- A first part that only gives its value another shape.
pub shaped-eq-ok {ℓ ℓ' ℓ''} :
    {A : Type ℓ} {State : Type ℓ'} {Next : Type ℓ''} (run : Result A) (shape : A → State)
    (step : State → Result Next) {last : Next}
    → ((run >>= λ a. ok (shape a)) >>= step) ≡ ok last
    → (a : A) × (run ≡ ok a) × (step (shape a) ≡ ok last)
shaped-eq-ok out_of_bounds shape step ended = cc
shaped-eq-ok (panic reason) shape step ended = cc
shaped-eq-ok (ok a) shape step ended = (a, refl, ended)

-- VMX_ASSERT
unfoldable pub vmx_assert {ℓ} : {A : Type ℓ} → Bool → A → Result A
vmx_assert succeeds a = if succeeds then ok a else panic vmx_assert_failed
