-- ===== src/Vm/Ept/Pages.antt =====
-- What the EPT code needs of the pages that it takes: the contract between hv/src/vmm/vmx_ept.c,
-- the reserved pool of hv/src/vmm/vm_manager.c and the allocator behind
-- hv/src/memory_management/vmm_vmx_pages.c.
use rkhv.Base.{ℕ, ◌^◌, ◌<◌, ◌≡◌, Bool, true, false, ◌||◌, ◌==◌}
use rkhv.Base.Result.{ok}
use rkhv.Memory.{Memory, entry, set_entry, IsPage}
use rkhv.Vm.Ept.{TablePages, State, take_table}

-- The page `p`, taken with the memory going from `m` to `m'`, is a new and empty table.
pub record IsFresh (m m' : Memory) (used : ℕ → Bool) (p : ℕ) : Type 0 where
  pub is_page : IsPage p
  pub small : p < 2 ^ 52
  pub unused : used p ≡ false
  pub empty : (j : ℕ) → j < 512 → entry m' p j ≡ 0
  pub same : (t j : ℕ) → used t ≡ true → IsPage t → j < 512 → entry m' t j ≡ entry m t j

pub record PageLaws {R : Type 0} (pages : TablePages R) : Type 1 where
  -- The source can go on, given the memory and the tables in use.
  pub Sound : R → Memory → (ℕ → Bool) → Type 0
  pub fresh :
      (s s' : State R) (used : ℕ → Bool) (p : ℕ) (r : R)
      → Sound s.rest s.memory used
      → take_table pages s ≡ ok (p, s')
      → pages.track p s'.rest ≡ ok r
      → IsFresh s.memory s'.memory used p
  pub goes_on :
      (s s' : State R) (used used' : ℕ → Bool) (p : ℕ) (r : R)
      → Sound s.rest s.memory used
      → take_table pages s ≡ ok (p, s')
      → pages.track p s'.rest ≡ ok r
      → ((t : ℕ) → used' t ≡ (t == p || used t))
      → Sound r s'.memory used'
  -- Writing to a table in use does not disturb the source.
  pub write :
      (r : R) (m : Memory) (used : ℕ → Bool) (t i v : ℕ)
      → Sound r m used
      → used t ≡ true
      → IsPage t
      → i < 512
      → Sound r (set_entry m t i v) used
