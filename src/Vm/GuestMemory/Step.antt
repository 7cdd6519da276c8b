-- ===== src/Vm/GuestMemory/Step.antt =====
-- One page of vm_manager_allocate_guest_physical_memory, hv/src/vmm/vm_manager.c, and the EPT.
use mathlib.Core.Option
use rkhv.Base.{
  ℕ, ◌+◌, ◌*◌, ◌%◌, ◌/◌, ◌^◌, ◌<◌, ◌≡◌, refl, sym, ap, ◌∙◌, subst, arith, Bool, some, List, [], inl,
  inr, ◌==◌, is_some, if◌then◌else◌, Bool-cases,
}
use rkhv.Base.Result.{ok, >>=-eq-ok, ok-inj, shaped-eq-ok}
use rkhv.Memory.{entry, page_size, clear_page, IsPage}
use rkhv.Vm.Ept.{State, vmx_get_free_ept_page}
use rkhv.Vm.Ept.Bits.{frame_page}
use rkhv.Vm.Ept.Tree.{Role}
use rkhv.Vm.Ept.Same.{IsTree-same, walk-same}
use rkhv.Vm.Ept.Pages.{IsFresh, PageLaws}
use rkhv.Vm.Ept.Map.{in_use}
use rkhv.Vm.Ept.Root.{translate, IsEpt, translate-uninitialized}
use rkhv.Vm.Ept.Translate.{is_initialized, path_of, path_of-IsPath, translate-walk}
use rkhv.Vm.Ept.MapPage.{vmx_ept_map_page-translate}
use rkhv.Vm.GuestMemory.{MemoryPages, vm_manager_get_free_guest_physical_page, reserve_one, map_one}

-- A page from the allocator is no table in use, is empty, and the source of tables goes on.
pub record MemoryLaws {R : Type 0} (pages : MemoryPages R) : Type 1 where
  pub tables : PageLaws pages.tables
  pub reserved :
      (s : State R) (used : ℕ → Bool) (p : ℕ) (r q : R)
      → tables.Sound s.rest s.memory used
      → (pages.tables).get_free_page s.rest ≡ ok (p, r)
      → pages.reserve p r ≡ ok q
      → IsFresh s.memory (clear_page s.memory p) used p
        × tables.Sound q (clear_page s.memory p) used
  pub given :
      (s : State R) (used : ℕ → Bool) (p : ℕ) (r q : R)
      → tables.Sound s.rest s.memory used
      → (pages.tables).get_free_page s.rest ≡ ok (p, r)
      → pages.track_guest p r ≡ ok q
      → IsFresh s.memory (clear_page s.memory p) used p
        × tables.Sound q (clear_page s.memory p) used

module _ {R : Type 0} {pages : MemoryPages R} (laws : MemoryLaws pages) where
  open laws use {tables}

  -- A page taken beside the tables changes no translation.
  record Beside (s t : State R) (role : Role) : Type 0 where
    is_ept : IsEpt tables t role
    translates : (a : ℕ) → translate t a ≡ translate s a

  cleared-Beside :
      (s : State R) (role : Role) (p : ℕ) (q : R)
      → IsEpt tables s role
      → IsFresh s.memory (clear_page s.memory p) (in_use role) p
      → tables.Sound q (clear_page s.memory p) (in_use role)
      → Beside s (record s { memory = clear_page s.memory p; rest = q }) role
  cleared-Beside s role p q w f sound = elim (Bool-cases (is_initialized s.flags)) [
    | inl set ↦
        let tree = w.rooted set in
        let m' = clear_page s.memory p in
        let same : (t : ℕ) (z : List ℕ) (j : ℕ)
            → role t ≡ some z
            → j < 512
            → entry m' t j ≡ entry s.memory t j =
          λ t z j at h. f.same t j (ap is_some at) (tree.is_page t z at) h in
        let tree' = IsTree-same m' tree same in
        record {
          is_ept = record { rooted = λ _. tree'; blank = w.blank; sound = sound };
          translates = λ a.
              translate-walk m' s.flags s.eptp role a tree' set
              ∙ ap (Option.map (λ x. x + a % 4096)) (
                  walk-same m' tree same s.eptp [] (path_of a) tree.at_root (path_of-IsPath a) refl)
              ∙ sym (translate-walk s.memory s.flags s.eptp role a tree set);
        }
    | inr clear ↦ record {
      is_ept = record { rooted = λ set. absurd (cc (set, clear)); blank = w.blank; sound = sound };
      translates = λ a.
          translate-uninitialized (clear_page s.memory p) s.flags s.eptp a clear
          ∙ sym (translate-uninitialized s.memory s.flags s.eptp a clear);
    }
  ]

  pub reserve_one-translate :
      (s s' : State R) (role : Role)
      → IsEpt tables s role
      → reserve_one pages s ≡ ok s'
      → IsEpt tables s' role × ((a : ℕ) → translate s' a ≡ translate s a)
  unfolding reserve_one vmx_get_free_ept_page
  reserve_one-translate s s' role w done =
      let (got, free, rest) = shaped-eq-ok ((pages.tables).get_free_page s.rest) _ _ done in
      let (q, tracked, ended) = >>=-eq-ok (pages.reserve got.0 got.1) _ rest in
      let (fresh, sound) = laws.reserved s (in_use role) got.0 got.1 q w.sound free tracked in
      let b = cleared-Beside s role got.0 q w fresh sound in
      subst (λ u. IsEpt tables u role × ((a : ℕ) → translate u a ≡ translate s a)) (ok-inj ended)
        (b.is_ept, b.translates)

  pub map_one-translate :
      (i : ℕ) (s s' : State R) (role : Role)
      → i < 2 ^ 36
      → IsEpt tables s role
      → map_one pages i s ≡ ok s'
      → (role' : Role) × IsEpt tables s' role'
        × ((page : ℕ) × IsPage page
            × ((a : ℕ)
                → translate s' a ≡ (
                    if a / page_size % 2 ^ 36 == i
                    then some (page + a % page_size)
                    else translate s a)))
  unfolding map_one vm_manager_get_free_guest_physical_page
  map_one-translate i s s' role small w done =
      let (got, free, rest) = shaped-eq-ok ((pages.tables).get_free_page s.rest) _ _ done in
      let (q, tracked, mapped) = >>=-eq-ok (pages.track_guest got.0 got.1) _ rest in
      let (fresh, sound) = laws.given s (in_use role) got.0 got.1 q w.sound free tracked in
      let b = cleared-Beside s role got.0 q w fresh sound in
      let t = record s { memory = clear_page s.memory got.0; rest = q } in
      let (role', is_ept, moved) =
        vmx_ept_map_page-translate tables (i * page_size % 2 ^ 64) got.0 t s' role b.is_ept
          mapped in
      (
        role',
        is_ept,
        (
          got.0,
          fresh.is_page,
          λ a.
              ground
                (arith, moved a, b.translates a, frame_page got.0 fresh.is_page fresh.small, small),
        ),
      )
