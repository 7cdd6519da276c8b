-- ===== src/Vm/GuestMemory/Allocate.antt =====
-- The loops of vm_manager_allocate_guest_physical_memory, hv/src/vmm/vm_manager.c, and the
-- translations that they leave.
use rkhv.Base.{
  ℕ, zero, suc, ◌+◌, ◌%◌, ◌/◌, ◌^◌, ◌<◌, ◌≤◌, ◌≡◌, refl, ◌∙◌, subst, arith, false, some, inl, inr,
  ◌==◌, ◌&&◌, ltb, leb, not, if◌then◌else◌, Bool-cases,
}
use rkhv.Base.Result.{ok, >>=-eq-ok, if-eq-ok, ok-inj}
use rkhv.Memory.{page_size, IsPage}
use rkhv.Vm.Ept.{State}
use rkhv.Vm.Ept.Tree.{Role}
use rkhv.Vm.Ept.Root.{translate, IsEpt}
use rkhv.Vm.Machines.{ept_pages}
use rkhv.Vm.GuestMemory.{
  MemoryPages, GuestState, reserve_one, reserve_tables, map_one, map_pages,
  vm_manager_allocate_guest_physical_memory,
}
use rkhv.Vm.GuestMemory.Step.{MemoryLaws, reserve_one-translate, map_one-translate}

-- The number of the page that an address is on, as the EPT sees it.
abbrev pub page_number : ℕ → ℕ
page_number a = a / page_size % 2 ^ 36

-- `host` gives the pages from `i` on, `n` of them; other addresses translate as in `s`.
pub record Backs {R : Type 0} (i n : ℕ) (host : ℕ → ℕ) (s s' : State R) : Type 0 where
  pub pages : (j : ℕ) → i ≤ j → j < i + n → IsPage (host j)
  pub inside :
      (a : ℕ)
      → i ≤ page_number a
      → page_number a < i + n
      → translate s' a ≡ some (host (page_number a) + a % page_size)
  pub outside :
      (a : ℕ)
      → (leb i (page_number a) && ltb (page_number a) (i + n)) ≡ false
      → translate s' a ≡ translate s a

module _ {R : Type 0} {pages : MemoryPages R} (laws : MemoryLaws pages) where
  open laws use {tables}

  reserve_tables-translate :
      (rounds : ℕ) (s s' : State R) (role : Role)
      → IsEpt tables s role
      → reserve_tables pages rounds s ≡ ok s'
      → IsEpt tables s' role × ((a : ℕ) → translate s' a ≡ translate s a)
  unfolding reserve_tables
  reserve_tables-translate zero s s' role w done =
      subst (λ u. IsEpt tables u role × ((a : ℕ) → translate u a ≡ translate s a)) (ok-inj done)
        (w, λ a. refl)
  reserve_tables-translate (suc rounds) s s' role w done =
      let (t, first, rest) = >>=-eq-ok (reserve_one pages s) _ done in
      let (w', kept) = reserve_one-translate laws s t role w first in
      let (w'', kept') = reserve_tables-translate rounds t s' role w' rest in
      (w'', λ a. kept' a ∙ kept a)

  Backs-suc :
      (i n page : ℕ) (host : ℕ → ℕ) (s t s' : State R)
      → IsPage page
      → ((a : ℕ)
          → translate t a
            ≡ (if page_number a == i then some (page + a % page_size) else translate s a))
      → Backs (i + 1) n host t s'
      → Backs i (suc n) (λ j. if j == i then page else host j) s s'
  Backs-suc i n page host s t s' is_page first rest = record {
    pages = λ j low high. elim (Bool-cases (j == i)) [
      | inl e ↦ rw e is_page
      | inr e ↦ rw e (rest.pages j (ground arith) (ground arith))
    ];
    inside = λ a low high. elim (Bool-cases (page_number a == i)) [
      | inl e ↦ rw e (rest.outside a (ground arith) ∙ first a ∙ rw e refl)
      | inr e ↦ rw e (rest.inside a (ground arith) (ground arith))
    ];
    outside = λ a out.
        rest.outside a (ground arith)
        ∙ first a
        ∙ (let e : (page_number a == i) ≡ false = ground arith in rw e refl);
  }

  map_pages-Backs :
      (n i : ℕ) (s s' : State R) (role : Role)
      → i + n ≤ 2 ^ 36
      → IsEpt tables s role
      → map_pages pages n i s ≡ ok s'
      → (role' : Role) × IsEpt tables s' role' × ((host : ℕ → ℕ) × Backs i n host s s')
  unfolding map_pages
  map_pages-Backs zero i s s' role small w done =
      subst (λ u. (role' : Role) × IsEpt tables u role' × ((host : ℕ → ℕ) × Backs i 0 host s u))
        (ok-inj done)
        (
          role,
          w,
          (
            λ j. 0,
            record {
              pages = λ j low high. refl;
              inside = λ a low high. absurd (omega (arith, low, high));
              outside = λ a out. refl;
            },
          ),
        )
  map_pages-Backs (suc n) i s s' role small w done =
      let (t, first, rest) = >>=-eq-ok (map_one pages i s) _ done in
      let (role1, w1, one) = map_one-translate laws i s t role (omega (arith, small)) w first in
      let (role2, w2, more) = map_pages-Backs n (i + 1) t s' role1 (omega (arith, small)) w1 rest in
      (
        role2,
        w2,
        (
          λ j. if j == i then one.0 else more.0 j,
          Backs-suc i n one.0 more.0 s t s' one.1 one.2 more.1,
        ),
      )

  -- When the memory of a machine is allocated without a PANIC, at most 2^36 pages that the tables
  -- and the page allocator back as MemoryLaws says: the machine had no memory and has that number
  -- of pages, each of them translates, byte by byte, to one page of the host, every other address
  -- translates as it did, and the EPT is well formed.
  pub vm_manager_allocate_guest_physical_memory-Backs :
      (n : ℕ) (s s' : GuestState R) (role : Role)
      → n ≤ 2 ^ 36
      → IsEpt tables s.ept role
      → vm_manager_allocate_guest_physical_memory pages n s ≡ ok s'
      → (s.guest_physical_pages ≡ 0)
        × (s'.guest_physical_pages ≡ n)
        × ((role' : Role) × IsEpt tables s'.ept role')
        × ((host : ℕ → ℕ) × Backs 0 n host s.ept s'.ept)
  unfolding vm_manager_allocate_guest_physical_memory
  vm_manager_allocate_guest_physical_memory-Backs n s s' role small w done =
      let (blank, run) = if-eq-ok (not (s.guest_physical_pages == 0)) _ _ done in
      let (reserved, aside, rest) = >>=-eq-ok (reserve_tables pages (ept_pages n) s.ept) _ run in
      let (mapped, given, ended) = >>=-eq-ok (map_pages pages n 0 reserved) _ rest in
      let (w1, kept) = reserve_tables-translate (ept_pages n) s.ept reserved role w aside in
      let (role', w2, one) =
        map_pages-Backs n 0 reserved mapped role (omega (arith, small)) w1 given in
      subst
        (λ u.
          (s.guest_physical_pages ≡ 0)
          × (u.guest_physical_pages ≡ n)
          × ((role' : Role) × IsEpt tables u.ept role')
          × ((host : ℕ → ℕ) × Backs 0 n host s.ept u.ept))
        (ok-inj ended)
        (
          ground arith,
          refl,
          (role', w2),
          (
            one.0,
            record {
              pages = one.1.pages;
              inside = one.1.inside;
              outside = λ a out. one.1.outside a out ∙ kept a;
            },
          ),
        )
