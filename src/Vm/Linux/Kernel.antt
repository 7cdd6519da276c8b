-- ===== src/Vm/Linux/Kernel.antt =====
-- The loop of vm_guest_linux_loader, hv/src/vmm/guest_linux_loader.c, that copies the protected
-- kernel page by page to where the EPT maps the pages of the guest.
use rkhv.Base.{
  ℕ, zero, suc, ◌+◌, ◌-◌, ◌*◌, ◌/◌, ◌%◌, ◌^◌, ◌≤◌, ◌<◌, ◌≡◌, ◌≢◌, inl, inr, refl, arith, ◌||◌, ◌∙◌,
  Bool-cases, subst, none, some, ltb, ◌==◌, if◌then◌else◌,
}
use rkhv.Base.Result.{Result, ok, panic, kernel_ept_walk}
use rkhv.Memory.{Memory, page_size}
use rkhv.Memory.Bytes.{load_byte, memcpy, copied_byte, in_range, load_byte-memcpy, memcpy-apart}
use rkhv.Vm.GuestPaging.{Guest, host_address}

-- image_protected_kernel_pages
unfoldable pub pages_of : ℕ → ℕ
pages_of size = size / page_size + (if size % page_size == 0 then 0 else 1)

-- The bytes that are copied to a page: all, but for the rest on the last one.
unfoldable pub copy_size : ℕ → ℕ → ℕ
unfolding pages_of
copy_size size page =
    if ltb page (pages_of size - 1) || size % page_size == 0 then page_size else size % page_size

-- The kernel, `size` bytes, and the guest physical address that it goes to.
module _ (image_protected_kernel : ℕ → ℕ) (size guestpa : ℕ) where
  unfoldable pub copy_page : ℕ → ℕ → Guest → Guest
  unfolding copy_size memcpy
  copy_page page page_hostpa g = record g {
    memory =
        memcpy page_hostpa (λ k. image_protected_kernel (page * page_size + k))
          (copy_size size page) g.memory;
  }

  -- `rounds` turns from `page` on.
  unfoldable pub copy_kernel : ℕ → ℕ → Guest → Result Guest
  unfolding host_address copy_page
  copy_kernel zero page g = ok g
  copy_kernel (suc rounds) page g =
      let rest = copy_kernel rounds (page + 1) in
      elim (host_address g ((guestpa + page * page_size) % 2 ^ 64)) [
        | none ↦ panic kernel_ept_walk
        | some page_hostpa ↦ rest (copy_page page page_hostpa g)
      ]

abbrev pub InFrame : ℕ → ℕ → Type 0
InFrame page w = (page ≤ 8 * w) × (8 * w < page + page_size)

-- The host pages of `n` guest pages: apart from each other, and no word of them has a part in
-- the translation.
pub record IsBacked (guestpa n : ℕ) (host : ℕ → ℕ) (g : Guest) : Type 0 where
  pub aligned : (p : ℕ) → p < n → host p % page_size ≡ 0
  pub apart : (p q : ℕ) → p < n → q < n → p ≢ q → host p ≢ host q
  pub translates :
      (m : Memory)
      → ((w : ℕ) → ((p : ℕ) → p < n → ¬ InFrame (host p) w) → m w ≡ g.memory w)
      → (p : ℕ) → p < n
      → host_address (record g { memory = m }) ((guestpa + p * page_size) % 2 ^ 64) ≡ some (host p)

module _ (image_protected_kernel : ℕ → ℕ) (size guestpa : ℕ) (host : ℕ → ℕ) (g : Guest) where
  -- The first `page` pages hold the kernel, and memory outside of the host pages is as it was.
  record IsCopied (page : ℕ) (h : Guest) : Type 0 where
    holds :
        (i : ℕ)
        → i < size
        → i / page_size < page
        → load_byte h.memory (host (i / page_size) + i % page_size) ≡ image_protected_kernel i % 256
    framed :
        (w : ℕ) → ((p : ℕ) → p < pages_of size → ¬ InFrame (host p) w) → h.memory w ≡ g.memory w
    same : h ≡ record g { memory = h.memory }

  copy_size-bound : (page : ℕ) → page < pages_of size → copy_size size page ≤ page_size
  unfolding copy_size
  copy_size-bound page h = ground arith

  copy_size-covers : (i : ℕ) → i < size → i % page_size < copy_size size (i / page_size)
  unfolding copy_size pages_of
  copy_size-covers i h = ground arith

  -- A byte of the page that is copied, and one of a page that was.
  load_byte-now :
      (page i : ℕ) (m : Memory)
      → i < size
      → i / page_size ≡ page
      → load_byte
          (memcpy
            (host page)
            (λ k. image_protected_kernel (page * page_size + k))
            (copy_size size page)
            m)
          (host (i / page_size) + i % page_size)
        ≡ image_protected_kernel i % 256
  unfolding copied_byte in_range
  load_byte-now page i m below now =
      let at : page * page_size + (host page + i % page_size - host page) ≡ i =
        omega (arith, now) in
      let covered : i % page_size < copy_size size page =
        subst (λ p. i % page_size < copy_size size p) now (copy_size-covers i below) in
      rw (load_byte-memcpy, now, at) (ground (arith, covered))

  load_byte-before :
      (page i : ℕ) (m : Memory)
      → IsBacked guestpa (pages_of size) host g
      → page < pages_of size
      → i / page_size < page
      → load_byte
          (memcpy
            (host page)
            (λ k. image_protected_kernel (page * page_size + k))
            (copy_size size page)
            m)
          (host (i / page_size) + i % page_size)
        ≡ load_byte m (host (i / page_size) + i % page_size)
  unfolding copied_byte in_range
  load_byte-before page i m backed inside before = rw load_byte-memcpy (
      ground (
        arith,
        backed.aligned page inside,
        backed.aligned (i / page_size) (omega (arith, before, inside)),
        backed.apart page (i / page_size) inside (omega (arith, before, inside))
            (λ e. omega (arith, e, before)),
        copy_size-bound page inside,
      ))

  copy_page-framed :
      (page w : ℕ) (m : Memory)
      → IsBacked guestpa (pages_of size) host g
      → page < pages_of size
      → ¬ InFrame (host page) w
      → memcpy
          (host page)
          (λ k. image_protected_kernel (page * page_size + k))
          (copy_size size page)
          m
          w
        ≡ m w
  copy_page-framed page w m backed inside outside =
      memcpy-apart (host page) (copy_size size page) _ m w
        (ground (arith, backed.aligned page inside, copy_size-bound page inside))

  copy_page-IsCopied :
      (page : ℕ) (h : Guest)
      → IsBacked guestpa (pages_of size) host g
      → page < pages_of size
      → IsCopied page h
      → IsCopied (page + 1) (copy_page image_protected_kernel size guestpa page (host page) h)
  unfolding copy_page
  copy_page-IsCopied page h backed inside v = record {
    holds = λ i below until. elim (Bool-cases (ltb (i / page_size) page)) [
      | inl before ↦
          load_byte-before page i h.memory backed inside (ground arith)
          ∙ v.holds i below (ground arith)
      | inr now ↦ load_byte-now page i h.memory below (ground arith)
    ];
    framed = λ w outside.
        copy_page-framed page w h.memory backed inside (outside page inside) ∙ v.framed w outside;
    same = ground (arith, v.same);
  }

  copy_kernel-IsCopied :
      (rounds page : ℕ) (h : Guest)
      → IsBacked guestpa (pages_of size) host g
      → page + rounds ≡ pages_of size
      → IsCopied page h
      → (last : Guest) × (copy_kernel image_protected_kernel size guestpa rounds page h ≡ ok last)
        × IsCopied (pages_of size) last
  unfolding copy_kernel
  copy_kernel-IsCopied zero page h backed all v =
      (h, refl, subst (λ n. IsCopied n h) (omega (arith, all)) v)
  copy_kernel-IsCopied (suc rounds) page h backed all v =
      let walk : host_address h ((guestpa + page * page_size) % 2 ^ 64) ≡ some (host page) =
        rw v.same (backed.translates h.memory v.framed page (omega arith)) in
      rw (copy_kernel, walk)
        (copy_kernel-IsCopied rounds (page + 1)
          (copy_page image_protected_kernel size guestpa page (host page) h) backed (omega arith)
          (copy_page-IsCopied page h backed (omega arith) v))

-- The kernel stands in the guest's pages, and memory outside of them is as it was.
pub record IsLoaded (image_protected_kernel : ℕ → ℕ) (size : ℕ) (host : ℕ → ℕ) (g last : Guest)
    : Type 0 where
  pub holds :
      (i : ℕ)
      → i < size
      → load_byte last.memory (host (i / page_size) + i % page_size)
        ≡ image_protected_kernel i % 256
  pub framed :
      (w : ℕ) → ((p : ℕ) → p < pages_of size → ¬ InFrame (host p) w) → last.memory w ≡ g.memory w
  pub same : last ≡ record g { memory = last.memory }

pages_of-covers : (i size : ℕ) → i < size → i / page_size < pages_of size
unfolding pages_of
pages_of-covers i size h = ground arith

-- The loop succeeds and loads the kernel.
pub copy_kernel-IsLoaded :
    (image_protected_kernel : ℕ → ℕ) (size guestpa : ℕ) (host : ℕ → ℕ) (g : Guest)
    → IsBacked guestpa (pages_of size) host g
    → (last : Guest) × (copy_kernel image_protected_kernel size guestpa (pages_of size) 0 g
        ≡ ok last)
      × IsLoaded image_protected_kernel size host g last
copy_kernel-IsLoaded image_protected_kernel size guestpa host g backed =
    let start : IsCopied image_protected_kernel size guestpa host g 0 g = record {
      holds = λ i below until. absurd (omega (arith, until));
      framed = λ w outside. refl;
      same = refl;
    } in
    let (last, ran, v) =
      copy_kernel-IsCopied image_protected_kernel size guestpa host g (pages_of size) 0 g backed
        (omega arith) start in
    (
      last,
      ran,
      record {
        holds = λ i below. v.holds i below (pages_of-covers i size below);
        framed = v.framed;
        same = v.same;
      },
    )
