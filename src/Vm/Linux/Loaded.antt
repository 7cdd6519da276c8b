-- ===== src/Vm/Linux/Loaded.antt =====
-- The memory that vm_guest_linux_loader, hv/src/vmm/guest_linux_loader.c, leaves, from the copy of
-- the command line on.
use rkhv.Base.{
  ℕ, ◌+◌, ◌-◌, ◌*◌, ◌/◌, ◌%◌, ◌^◌, ◌<◌, ◌≤◌, ◌≡◌, ◌≢◌, refl, ◌∙◌, arith, List, some, false, ltb,
  leb, ◌&&◌, ◌||◌, ◌==◌, Bool-cases, inl, inr, true, if◌then◌else◌,
}
use rkhv.Base.Result.{ok, ◌>>=◌}
use rkhv.Memory.{Memory, page_size}
use rkhv.Memory.Bytes.{load_byte, memcpy, copied_byte, load_byte-memcpy, memcpy-apart, in_range}
use rkhv.Text.{str_strlen}
use rkhv.Vm.Msr.{Bytes}
use rkhv.Vm.GuestPaging.{Guest, host_address}
use rkhv.Vm.Vmcs.Config.{Cpu}
use rkhv.Vm.Linux.SetupHeader.{cmdline_size, kernel_alignment, pref_address}
use rkhv.Vm.Linux.ZeroPage.{get_header, zeropage}
use rkhv.Vm.Linux.Kernel.{InFrame, IsBacked, IsLoaded, pages_of, copy_kernel-IsLoaded}
use rkhv.Vm.Linux.Loader.{
  LinuxGuest, char_at, write_cmdline, check_alignment, kernel_offset, entry_state, load_kernel,
}

-- The bytes of the protected kernel.
abbrev pub kernel_size : Bytes → ℕ → ℕ
kernel_size z image_size = (image_size + 2 ^ 64 - kernel_offset z) % 2 ^ 64

-- The host pages of the kernel, of the zeropage and of the command line: apart from each other, and
-- no word of them has a part in the translation.
pub record IsBeside (guestpa n : ℕ) (host : ℕ → ℕ) (zp cl : ℕ) (g : Guest) : Type 0 where
  pub zp_aligned : zp % page_size ≡ 0
  pub cl_aligned : cl % page_size ≡ 0
  pub zp_cl : zp ≢ cl
  pub host_aligned : (p : ℕ) → p < n → host p % page_size ≡ 0
  pub apart : (p q : ℕ) → p < n → q < n → p ≢ q → host p ≢ host q
  pub host_zp : (p : ℕ) → p < n → host p ≢ zp
  pub host_cl : (p : ℕ) → p < n → host p ≢ cl
  pub translates :
      (m : Memory)
      → ((w : ℕ)
          → ¬ InFrame zp w
          → ¬ InFrame cl w
          → ((p : ℕ) → p < n → ¬ InFrame (host p) w)
          → m w ≡ g.memory w)
      → (p : ℕ) → p < n
      → host_address (record g { memory = m }) ((guestpa + p * page_size) % 2 ^ 64) ≡ some (host p)

load_byte-same : (m m' : Memory) (a : ℕ) → m (a / 8) ≡ m' (a / 8) → load_byte m a ≡ load_byte m' a
unfolding load_byte
load_byte-same m m' a e = rw e refl

memcpy-framed :
    (page at size : ℕ) (from : ℕ → ℕ) (m : Memory) (w : ℕ)
    → page % page_size ≡ 0
    → page ≤ at
    → at + size ≤ page + page_size
    → ¬ InFrame page w
    → memcpy at from size m w ≡ m w
memcpy-framed page at size from m w aligned lo hi outside = elim (Bool-cases (ltb (8 * w) page)) [
  | inl before ↦ memcpy-apart at size from m w (inl (ground arith))
  | inr behind ↦ memcpy-apart at size from m w (inr (ground (arith, outside)))
]

frames-apart :
    (p q i : ℕ)
    → p % page_size ≡ 0
    → q % page_size ≡ 0
    → p ≢ q
    → i < page_size
    → ¬ InFrame p ((q + i) / 8)
frames-apart p q i hp hq differ inside (lo, hi) = differ (omega arith)

-- The guest that is left: its kernel, its command line with the terminator, and its zeropage.
pub record IsPrepared (cpu : Cpu) (image : Bytes) (image_size : ℕ) (cmdline : List ℕ)
    (n cr3 zp_guest zp cl_guest cl : ℕ) (host : ℕ → ℕ) (g : Guest) (last : LinuxGuest)
    : Type 0 where
  pub zero_page :
      (i : ℕ)
      → i < page_size
      → load_byte (last.guest).memory (zp + i)
        ≡ zeropage image g.guest_physical_pages cl_guest i % 256
  pub text : (i : ℕ) → i < n → load_byte (last.guest).memory (cl + i) ≡ char_at cmdline i % 256
  pub terminator : load_byte (last.guest).memory (cl + n) ≡ 0
  pub kernel :
      (i : ℕ)
      → i < kernel_size (zeropage image g.guest_physical_pages cl_guest) image_size
      → load_byte (last.guest).memory (host (i / page_size) + i % page_size)
        ≡ image (kernel_offset (zeropage image g.guest_physical_pages cl_guest) + i) % 256
  pub framed :
      (w : ℕ)
      → ¬ InFrame zp w
      → ¬ InFrame cl w
      → ((p : ℕ)
          → p < pages_of (kernel_size (zeropage image g.guest_physical_pages cl_guest) image_size)
          → ¬ InFrame (host p) w)
      → (last.guest).memory w ≡ g.memory w
  pub same : last.guest ≡ record g { memory = (last.guest).memory }
  pub guest_state :
      last.guest_state
      ≡ entry_state cpu cr3
          (get_header pref_address (zeropage image g.guest_physical_pages cl_guest))
  pub rsi : last.rsi ≡ zp_guest

abbrev with_cmdline : List ℕ → ℕ → ℕ → Guest → Guest
with_cmdline cmdline n cl g = record g {
  memory = memcpy (cl + n) (λ k. 0) 1 (memcpy cl (char_at cmdline) n g.memory);
}

with_cmdline-framed :
    (cmdline : List ℕ) (n cl : ℕ) (g : Guest) (w : ℕ)
    → cl % page_size ≡ 0
    → n < page_size
    → ¬ InFrame cl w
    → (with_cmdline cmdline n cl g).memory w ≡ g.memory w
with_cmdline-framed cmdline n cl g w aligned fits outside =
    memcpy-framed cl (cl + n) 1 (λ k. 0) (memcpy cl (char_at cmdline) n g.memory) w aligned
      (omega arith) (omega arith) outside
    ∙ memcpy-framed cl cl n (char_at cmdline) g.memory w aligned (omega arith) (omega arith) outside

write_cmdline-accepted :
    (image : Bytes) (cmdline : List ℕ) (n cl : ℕ) (g : Guest)
    → str_strlen cmdline ≡ some n
    → n ≤ get_header cmdline_size image
    → n < page_size
    → write_cmdline image cmdline cl g ≡ ok (with_cmdline cmdline n cl g)
unfolding write_cmdline
write_cmdline-accepted image cmdline n cl g len short fits =
    rw (write_cmdline, len)
      (elim (Bool-cases (ltb (get_header cmdline_size image) n || ltb page_size n)) [
        | inl long ↦ absurd (ground arith)
        | inr accepted ↦ rw accepted refl
      ])

check_alignment-accepted :
    (z : Bytes)
    → get_header kernel_alignment z ≢ 0
    → get_header pref_address z % get_header kernel_alignment z ≡ 0
    → check_alignment z ≡ ok z
unfolding check_alignment
check_alignment-accepted z positive aligned =
    let nonzero_alignment : (get_header kernel_alignment z == 0) ≡ false = ground arith in
    rw (check_alignment, nonzero_alignment, aligned) refl

module _ (cpu : Cpu) (image : Bytes) (image_size : ℕ) (cmdline : List ℕ) (n : ℕ)
    (cr3 zp_guest zp cl_guest cl : ℕ) (host : ℕ → ℕ) (g : Guest) where
  abbrev z : Bytes
  z = zeropage image g.guest_physical_pages cl_guest

  abbrev pages : ℕ
  pages = pages_of (kernel_size z image_size)

  -- The guest before the copy of the kernel.
  abbrev with_zeropage : Guest
  with_zeropage = record g { memory = memcpy zp z page_size (with_cmdline cmdline n cl g).memory }

  with_zeropage-framed :
      (w : ℕ)
      → IsBeside (get_header pref_address z) pages host zp cl g
      → n < page_size
      → ¬ InFrame zp w
      → ¬ InFrame cl w
      → with_zeropage.memory w ≡ g.memory w
  with_zeropage-framed w beside fits out_zp out_cl =
      memcpy-framed zp zp page_size z (with_cmdline cmdline n cl g).memory w beside.zp_aligned
        (omega arith) (omega arith) out_zp
      ∙ with_cmdline-framed cmdline n cl g w beside.cl_aligned fits out_cl

  with_zeropage-IsBacked :
      IsBeside (get_header pref_address z) pages host zp cl g
      → n < page_size
      → IsBacked (get_header pref_address z) pages host with_zeropage
  with_zeropage-IsBacked beside fits = record {
    aligned = beside.host_aligned;
    apart = beside.apart;
    translates = λ m same p h.
        beside.translates m
          (λ w out_zp out_cl out_host.
            same w out_host ∙ with_zeropage-framed w beside fits out_zp out_cl)
          p h;
  }

  zeropage-byte : (i : ℕ) → i < page_size → load_byte with_zeropage.memory (zp + i) ≡ z i % 256
  unfolding copied_byte in_range
  zeropage-byte i below =
      let first : zp + i - zp ≡ i = omega arith in
      let here : (leb zp (zp + i) && ltb (zp + i) (zp + page_size)) ≡ true = ground arith in
      load_byte-memcpy zp page_size z (with_cmdline cmdline n cl g).memory (zp + i)
      ∙ rw (here, first) refl

  -- A byte of the page of the command line is the same before the zeropage is built.
  cmdline-kept :
      (i : ℕ)
      → IsBeside (get_header pref_address z) pages host zp cl g
      → i < page_size
      → load_byte with_zeropage.memory (cl + i)
        ≡ load_byte (with_cmdline cmdline n cl g).memory (cl + i)
  cmdline-kept i beside below = load_byte-same _ _ (cl + i) (
      memcpy-framed zp zp page_size z (with_cmdline cmdline n cl g).memory ((cl + i) / 8)
        beside.zp_aligned (omega arith) (omega arith)
        (frames-apart zp cl i beside.zp_aligned beside.cl_aligned beside.zp_cl below))

  cmdline-byte :
      (i : ℕ)
      → load_byte (with_cmdline cmdline n cl g).memory (cl + i) ≡ (
          if i == n
          then 0
          else if ltb i n
          then char_at cmdline i % 256
          else load_byte g.memory (cl + i))
  unfolding copied_byte in_range
  cmdline-byte i =
      let first : cl + i - cl ≡ i = omega arith in
      rw
        (
          load_byte-memcpy (cl + n) 1 (λ k. 0) (memcpy cl (char_at cmdline) n g.memory) (cl + i),
          load_byte-memcpy cl n (char_at cmdline) g.memory (cl + i),
          first,
        )
        (ground arith)

  kept-by-kernel :
      (last : Guest) (page i : ℕ)
      → IsLoaded
          (λ k. image (kernel_offset z + k))
          (kernel_size z image_size)
          host
          with_zeropage
          last
      → ((p : ℕ) → p < pages → host p % page_size ≡ 0)
      → page % page_size ≡ 0
      → ((p : ℕ) → p < pages → host p ≢ page)
      → i < page_size
      → load_byte last.memory (page + i) ≡ load_byte with_zeropage.memory (page + i)
  kept-by-kernel last page i loaded aligned page_aligned differ below =
      load_byte-same last.memory with_zeropage.memory (page + i) (
        loaded.framed ((page + i) / 8)
          (λ p h. frames-apart (host p) page i (aligned p h) page_aligned (differ p h) below))

  -- When the command line fits, the alignment of the kernel divides its address, and the pages of
  -- the kernel, of the zeropage and of the command line lie beside each other and beside the EPT,
  -- the loader succeeds from the copy of the command line on: the command line with its terminator,
  -- the zeropage and every byte of the kernel stand in their pages, memory outside of them is as
  -- it was, RSI is the address of the zeropage, and the registers are those of the entry point.
  pub load_kernel-IsPrepared :
      str_strlen cmdline ≡ some n
      → n ≤ get_header cmdline_size image
      → n < page_size
      → get_header kernel_alignment z ≢ 0
      → get_header pref_address z % get_header kernel_alignment z ≡ 0
      → IsBeside (get_header pref_address z) pages host zp cl g
      → (last : LinuxGuest) × ((write_cmdline image cmdline cl g
            >>= load_kernel cpu image image_size cr3 zp_guest zp cl_guest)
          ≡ ok last)
        × IsPrepared cpu image image_size cmdline n cr3 zp_guest zp cl_guest cl host g last
  unfolding load_kernel
  load_kernel-IsPrepared len short fits positive aligned beside =
      let (last, ran, loaded) =
        copy_kernel-IsLoaded (λ k. image (kernel_offset z + k)) (kernel_size z image_size)
          (get_header pref_address z) host with_zeropage (with_zeropage-IsBacked beside fits) in
      (
        record {
          guest = last;
          guest_state = entry_state cpu cr3 (get_header pref_address z);
          rsi = zp_guest;
        },
        rw
            (
              write_cmdline-accepted image cmdline n cl g len short fits,
              check_alignment-accepted z positive aligned,
              ran,
            )
            refl,
        record {
          zero_page = λ i below.
              kept-by-kernel last zp i loaded beside.host_aligned beside.zp_aligned beside.host_zp
                below
              ∙ zeropage-byte i below;
          text = λ i below.
              kept-by-kernel last cl i loaded beside.host_aligned beside.cl_aligned beside.host_cl
                (omega arith)
              ∙ cmdline-kept i beside (omega arith)
              ∙ cmdline-byte i
              ∙ ground arith;
          terminator =
              kept-by-kernel last cl n loaded beside.host_aligned beside.cl_aligned beside.host_cl
                fits
              ∙ cmdline-kept n beside fits
              ∙ cmdline-byte n
              ∙ ground arith;
          kernel = loaded.holds;
          framed = λ w out_zp out_cl out_host.
              loaded.framed w out_host ∙ with_zeropage-framed w beside fits out_zp out_cl;
          same = loaded.same;
          guest_state = refl;
          rsi = refl;
        },
      )
