-- ===== src/Boot/MemoryMap/Convert.antt =====
-- The loop of efi_main, boot/src/main.c, that converts the memory map, as a whole.
use rkhv.Base.{
  ℕ, zero, suc, ◌<◌, ap, ◌≡◌, refl, arith, Bool, false, ◌||◌, some, List, [], ◌∷◌, get_elem?,
  length, replicate, length-replicate, take, ◌⊎◌, inl, inr,
}
use rkhv.Base.Result.{ok}
use rkhv.Mm.Chainload.{MmapDesc, rkhv_max_efi_mmap_descriptors}
use rkhv.Boot.MemoryMap.{EfiMemoryDescriptor, Conversion, convert_loop, convert_mmap}
use rkhv.Boot.MemoryMap.Covers.{in_mmap, in_mmap_desc, in_descriptors}
use rkhv.Boot.MemoryMap.Turn.{IsConverting, Fits, convert_one-IsTurn}

abbrev pub AllFit : List EfiMemoryDescriptor → Type 0
AllFit [] = Unit
AllFit (d ∷ ds) = Fits d × AllFit ds

-- Every entry of the table holds a run of at least one page.
abbrev pub AllInUse : List MmapDesc → Type 0
AllInUse out = (j : ℕ) (d : MmapDesc) → get_elem? out j ≡ some d → 0 < d.pages

record IsRun (descs : List EfiMemoryDescriptor) (c : Conversion) (out : List MmapDesc) (n : ℕ)
    : Type 0 where
  sized : length out ≡ rkhv_max_efi_mmap_descriptors
  covers :
      (address : ℕ) (usable : Bool)
      → in_mmap address usable out
        ≡ (in_mmap address usable c.efi_mmap_usable || in_descriptors address usable (take n descs))
  whole_or_full : (n ≡ length descs) ⊎ AllInUse out

get_elem?-length {ℓ} :
    {A : Type ℓ} (xs : List A) (i : ℕ) (x : A) → get_elem? xs i ≡ some x → i < length xs
get_elem?-length [] i x at = ground arith
get_elem?-length (y ∷ ys) zero x at = omega arith
get_elem?-length (y ∷ ys) (suc i) x at = omega (arith, get_elem?-length ys i x at)

convert_loop-IsRun :
    (descs : List EfiMemoryDescriptor) (c : Conversion)
    → IsConverting c
    → AllFit descs
    → (out : List MmapDesc) × (n : ℕ) × (convert_loop descs c ≡ ok out) × IsRun descs c out n
unfolding convert_loop in_descriptors
convert_loop-IsRun [] c v fit = (
  c.efi_mmap_usable,
  0,
  refl,
  record { sized = v.sized; covers = λ address usable. ground arith; whole_or_full = inl refl },
)
convert_loop-IsRun (desc ∷ descs) c v fit = elim (convert_one-IsTurn desc c v fit.0) [
  | inl (stopped, full) ↦ (
    c.efi_mmap_usable,
    0,
    rw stopped refl,
    record {
      sized = v.sized;
      covers = λ address usable. ground arith;
      whole_or_full = inr (λ j d at.
          v.in_use j d at
            (omega (arith, get_elem?-length c.efi_mmap_usable j d at, v.sized, full)));
    },
  )
  | inr (t, turned, turn) ↦
      let (out, n, ran, rest) = convert_loop-IsRun descs t turn.converting fit.1 in
      (
        out,
        suc n,
        rw turned ran,
        record {
          sized = rest.sized;
          covers = λ address usable.
              ground (arith, rest.covers address usable, turn.adds address usable);
          whole_or_full = elim rest.whole_or_full [
            | inl whole ↦ inl (ap suc whole)
            | inr full ↦ inr full
          ];
        },
      )
]

-- The first `n` descriptors, and the runs that came of them.
pub record IsConverted (descs : List EfiMemoryDescriptor) (out : List MmapDesc) (n : ℕ)
    : Type 0 where
  pub sized : length out ≡ rkhv_max_efi_mmap_descriptors
  pub covers :
      (address : ℕ) (usable : Bool)
      → in_mmap address usable out ≡ in_descriptors address usable (take n descs)
  pub whole_or_full : (n ≡ length descs) ⊎ AllInUse out

abbrev pub blank_desc : MmapDesc
blank_desc = record { physical_address = 0; pages = 0; usable = false }

-- The entries of the chainload page after its memset.
abbrev pub blank_mmap : List MmapDesc
blank_mmap = replicate rkhv_max_efi_mmap_descriptors blank_desc

pub get_elem?-replicate {ℓ} :
    {A : Type ℓ} (n j : ℕ) (a d : A) → get_elem? (replicate n a) j ≡ some d → a ≡ d
get_elem?-replicate zero j a d at = ground arith
get_elem?-replicate (suc n) zero a d at = ground arith
get_elem?-replicate (suc n) (suc j) a d at = get_elem?-replicate n j a d at

in_mmap-replicate :
    (address : ℕ) (usable : Bool) (n : ℕ) (d : MmapDesc)
    → d.pages ≡ 0
    → in_mmap address usable (replicate n d) ≡ false
unfolding in_mmap in_mmap_desc
in_mmap-replicate address usable zero d blank = refl
in_mmap-replicate address usable (suc n) d blank =
    ground (arith, in_mmap-replicate address usable n d blank)

-- When every descriptor of the firmware has a page and ends inside the address space, the
-- conversion succeeds without a read or write out of bounds: its runs cover exactly the bytes of
-- the first descriptors, as usable or unusable as they were, and these are all of them, or every
-- one of the 231 entries holds a run of at least one page.
pub convert_mmap-IsConverted :
    (descs : List EfiMemoryDescriptor)
    → AllFit descs
    → (out : List MmapDesc) × (n : ℕ) × (convert_mmap descs blank_mmap ≡ ok out)
      × IsConverted descs out n
unfolding convert_mmap
convert_mmap-IsConverted descs fit =
    let (out, n, ran, run) =
      convert_loop-IsRun descs
        (record { efi_mmap_index = 0; out_mmap_index = 0; efi_mmap_usable = blank_mmap })
        (record {
          sized = length-replicate rkhv_max_efi_mmap_descriptors blank_desc;
          inside = omega arith;
          blank = λ j d at above.
              ground (arith, get_elem?-replicate rkhv_max_efi_mmap_descriptors j blank_desc d at);
          in_use = λ j d at below. absurd (omega (arith, below));
          fits = λ d at positive. absurd (omega (arith, positive));
        })
        fit in
    (
      out,
      n,
      ran,
      record {
        sized = run.sized;
        covers = λ address usable. ground (
          arith,
          run.covers address usable,
          in_mmap-replicate address usable rkhv_max_efi_mmap_descriptors blank_desc refl,
        );
        whole_or_full = run.whole_or_full;
      },
    )
