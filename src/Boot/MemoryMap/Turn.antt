-- ===== src/Boot/MemoryMap/Turn.antt =====
-- One turn of the loop that converts the memory map, boot/src/main.c.
use rkhv.Base.{
  ℕ, zero, suc, ◌+◌, ◌*◌, ◌%◌, ◌^◌, ◌≤◌, ◌<◌, ◌≡◌, refl, sym, ◌∙◌, arith, Bool, true, not, ◌&&◌,
  ◌||◌, none, some, List, [], ◌∷◌, ◌==◌, if◌then◌else◌, get_elem?, get_elem?-set_ne,
  get_elem?-set_self, set, length, length-set, ◌⊎◌, inl, inr, Bool-cases, leb,
}
use rkhv.Base.Result.{ok}
use rkhv.Memory.{page_size}
use rkhv.Mm.Chainload.{MmapDesc, rkhv_max_efi_mmap_descriptors}
use rkhv.Boot.MemoryMap.{EfiMemoryDescriptor, Conversion, is_usable, continues, convert_one}
use rkhv.Boot.MemoryMap.Covers.{
  in_mmap, in_descriptor, in_mmap-set, in_mmap_desc-continues, in_mmap_desc-new,
}

get_elem?-some {ℓ} :
    {A : Type ℓ} (xs : List A) (i : ℕ) → i < length xs → (x : A) × (get_elem? xs i ≡ some x)
get_elem?-some [] i h = absurd (omega (arith, h))
get_elem?-some (x ∷ xs) zero h = (x, refl)
get_elem?-some (x ∷ xs) (suc i) h = get_elem?-some xs i (omega arith)

-- The first entry that is not in use.
abbrev pub next_out : Conversion → ℕ
next_out c = if c.efi_mmap_index == 0 then c.out_mmap_index else c.out_mmap_index + 1

pub record IsConverting (c : Conversion) : Type 0 where
  pub sized : length c.efi_mmap_usable ≡ rkhv_max_efi_mmap_descriptors
  pub inside : c.out_mmap_index < rkhv_max_efi_mmap_descriptors
  pub blank :
      (j : ℕ) (d : MmapDesc) → get_elem? c.efi_mmap_usable j ≡ some d → next_out c ≤ j → d.pages ≡ 0
  pub in_use :
      (j : ℕ) (d : MmapDesc) → get_elem? c.efi_mmap_usable j ≡ some d → j < next_out c → 0 < d.pages
  pub fits :
      (d : MmapDesc)
      → get_elem? c.efi_mmap_usable c.out_mmap_index ≡ some d
      → 0 < c.efi_mmap_index
      → d.physical_address + d.pages * page_size < 2 ^ 64

-- A descriptor of at least one page, inside the address space.
abbrev pub Fits : EfiMemoryDescriptor → Type 0
Fits d = (0 < d.number_of_pages) × (d.physical_start + d.number_of_pages * page_size < 2 ^ 64)

-- One turn adds the bytes of its descriptor, or stops because all the entries are in use.
pub record IsTurn (desc : EfiMemoryDescriptor) (c t : Conversion) : Type 0 where
  pub converting : IsConverting t
  pub adds :
      (address : ℕ) (usable : Bool)
      → in_mmap address usable t.efi_mmap_usable
        ≡ (in_mmap address usable c.efi_mmap_usable || in_descriptor address usable desc)

joined_start :
    (prev : MmapDesc) (desc : EfiMemoryDescriptor)
    → prev.physical_address + prev.pages * page_size < 2 ^ 64
    → continues prev desc ≡ true
    → prev.physical_address + prev.pages * page_size ≡ desc.physical_start
unfolding continues
joined_start prev desc fits joined = ground arith

merge-IsTurn :
    (desc : EfiMemoryDescriptor) (c : Conversion) (prev : MmapDesc)
    → IsConverting c
    → Fits desc
    → get_elem? c.efi_mmap_usable c.out_mmap_index ≡ some prev
    → 0 < c.efi_mmap_index
    → continues prev desc ≡ true
    → IsTurn desc c (record {
      efi_mmap_index = c.efi_mmap_index + 1;
      out_mmap_index = c.out_mmap_index;
      efi_mmap_usable =
          set c.efi_mmap_usable c.out_mmap_index
            (record prev { pages = (prev.pages + desc.number_of_pages) % 2 ^ 63 });
    })
merge-IsTurn desc c prev v fit at later joined =
    let new : MmapDesc = record prev { pages = (prev.pages + desc.number_of_pages) % 2 ^ 63 } in
    let prev_fits : prev.physical_address + prev.pages * page_size < 2 ^ 64 =
      v.fits prev at later in
    record {
      converting = record {
        sized = length-set c.efi_mmap_usable c.out_mmap_index new ∙ v.sized;
        inside = v.inside;
        blank = λ j d found above.
            v.blank j d
              (sym (get_elem?-set_ne c.efi_mmap_usable c.out_mmap_index j new (ground arith))
                ∙ found)
              (ground arith);
        in_use = λ j d found below. elim (Bool-cases (j == c.out_mmap_index)) [
          | inl here ↦ ground (
            arith,
            here,
            joined_start prev desc prev_fits joined,
            fit.0,
            fit.1,
            get_elem?-set_self c.efi_mmap_usable c.out_mmap_index new
                (ground (arith, v.sized, v.inside)),
          )
          | inr there ↦
              v.in_use j d
                (sym (get_elem?-set_ne c.efi_mmap_usable c.out_mmap_index j new (ground arith))
                  ∙ found)
                (ground arith)
        ];
        fits = λ d found positive. ground (
          arith,
          fit.1,
          joined_start prev desc prev_fits joined,
          get_elem?-set_self c.efi_mmap_usable c.out_mmap_index new
              (ground (arith, v.sized, v.inside)),
        );
      };
      adds = λ address usable.
          in_mmap-set address usable (in_descriptor address usable desc) c.efi_mmap_usable
            c.out_mmap_index prev new at
            (in_mmap_desc-continues address usable prev desc prev_fits fit.1 joined);
    }

new-IsTurn :
    (desc : EfiMemoryDescriptor) (c : Conversion)
    → IsConverting c
    → Fits desc
    → next_out c < rkhv_max_efi_mmap_descriptors
    → IsTurn desc c (record {
      efi_mmap_index = c.efi_mmap_index + 1;
      out_mmap_index = next_out c;
      efi_mmap_usable = set c.efi_mmap_usable (next_out c) (record {
        physical_address = desc.physical_start;
        pages = desc.number_of_pages % 2 ^ 63;
        usable = is_usable desc.memory_type;
      });
    })
new-IsTurn desc c v fit room =
    let new : MmapDesc = record {
      physical_address = desc.physical_start;
      pages = desc.number_of_pages % 2 ^ 63;
      usable = is_usable desc.memory_type;
    } in
    let (old, at) = get_elem?-some c.efi_mmap_usable (next_out c) (omega (arith, v.sized, room)) in
    record {
      converting = record {
        sized = length-set c.efi_mmap_usable (next_out c) new ∙ v.sized;
        inside = room;
        blank = λ j d found above.
            v.blank j d
              (sym (get_elem?-set_ne c.efi_mmap_usable (next_out c) j new (ground arith)) ∙ found)
              (ground arith);
        in_use = λ j d found below. elim (Bool-cases (j == next_out c)) [
          | inl here ↦ ground (
            arith,
            here,
            fit.0,
            fit.1,
            get_elem?-set_self c.efi_mmap_usable (next_out c) new (omega (arith, v.sized, room)),
          )
          | inr there ↦
              v.in_use j d
                (sym (get_elem?-set_ne c.efi_mmap_usable (next_out c) j new (ground arith)) ∙ found)
                (ground arith)
        ];
        fits = λ d found positive. ground (
          arith,
          fit.1,
          get_elem?-set_self c.efi_mmap_usable (next_out c) new (omega (arith, v.sized, room)),
        );
      };
      adds = λ address usable.
          in_mmap-set address usable (in_descriptor address usable desc) c.efi_mmap_usable
            (next_out c) old new at
            (in_mmap_desc-new address usable old desc (v.blank (next_out c) old at (omega arith))
              fit.1);
    }

convert_one-IsTurn_at :
    (desc : EfiMemoryDescriptor) (c : Conversion) (prev : MmapDesc)
    → IsConverting c
    → Fits desc
    → get_elem? c.efi_mmap_usable c.out_mmap_index ≡ some prev
    → ((convert_one desc c ≡ ok none) × (rkhv_max_efi_mmap_descriptors ≤ next_out c))
      ⊎ ((t : Conversion) × (convert_one desc c ≡ ok (some t)) × IsTurn desc c t)
unfolding convert_one
convert_one-IsTurn_at desc c prev v fit at =
    elim (Bool-cases (not (c.efi_mmap_index == 0) && continues prev desc)) [
      | inl joined ↦ inr (
        _,
        rw (convert_one, at, joined) refl,
        merge-IsTurn desc c prev v fit at (ground arith) (ground arith),
      )
      | inr apart ↦ elim (Bool-cases (leb rkhv_max_efi_mmap_descriptors (next_out c))) [
        | inl full ↦ inl (rw (convert_one, at, apart, full) refl, ground arith)
        | inr room ↦
            inr (_, rw (convert_one, at, apart, room) refl, new-IsTurn desc c v fit (ground arith))
      ]
    ]

pub convert_one-IsTurn :
    (desc : EfiMemoryDescriptor) (c : Conversion)
    → IsConverting c
    → Fits desc
    → ((convert_one desc c ≡ ok none) × (rkhv_max_efi_mmap_descriptors ≤ next_out c))
      ⊎ ((t : Conversion) × (convert_one desc c ≡ ok (some t)) × IsTurn desc c t)
convert_one-IsTurn desc c v fit =
    let (prev, at) =
      get_elem?-some c.efi_mmap_usable c.out_mmap_index (omega (arith, v.sized, v.inside)) in
    convert_one-IsTurn_at desc c prev v fit at
