-- ===== src/Boot/Paging/Pool.antt =====
-- The list of page table regions that the boot loader hands on.
use rkhv.Base.{
  ℕ, ◌+◌, ◌*◌, ◌%◌, ◌^◌, ◌<◌, ◌≤◌, ◌≡◌, refl, ◌∙◌, Bool, true, false, ◌&&◌, ◌||◌, some, List, [],
  ◌∷◌, ◌++◌, ltb, leb, ◌==◌, length, arith, Bool-cases, Option-cases, inl, inr, ◌⊎◌,
}
use rkhv.Memory.{page_size}
use rkhv.Mm.Chainload.{Region}
use rkhv.Boot.Paging.{success, error, buffer_too_small, collapse, add_to_pool}

abbrev pub covers : ℕ → ℕ → ℕ → Bool
covers first pages byte = leb first byte && ltb byte (first + page_size * pages)

abbrev pub covered : List Region → ℕ → Bool
covered [] byte = false
covered (r ∷ rs) byte = covers r.physical_address r.pages byte || covered rs byte

-- Regions that end below 2 ^ 63.
abbrev pub AllLow : List Region → Type 0
AllLow [] = Unit {0}
AllLow (r ∷ rs) = (r.physical_address + page_size * r.pages < 2 ^ 63) × AllLow rs

join_before :
    (address count first pages byte : ℕ)
    → address + page_size * count ≡ first
    → covers address (pages + count) byte ≡ (covers first pages byte || covers address count byte)
join_before address count first pages byte e = ground arith

join_after :
    (address count first pages byte : ℕ)
    → address ≡ first + page_size * pages
    → covers first (pages + count) byte ≡ (covers first pages byte || covers address count byte)
join_after address count first pages byte e = ground arith

swap : (a b c : Bool) → ((a || c) || b) ≡ ((a || b) || c)
swap true b c = refl
swap false true true = refl
swap false true false = refl
swap false false true = refl
swap false false false = refl

group : (a b c : Bool) → (a || (b || c)) ≡ ((a || b) || c)
group true b c = refl
group false b c = refl

module _ (address count : ℕ) (low : address + page_size * count < 2 ^ 63) where
  collapse-covered :
      (pool pool' : List Region) (byte : ℕ)
      → AllLow pool
      → collapse address count pool ≡ some pool'
      → covered pool' byte ≡ (covered pool byte || covers address count byte)
  unfolding collapse
  collapse-covered [] pool' byte all e = cc
  collapse-covered (r ∷ rs) pool' byte all e =
      let h = all.0 in
      elim (Bool-cases ((address + page_size * count) % 2 ^ 64 == r.physical_address)) [
        | inl x ↦
            let n : (r.pages + count) % 2 ^ 64 ≡ r.pages + count = omega arith in
            let el : pool' ≡ record { physical_address = address; pages = r.pages + count } ∷ rs =
              ground (arith, x, e, n) in
            rw (el, join_before address count r.physical_address r.pages byte (ground (arith, x)))
              (swap (covers r.physical_address r.pages byte) (covered rs byte)
                (covers address count byte))
        | inr x ↦
            elim (Bool-cases (address == (r.physical_address + page_size * r.pages) % 2 ^ 64)) [
              | inl y ↦
                  let n : (r.pages + count) % 2 ^ 64 ≡ r.pages + count = omega arith in
                  let el : pool'
                      ≡ record { physical_address = r.physical_address; pages = r.pages + count }
                        ∷ rs =
                    ground (arith, x, y, e, n) in
                  rw
                    (
                      el,
                      join_after address count r.physical_address r.pages byte (ground (arith, y)),
                    )
                    (swap (covers r.physical_address r.pages byte) (covered rs byte)
                      (covers address count byte))
              | inr y ↦ elim (Option-cases (collapse address count rs)) [
                | inl z ↦ ground (arith, x, y, z, e)
                | inr (rs', z) ↦
                    let el : pool' ≡ r ∷ rs' = ground (arith, x, y, z, e) in
                    rw (el, collapse-covered rs rs' byte all.1 z)
                      (group (covers r.physical_address r.pages byte) (covered rs byte)
                        (covers address count byte))
              ]
            ]
      ]

  covered-append :
      (pool : List Region) (byte : ℕ)
      → covered (pool ++ record { physical_address = address; pages = count } ∷ []) byte
        ≡ (covered pool byte || covers address count byte)
  covered-append [] byte =
      group (covers address count byte) false false ∙ or_false (covers address count byte)
    where
      or_false : (b : Bool) → ((b || false) || false) ≡ b
      or_false true = refl
      or_false false = refl
  covered-append (r ∷ rs) byte =
      rw (covered-append rs byte) (
        group (covers r.physical_address r.pages byte) (covered rs byte)
          (covers address count byte))

  -- Pages that the firmware allocates for tables, below 2 ^ 63 like the regions already in the
  -- pool, are either recorded, so that the pool covers exactly what it covered and these pages,
  -- or the pool is full and the error is EFI_BUFFER_TOO_SMALL.
  pub add_to_pool-covered :
      (capacity : ℕ) (pool : List Region) (byte : ℕ)
      → AllLow pool
      → ((pool' : List Region) × (add_to_pool address count capacity pool ≡ success pool')
          × (covered pool' byte ≡ (covered pool byte || covers address count byte)))
        ⊎ ((capacity ≤ length pool)
            × (add_to_pool address count capacity pool ≡ error buffer_too_small))
  unfolding add_to_pool
  add_to_pool-covered capacity pool byte all = elim (Option-cases (collapse address count pool)) [
    | inr (p, e) ↦ inl (p, rw (add_to_pool, e) refl, collapse-covered pool p byte all e)
    | inl e ↦ elim (Bool-cases (leb capacity (length pool))) [
      | inl full ↦ inr (ground (arith, full), rw (add_to_pool, e, full) refl)
      | inr room ↦ inl (
        pool ++ record { physical_address = address; pages = count } ∷ [],
        rw (add_to_pool, e, room) refl,
        covered-append pool byte,
      )
    ]
  ]
