-- ===== src/Text/Decimal.antt =====
-- The decimal text of str_utoa, hv/src/string.c.
use rkhv.Base.{
  ℕ, zero, suc, ◌+◌, ◌-◌, ◌*◌, ◌/◌, ◌%◌, ◌^◌, ◌<◌, ◌≤◌, ◌≡◌, refl, ap, ◌∙◌, List, [], ◌∷◌, ◌++◌,
  some, ◌==◌, set, take, length, length-set, get_elem?, get_elem?-set_self, get_elem?-set_ne, arith,
  Bool-cases, inl, inr,
}
use native.Mathlib.Nat.{pow-suc}
use rkhv.Text.{str_utoa_loop, str_utoa}

abbrev pub drop : ℕ → List ℕ → List ℕ
drop zero xs = xs
drop (suc n) [] = []
drop (suc n) (x ∷ xs) = drop n xs

-- The bytes from `start` to before `end`.
abbrev pub slice : List ℕ → ℕ → ℕ → List ℕ
slice buffer start end = drop start (take end buffer)

-- Reading a decimal number from left to right.
abbrev pub read_decimal : List ℕ → ℕ → ℕ
read_decimal [] acc = acc
read_decimal (c ∷ cs) acc = read_decimal cs (acc * 10 + (c - 48))

read_decimal-append :
    (cs : List ℕ) (c acc : ℕ)
    → read_decimal (cs ++ c ∷ []) acc ≡ read_decimal cs acc * 10 + (c - 48)
read_decimal-append [] c acc = refl
read_decimal-append (d ∷ cs) c acc = read_decimal-append cs c (acc * 10 + (d - 48))

take-suc : (xs : List ℕ) (i c : ℕ) → get_elem? xs i ≡ some c → take (suc i) xs ≡ take i xs ++ c ∷ []
take-suc [] i c e = cc
take-suc (x ∷ xs) zero c e = ap (λ d. d ∷ []) (ground (arith, e))
take-suc (x ∷ xs) (suc i) c e = ap (λ l. x ∷ l) (take-suc xs i c e)

drop-append : (s : ℕ) (xs ys : List ℕ) → s ≤ length xs → drop s (xs ++ ys) ≡ drop s xs ++ ys
drop-append zero xs ys h = refl
drop-append (suc s) [] ys h = absurd (omega arith)
drop-append (suc s) (x ∷ xs) ys h = drop-append s xs ys (omega arith)

drop-all : (s : ℕ) (xs : List ℕ) → length xs ≤ s → drop s xs ≡ []
drop-all zero [] h = refl
drop-all zero (x ∷ xs) h = absurd (omega arith)
drop-all (suc s) [] h = refl
drop-all (suc s) (x ∷ xs) h = drop-all s xs (omega arith)

length-take : (i : ℕ) (xs : List ℕ) → i ≤ length xs → length (take i xs) ≡ i
length-take zero xs h = refl
length-take (suc i) [] h = absurd (omega arith)
length-take (suc i) (x ∷ xs) h = ap suc (length-take i xs (omega arith))

-- One byte more at the right.
slice-suc :
    (xs : List ℕ) (s i c : ℕ)
    → s ≤ i
    → i < length xs
    → get_elem? xs i ≡ some c
    → slice xs s (suc i) ≡ slice xs s i ++ c ∷ []
slice-suc xs s i c h k e =
    ap (drop s) (take-suc xs i c e)
    ∙ drop-append s (take i xs) (c ∷ []) (rw (length-take i xs (omega arith)) h)

slice-empty : (xs : List ℕ) (i : ℕ) → i ≤ length xs → slice xs i i ≡ []
slice-empty xs i h = drop-all i (take i xs) (rw (length-take i xs h) (omega arith))

-- What the loop leaves in the buffer `r.0` and returns as the start `r.1`.
pub record IsText (r : List ℕ × ℕ) (buffer : List ℕ) (index value : ℕ) : Type 0 where
  pub length_same : length r.0 ≡ length buffer
  pub in_range : r.1 ≤ index
  pub reads : read_decimal (slice r.0 r.1 (suc index)) 0 ≡ value
  pub after : (j : ℕ) → index < j → get_elem? r.0 j ≡ get_elem? buffer j

str_utoa_loop-IsText :
    (index : ℕ) (buffer : List ℕ) (value : ℕ)
    → index < length buffer
    → value < 10 ^ suc index
    → IsText (str_utoa_loop index buffer value) buffer index value
unfolding str_utoa_loop
str_utoa_loop-IsText zero (b ∷ bs) value h lt = record {
  length_same = refl;
  in_range = omega arith;
  reads = omega arith;
  after = λ j k. get_elem?-set_ne (b ∷ bs) 0 j (48 + value % 10) (λ e. omega (arith, e));
}
str_utoa_loop-IsText zero [] value h lt = absurd (omega arith)
str_utoa_loop-IsText (suc i) buffer value h lt =
    let c = 48 + value % 10 in
    let ys = set buffer (suc i) c in
    let hl : length ys ≡ length buffer = length-set buffer (suc i) c in
    let here : get_elem? ys (suc i) ≡ some c = get_elem?-set_self buffer (suc i) c h in
    let other : (j : ℕ) → suc i < j → get_elem? ys j ≡ get_elem? buffer j =
      λ j k. get_elem?-set_ne buffer (suc i) j c (λ e. omega (arith, e)) in
    elim (Bool-cases (value / 10 == 0)) [
      | inl z ↦
          let small : value / 10 ≡ 0 = ground (arith, z) in
          let sl : slice ys (suc i) (suc (suc i)) ≡ c ∷ [] =
            slice-suc ys (suc i) (suc i) c (omega arith) (omega (arith, hl)) here
            ∙ ap (λ l. l ++ c ∷ []) (slice-empty ys (suc i) (omega (arith, hl))) in
          rw z (record {
            length_same = hl;
            in_range = omega arith;
            reads = ap (λ l. read_decimal l 0) sl ∙ omega (arith, small);
            after = other;
          })
      | inr z ↦
          let r = str_utoa_loop i ys (value / 10) in
          let t =
            str_utoa_loop-IsText i ys (value / 10) (omega (arith, hl))
              (omega (arith, pow-suc 10 (suc i))) in
          let same = t.after (suc i) (omega arith) ∙ here in
          let ir = t.in_range in
          let sl =
            slice-suc r.0 r.1 (suc i) c (omega arith) (omega (arith, hl, t.length_same)) same in
          rw z (record {
            length_same = t.length_same ∙ hl;
            in_range = omega arith;
            reads =
                ap (λ l. read_decimal l 0) sl
                ∙ read_decimal-append (slice r.0 r.1 (suc i)) c 0
                ∙ omega (arith, t.reads);
            after = λ j k. t.after j (omega arith) ∙ other j k;
          })
    ]

-- A number that fits in the given number of bytes is written so that, read from the returned
-- start to the end, it is the number again; the start is in the buffer, and the bytes behind the
-- text are not touched.
pub str_utoa-IsText :
    (buffer : List ℕ) (value buffer_size : ℕ)
    → 0 < buffer_size
    → buffer_size ≤ length buffer
    → value < 10 ^ buffer_size
    → IsText (str_utoa buffer value buffer_size) buffer (buffer_size - 1) value
unfolding str_utoa
str_utoa-IsText buffer value zero p h lt = absurd (omega arith)
str_utoa-IsText buffer value (suc n) p h lt =
    let e : suc n - 1 ≡ n = omega arith in
    rw e (str_utoa_loop-IsText n buffer value (omega arith) lt)
