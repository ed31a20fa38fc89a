-- ===== src/Service/Bulk/Chunks.antt =====
-- chunkSeats cuts the request into pieces that are not too long and that make up the request.
use mathlib.Core.List.{flatten, append-nil}
use ticket_master.Prelude.{
  ℕ, zero, suc, ◌+◌, ◌-◌, ◌≤◌, ◌<◌, ◌≡◌, refl, List, [], ◌∷◌, ◌++◌, arith, ltb, ◌∙◌, ap, sym,
  length, take, drop, Bool-cases, inl, inr,
}
use ticket_master.Service.Bulk.{slice, chunk_end, chunk_from, chunk_seats}

module _ {ℓ} {A : Type ℓ} where
  take-append-drop : (n : ℕ) (xs : List A) → take n xs ++ drop n xs ≡ xs
  take-append-drop zero xs = refl
  take-append-drop (suc n) [] = refl
  take-append-drop (suc n) (x ∷ xs) = rw (take-append-drop n xs)

  drop-nil : (n : ℕ) → drop {A = A} n [] ≡ []
  drop-nil zero = refl
  drop-nil (suc n) = refl

  drop-drop : (n i : ℕ) (xs : List A) → drop n (drop i xs) ≡ drop (i + n) xs
  drop-drop n zero xs = ap (λ k. drop k xs) (omega arith)
  drop-drop n (suc i) [] = drop-nil n ∙ sym (drop-nil (suc i + n))
  drop-drop n (suc i) (x ∷ xs) =
      let step : suc (i + n) ≡ suc i + n = omega arith in
      drop-drop n i xs ∙ ap (λ k. drop k (x ∷ xs)) step

  drop_all : (n : ℕ) (xs : List A) → length xs ≤ n → drop n xs ≡ []
  drop_all zero [] h = refl
  drop_all zero (x ∷ xs) h = absurd (omega arith)
  drop_all (suc n) [] h = refl
  drop_all (suc n) (x ∷ xs) h = drop_all n xs (omega arith)

  take_all : (n : ℕ) (xs : List A) → length xs ≤ n → take n xs ≡ xs
  take_all zero [] h = refl
  take_all zero (x ∷ xs) h = absurd (omega arith)
  take_all (suc n) [] h = refl
  take_all (suc n) (x ∷ xs) h = ap (◌∷◌ x) (take_all n xs (omega arith))

  length-drop : (n : ℕ) (xs : List A) → length (drop n xs) ≡ length xs - n
  length-drop zero xs = omega arith
  length-drop (suc n) [] = omega arith
  length-drop (suc n) (x ∷ xs) = omega (arith, length-drop n xs)

  -- The piece that a round cuts off, and what it leaves.
  cut :
      (xs : List A) (size i : ℕ)
      → i < length xs
      → slice xs i (chunk_end (length xs) size i) ++ drop (i + size) xs ≡ drop i xs
  cut xs size i h = elim (Bool-cases (ltb (length xs) (i + size))) [
    | inl last ↦
        rw (last, drop_all (i + size) xs (ground arith))
          (append-nil _ ∙ take_all (length xs - i) (drop i xs) (omega (arith, length-drop i xs)))
    | inr more ↦
        let n : i + size - i ≡ size = omega arith in
        rw (more, n, ← drop-drop size i xs) (take-append-drop size (drop i xs))
  ]

  flatten-chunk_from :
      (fuel : ℕ) (xs : List A) (size i : ℕ)
      → 0 < size
      → length xs ≤ i + fuel
      → flatten (chunk_from fuel xs size i) ≡ drop i xs
  unfolding chunk_from flatten
  flatten-chunk_from zero xs size i p h = sym (drop_all i xs (omega arith))
  flatten-chunk_from (suc fuel) xs size i p h = elim (Bool-cases (ltb i (length xs))) [
    | inl more ↦
        rw (more, flatten-chunk_from fuel xs size (i + size) p (omega arith))
          (cut xs size i (ground arith))
    | inr done ↦ rw done (sym (drop_all i xs (ground arith)))
  ]

  -- The chunks, in their order, make up the list that was cut, whatever the positive size.
  pub flatten-chunk_seats : (xs : List A) (size : ℕ) → 0 < size → flatten (chunk_seats xs size) ≡ xs
  unfolding chunk_seats
  flatten-chunk_seats xs size p = flatten-chunk_from (length xs) xs size 0 p (omega arith)

  length-take-le : (n : ℕ) (xs : List A) → length (take n xs) ≤ n
  length-take-le zero xs = omega arith
  length-take-le (suc n) [] = omega arith
  length-take-le (suc n) (x ∷ xs) = omega (arith, length-take-le n xs)

  abbrev pub AtMost : ℕ → List (List A) → Type 0
  AtMost size [] = Unit {0}
  AtMost size (c ∷ cs) = (length c ≤ size) × AtMost size cs

  chunk_from-AtMost :
      (fuel : ℕ) (xs : List A) (size i : ℕ) → AtMost size (chunk_from fuel xs size i)
  unfolding chunk_from
  chunk_from-AtMost zero xs size i = tt
  chunk_from-AtMost (suc fuel) xs size i = ground (
    arith,
    length-take-le (chunk_end (length xs) size i - i) (drop i xs),
    chunk_from-AtMost fuel xs size (i + size),
  )

  -- No chunk is longer than the size that was asked for.
  pub chunk_seats-AtMost : (xs : List A) (size : ℕ) → AtMost size (chunk_seats xs size)
  unfolding chunk_seats
  chunk_seats-AtMost xs size = chunk_from-AtMost (length xs) xs size 0
