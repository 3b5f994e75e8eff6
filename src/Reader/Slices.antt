-- ===== src/Reader/Slices.antt =====
-- The rows that one round of the loop hands out and those that it leaves, as parts of a chunk.
use mathlib.Core.List.{Sublist, append_assoc}
use mathlib.Core.List.Sublist
use duckdb_iceberg.Common.{
  sym, ℕ, zero, suc, ◌+◌, ◌-◌, ◌≤◌, ◌≡◌, ap, ◌∙◌, ◌⊎◌, inl, inr, Option, none, some, List, [], ◌∷◌,
  ◌++◌, arith, length, drop, take, filter_map, filter_map-append, option_cons, drop-drop,
  take-append-drop, drop_of_length-le,
}

module _ {ℓ κ} {A : Type ℓ} {B : Type κ} (f : A → Option B) where
  drop-sublist : (n : ℕ) (xs : List A) → Sublist (filter_map f (drop n xs)) (filter_map f xs)
  drop-sublist n [] = Sublist.refl []
  drop-sublist zero (x ∷ xs) = Sublist.refl _
  drop-sublist (suc n) (x ∷ xs) = option_cons-sublist (f x) (drop-sublist n xs)
    where
      option_cons-sublist :
          (o : Option B) {ys zs : List B} → Sublist ys zs → Sublist ys (option_cons o zs)
      option_cons-sublist none h = h
      option_cons-sublist (some y) h = Sublist.cons y h

  slice_order :
      (n k : ℕ) (d ys : List A)
      → Sublist
          (filter_map f (take n d) ++ filter_map f (drop k (drop n d) ++ ys))
          (filter_map f (d ++ ys))
  slice_order n k d ys =
      let split : filter_map f d ≡ filter_map f (take n d) ++ filter_map f (drop n d) =
        sym (ap (filter_map f) (take-append-drop n d))
        ∙ filter_map-append f (take n d) (drop n d) in
      let rest = Sublist.append (drop-sublist k (drop n d)) (Sublist.refl (filter_map f ys)) in
      rw (filter_map-append f (drop k (drop n d)) ys, filter_map-append f d ys, split, append_assoc)
        (Sublist.append (Sublist.refl (filter_map f (take n d))) rest)

  -- The rows `n` to `count` of the slice are the ones that a round may pass over.
  pub round_order :
      (o n count : ℕ) (xs ys : List A)
      → n ≤ count
      → Sublist
          (filter_map f (take n (drop o xs)) ++ filter_map f (drop (o + count) xs ++ ys))
          (filter_map f (drop o xs ++ ys))
  round_order o n count xs ys h =
      let later : drop (o + count) xs ≡ drop (count - n) (drop n (drop o xs)) =
        rw (drop-drop (count - n) n (drop o xs), drop-drop (n + (count - n)) o xs)
          (ap (λ k. drop (o + k) xs) (omega arith)) in
      rw later (slice_order n (count - n) (drop o xs) ys)

  -- No row is passed over if the round is the first of its call, or takes the chunk to its end.
  pub round_exact :
      (o n count : ℕ) (xs ys : List A)
      → (n ≡ count) ⊎ (length xs ≤ o + n)
      → n ≤ count
      → filter_map f (take n (drop o xs)) ++ filter_map f (drop (o + count) xs ++ ys)
        ≡ filter_map f (drop o xs ++ ys)
  round_exact o n count xs ys cases h =
      let later : drop (o + count) xs ≡ drop n (drop o xs) = elim cases [
        | inl e ↦ rw (drop-drop n o xs) (ap (λ k. drop (o + k) xs) (sym e))
        | inr e ↦
            rw (drop-drop n o xs, drop_of_length-le (o + n) xs e)
              (drop_of_length-le (o + count) xs (omega arith))
      ] in
      rw
        (
          later,
          ← filter_map-append f (take n (drop o xs)) (drop n (drop o xs) ++ ys),
          ← append_assoc,
        )
        (ap (λ zs. filter_map f (zs ++ ys)) (take-append-drop n (drop o xs)))
