-- ===== src/Prelude/Rows.antt =====
-- What the statements of `Tables` keep: membership, keys and counts. Rows are data of `Type 0`.
use Prim.Native.Nat.{ℕ, zero, suc, ◌+◌, ◌≤◌, min}
use mathlib.Core.Path.{◌≡◌, refl, sym, subst}
use mathlib.Core.Logic.{◌⊎◌, inl, inr}
use mathlib.Core.Bool.{Bool, true, false, not}
use mathlib.Core.List.{List, [], ◌∷◌, ◌++◌}
use mathlib.Core.Option.{none, some}
use native.Mathlib.Omega.{arith}
use transport_lookout.Prelude.Tests.{if◌then◌else◌, Bool-cases, is_none, Option-cases}
use transport_lookout.Prelude.Tables.{
  length, select, count, find, modify, delete, take, insert_by, order_by,
}

module _ {A : Type 0} where
  -- `x` is a row of the table.
  abbrev pub In : A → List A → Type 0
  In x [] = ⊥
  In x (y ∷ ys) = (x ≡ y) ⊎ In x ys

  abbrev pub All : (A → Type 0) → List A → Type 0
  All P [] = Unit
  All P (x ∷ xs) = P x × All P xs

  pub All-In : (P : A → Type 0) (x : A) (xs : List A) → All P xs → In x xs → P x
  All-In P x [] h m = absurd m
  All-In P x (y ∷ ys) h (inl e) = subst P (sym e) h.0
  All-In P x (y ∷ ys) h (inr m) = All-In P x ys h.1 m

  pub All-intro : (P : A → Type 0) (xs : List A) → ((x : A) → In x xs → P x) → All P xs
  All-intro P [] h = tt
  All-intro P (x ∷ xs) h = (h x (inl refl), All-intro P xs (λ y m. h y (inr m)))

  pub All-modify :
      (P Q : A → Type 0) (p : A → Bool) (f : A → A) (xs : List A)
      → ((x : A) → p x ≡ true → P x → Q (f x))
      → ((x : A) → p x ≡ false → P x → Q x)
      → All P xs
      → All Q (modify p f xs)
  unfolding modify
  All-modify P Q p f [] h k a = tt
  All-modify P Q p f (x ∷ xs) h k a = elim (Bool-cases (p x)) [
    | inl e ↦ rw e (h x e a.0, All-modify P Q p f xs h k a.1)
    | inr e ↦ rw e (k x e a.0, All-modify P Q p f xs h k a.1)
  ]

  pub In-append : (x : A) (xs ys : List A) → In x (xs ++ ys) → In x xs ⊎ In x ys
  In-append x [] ys m = inr m
  In-append x (z ∷ zs) ys m = ground (arith, In-append x zs ys)

  pub In-append_left : (x : A) (xs ys : List A) → In x xs → In x (xs ++ ys)
  In-append_left x [] ys m = absurd m
  In-append_left x (z ∷ zs) ys m = ground (arith, In-append_left x zs ys)

  pub In-append_right : (x : A) (xs ys : List A) → In x ys → In x (xs ++ ys)
  In-append_right x [] ys m = m
  In-append_right x (z ∷ zs) ys m = inr (In-append_right x zs ys m)

  pub In-select : (p : A → Bool) (x : A) (xs : List A) → In x (select p xs) → In x xs × (p x ≡ true)
  unfolding select
  In-select p x [] m = absurd m
  In-select p x (y ∷ ys) m = ground (arith, In-select p x ys)

  pub In-select_intro :
      (p : A → Bool) (x : A) (xs : List A) → In x xs → p x ≡ true → In x (select p xs)
  unfolding select
  In-select_intro p x [] m h = absurd m
  In-select_intro p x (y ∷ ys) m h = ground (arith, In-select_intro p x ys)

  pub In-delete :
      (p : A → Bool) (x : A) (xs : List A) → In x (delete p xs) → In x xs × (p x ≡ false)
  unfolding delete
  In-delete p x [] m = absurd m
  In-delete p x (y ∷ ys) m = ground (arith, In-delete p x ys)

  pub In-delete_intro :
      (p : A → Bool) (x : A) (xs : List A) → In x xs → p x ≡ false → In x (delete p xs)
  unfolding delete
  In-delete_intro p x [] m h = absurd m
  In-delete_intro p x (y ∷ ys) m h = ground (arith, In-delete_intro p x ys)

  pub In-take : (n : ℕ) (x : A) (xs : List A) → In x (take n xs) → In x xs
  unfolding take
  In-take zero x xs m = absurd m
  In-take (suc n) x [] m = m
  In-take (suc n) x (y ∷ ys) m = ground (arith, In-take n x ys)

  In-insert_by :
      (le : A → A → Bool) (x y : A) (ys : List A) → In x (insert_by le y ys) → (x ≡ y) ⊎ In x ys
  unfolding insert_by
  In-insert_by le x y [] m = m
  In-insert_by le x y (z ∷ zs) m = ground (arith, In-insert_by le x y zs)

  pub In-order_by : (le : A → A → Bool) (x : A) (xs : List A) → In x (order_by le xs) → In x xs
  unfolding order_by
  In-order_by le x [] m = m
  In-order_by le x (y ∷ ys) m =
      ground (arith, In-insert_by le x y (order_by le ys), In-order_by le x ys)

  -- A row of the updated table is the update of a row that the test picked, or a row that it did not.
  pub In-modify :
      (p : A → Bool) (f : A → A) (x : A) (xs : List A)
      → In x (modify p f xs)
      → (y : A) × In y xs × ((p y ≡ true) × (x ≡ f y) ⊎ (p y ≡ false) × (x ≡ y))
  unfolding modify
  In-modify p f x [] m = absurd m
  In-modify p f x (y ∷ ys) (inl e) = elim (Bool-cases (p y)) [
    | inl h ↦ (y, inl refl, inl (h, rw h at e))
    | inr h ↦ (y, inl refl, inr (h, rw h at e))
  ]
  In-modify p f x (y ∷ ys) (inr m) = let r = In-modify p f x ys m in (r.0, inr r.1, r.2)

  pub In-modify_intro :
      (p : A → Bool) (f : A → A) (x : A) (xs : List A)
      → In x xs
      → In (if p x then f x else x) (modify p f xs)
  unfolding modify
  In-modify_intro p f x [] m = absurd m
  In-modify_intro p f x (y ∷ ys) (inl e) = inl (λ i. if p (e i) then f (e i) else e i)
  In-modify_intro p f x (y ∷ ys) (inr m) = inr (In-modify_intro p f x ys m)

  -- An update that picks no row is none.
  pub modify_none :
      (p : A → Bool) (f : A → A) (xs : List A)
      → ((x : A) → In x xs → p x ≡ false)
      → modify p f xs ≡ xs
  unfolding modify
  modify_none p f [] h = refl
  modify_none p f (x ∷ xs) h = ground (arith, h x, modify_none p f xs (λ y m. h y (inr m)))

  pub find-none_intro :
      (p : A → Bool) (xs : List A) → ((x : A) → In x xs → p x ≡ false) → find p xs ≡ none
  unfolding find
  find-none_intro p [] h = refl
  find-none_intro p (x ∷ xs) h = ground (arith, h x, find-none_intro p xs (λ y m. h y (inr m)))

  pub find-In : (p : A → Bool) (x : A) (xs : List A) → find p xs ≡ some x → In x xs × (p x ≡ true)
  unfolding find
  find-In p x [] e = absurd (cc)
  find-In p x (y ∷ ys) e = ground (arith, find-In p x ys)

  pub find-none : (p : A → Bool) (x : A) (xs : List A) → find p xs ≡ none → In x xs → p x ≡ false
  unfolding find
  find-none p x [] e m = absurd m
  find-none p x (y ∷ ys) e m = ground (arith, find-none p x ys)

  pub not_found :
      (p : A → Bool) (x : A) (xs : List A)
      → not (is_none (find p xs)) ≡ false
      → In x xs
      → p x ≡ false
  not_found p x xs h m = elim (Option-cases (find p xs)) [
    | inl e ↦ find-none p x xs e m
    | inr (y, e) ↦ ground (arith, e, h)
  ]

  -- Counts.

  pub count-zero : (p : A → Bool) (x : A) (xs : List A) → count p xs ≡ 0 → In x xs → p x ≡ false
  unfolding count
  count-zero p x [] e m = absurd m
  count-zero p x (y ∷ ys) e m = ground (arith, count-zero p x ys)

  pub count-zero_intro :
      (p : A → Bool) (xs : List A) → ((x : A) → In x xs → p x ≡ false) → count p xs ≡ 0
  unfolding count
  count-zero_intro p [] h = refl
  count-zero_intro p (y ∷ ys) h = ground (arith, h y, count-zero_intro p ys (λ x m. h x (inr m)))

  pub count-pos : (p : A → Bool) (x : A) (xs : List A) → In x xs → p x ≡ true → 1 ≤ count p xs
  unfolding count
  count-pos p x [] m h = absurd m
  count-pos p x (y ∷ ys) m h = ground (arith, count-pos p x ys)

  pub length-select : (p : A → Bool) (xs : List A) → length (select p xs) ≡ count p xs
  unfolding select count
  length-select p [] = refl
  length-select p (y ∷ ys) = ground (arith, length-select p ys)

  length-insert_by :
      (le : A → A → Bool) (x : A) (xs : List A) → length (insert_by le x xs) ≡ suc (length xs)
  unfolding insert_by
  length-insert_by le x [] = refl
  length-insert_by le x (y ∷ ys) = ground (arith, length-insert_by le x ys)

  pub length-order_by : (le : A → A → Bool) (xs : List A) → length (order_by le xs) ≡ length xs
  unfolding order_by
  length-order_by le [] = refl
  length-order_by le (x ∷ xs) =
      omega (arith, length-insert_by le x (order_by le xs), length-order_by le xs)

  pub length-take : (n : ℕ) (xs : List A) → length (take n xs) ≡ min n (length xs)
  unfolding take
  length-take zero xs = omega arith
  length-take (suc n) [] = omega arith
  length-take (suc n) (x ∷ xs) = omega (arith, length-take n xs)

  -- An update raises a count by at most the number of rows that it changes.
  pub count-modify_le :
      (q p : A → Bool) (f : A → A) (xs : List A) → count q (modify p f xs) ≤ count q xs + count p xs
  unfolding count modify
  count-modify_le q p f [] = omega arith
  count-modify_le q p f (x ∷ xs) = ground (arith, count-modify_le q p f xs)

  -- An update that never makes a row pass the test does not raise the count.
  pub count-modify_mono :
      (q p : A → Bool) (f : A → A)
      → ((x : A) → p x ≡ true → q (f x) ≡ true → q x ≡ true)
      → (xs : List A) → count q (modify p f xs) ≤ count q xs
  unfolding count modify
  count-modify_mono q p f h [] = omega arith
  count-modify_mono q p f h (x ∷ xs) = ground (arith, h x, count-modify_mono q p f h xs)

  -- An update that the test does not see leaves the count.
  pub count-modify_same :
      (q p : A → Bool) (f : A → A)
      → ((x : A) → q (f x) ≡ q x)
      → (xs : List A) → count q (modify p f xs) ≡ count q xs
  unfolding count modify
  count-modify_same q p f h [] = refl
  count-modify_same q p f h (x ∷ xs) = ground (arith, h x, count-modify_same q p f h xs)

  pub count-append : (p : A → Bool) (xs ys : List A) → count p (xs ++ ys) ≡ count p xs + count p ys
  unfolding count
  count-append p [] ys = omega arith
  count-append p (x ∷ xs) ys = ground (arith, count-append p xs ys)

  -- DELETE … WHERE p, then INSERT of rows that pass p: the other rows stay, and these are the new ones.
  delete_all :
      (p : A → Bool) (rows : List A) → ((y : A) → In y rows → p y ≡ true) → delete p rows ≡ []
  unfolding delete
  delete_all p [] h = refl
  delete_all p (y ∷ ys) h = ground (arith, h y (inl refl), delete_all p ys (λ z m. h z (inr m)))

  select_all :
      (p : A → Bool) (rows : List A) → ((y : A) → In y rows → p y ≡ true) → select p rows ≡ rows
  unfolding select
  select_all p [] h = refl
  select_all p (y ∷ ys) h = ground (arith, h y (inl refl), select_all p ys (λ z m. h z (inr m)))

  pub delete-replace :
      (p : A → Bool) (xs rows : List A)
      → ((y : A) → In y rows → p y ≡ true)
      → delete p (delete p xs ++ rows) ≡ delete p xs
  unfolding delete
  delete-replace p [] rows h = delete_all p rows h
  delete-replace p (x ∷ xs) rows h = ground (arith, delete-replace p xs rows h)

  pub select-replace :
      (p : A → Bool) (xs rows : List A)
      → ((y : A) → In y rows → p y ≡ true)
      → select p (delete p xs ++ rows) ≡ rows
  unfolding delete select
  select-replace p [] rows h = select_all p rows h
  select-replace p (x ∷ xs) rows h = ground (arith, select-replace p xs rows h)

-- Two tables that correspond row by row.
abbrev pub Paired : {A B : Type 0} → (A → B → Type 0) → List A → List B → Type 0
Paired R [] [] = Unit
Paired R [] (y ∷ ys) = ⊥
Paired R (x ∷ xs) [] = ⊥
Paired R (x ∷ xs) (y ∷ ys) = R x y × Paired R xs ys
