-- ===== src/Prelude/Keys.antt =====
-- Primary keys: no two rows of a table have one key.
use Prim.Native.Nat.{ℕ, zero, suc, ◌≤◌}
use Prim.Native.String.{String}
use mathlib.Core.Path.{◌≡◌, refl, sym, ap, ◌∙◌}
use mathlib.Core.Logic.{◌⊎◌, inl, inr, ◌≢◌}
use mathlib.Core.Bool.{Bool, true, false}
use mathlib.Core.List.{List, [], ◌∷◌, ◌++◌}
use mathlib.Core.Option.{none, some}
use native.Mathlib.Omega.{arith}
use text.Mathlib.TextEquality.{eq_iff}
use transport_lookout.Prelude.Tests.{if◌then◌else◌, ◌==◌, string_eq, Bool-cases}
use transport_lookout.Prelude.Tables.{
  select, count, find, modify, delete, take, insert_by, order_by,
}
use transport_lookout.Prelude.Rows.{In, In-append, In-select, In-take, In-order_by, modify_none}

module _ {A K : Type 0} (key : A → K) where
  abbrev pub Apart : A → List A → Type 0
  Apart x [] = Unit
  Apart x (y ∷ ys) = (key x ≢ key y) × Apart x ys

  abbrev pub Distinct : List A → Type 0
  Distinct [] = Unit
  Distinct (x ∷ xs) = Apart x xs × Distinct xs

  pub Apart-In : (x y : A) (xs : List A) → Apart x xs → In y xs → key x ≢ key y
  Apart-In x y [] h m = absurd m
  Apart-In x y (z ∷ zs) h (inl e) = λ k. h.0 (k ∙ ap key e)
  Apart-In x y (z ∷ zs) h (inr m) = Apart-In x y zs h.1 m

  pub Apart-intro : (x : A) (xs : List A) → ((y : A) → In y xs → key x ≢ key y) → Apart x xs
  Apart-intro x [] h = tt
  Apart-intro x (y ∷ ys) h = (h y (inl refl), Apart-intro x ys (λ z m. h z (inr m)))

  -- Rows of one key are one row.
  pub Distinct-In :
      (x y : A) (xs : List A) → Distinct xs → In x xs → In y xs → key x ≡ key y → x ≡ y
  Distinct-In x y [] d m n e = absurd m
  Distinct-In x y (z ∷ zs) d (inl a) (inl b) e = a ∙ sym b
  Distinct-In x y (z ∷ zs) d (inl a) (inr n) e = absurd (Apart-In z y zs d.0 n (ap key (sym a) ∙ e))
  Distinct-In x y (z ∷ zs) d (inr m) (inl b) e =
      absurd (Apart-In z x zs d.0 m (ap key (sym b) ∙ sym e))
  Distinct-In x y (z ∷ zs) d (inr m) (inr n) e = Distinct-In x y zs d.1 m n e

  pub Distinct-append :
      (xs ys : List A)
      → Distinct xs
      → Distinct ys
      → ((x y : A) → In x xs → In y ys → key x ≢ key y)
      → Distinct (xs ++ ys)
  Distinct-append [] ys d e h = e
  Distinct-append (x ∷ xs) ys d e h = (
    Apart-intro x (xs ++ ys) (λ y m. apart y (In-append y xs ys m)),
    Distinct-append xs ys d.1 e (λ z y i j. h z y (inr i) j),
  )
    where
      apart : (y : A) → In y xs ⊎ In y ys → key x ≢ key y
      apart y (inl i) = Apart-In x y xs d.0 i
      apart y (inr j) = h x y (inl refl) j

  pub Distinct-select : (p : A → Bool) (xs : List A) → Distinct xs → Distinct (select p xs)
  unfolding select
  Distinct-select p [] d = tt
  Distinct-select p (x ∷ xs) d = elim (Bool-cases (p x)) [
    | inl e ↦ rw e (
      Apart-intro x (select p xs) (λ y m. Apart-In x y xs d.0 (In-select p y xs m).0),
      Distinct-select p xs d.1,
    )
    | inr e ↦ rw e (Distinct-select p xs d.1)
  ]

  pub Distinct-take : (n : ℕ) (xs : List A) → Distinct xs → Distinct (take n xs)
  unfolding take
  Distinct-take zero xs d = tt
  Distinct-take (suc n) [] d = tt
  Distinct-take (suc n) (x ∷ xs) d = (
    Apart-intro x (take n xs) (λ y m. Apart-In x y xs d.0 (In-take n y xs m)),
    Distinct-take n xs d.1,
  )

  Apart-insert_by :
      (le : A → A → Bool) (x y : A) (ys : List A)
      → key x ≢ key y
      → Apart x ys
      → Apart x (insert_by le y ys)
  unfolding insert_by
  Apart-insert_by le x y [] h a = (h, tt)
  Apart-insert_by le x y (z ∷ zs) h a = ground (arith, Apart-insert_by le x y zs)

  Distinct-insert_by :
      (le : A → A → Bool) (x : A) (xs : List A)
      → Apart x xs
      → Distinct xs
      → Distinct (insert_by le x xs)
  unfolding insert_by
  Distinct-insert_by le x [] a d = (tt, tt)
  Distinct-insert_by le x (y ∷ ys) a d = elim (Bool-cases (le x y)) [
    | inl e ↦ rw e (a, d)
    | inr e ↦
        rw e (Apart-insert_by le y x ys (λ k. a.0 (sym k)) d.0, Distinct-insert_by le x ys a.1 d.1)
  ]

  pub Distinct-order_by :
      (le : A → A → Bool) (xs : List A) → Distinct xs → Distinct (order_by le xs)
  unfolding order_by
  Distinct-order_by le [] d = tt
  Distinct-order_by le (x ∷ xs) d =
      Distinct-insert_by le x (order_by le xs)
        (Apart-intro x (order_by le xs) (λ y m. Apart-In x y xs d.0 (In-order_by le y xs m)))
        (Distinct-order_by le xs d.1)

  module _ (p : A → Bool) (f : A → A) (same : (x : A) → key (f x) ≡ key x) where
    Apart-modify : (x : A) (xs : List A) → Apart x xs → Apart x (modify p f xs)
    unfolding modify
    Apart-modify x [] a = tt
    Apart-modify x (y ∷ ys) a = (
      elim (Bool-cases (p y)) [ inl e ↦ rw e (λ k. a.0 (k ∙ same y)) | inr e ↦ rw e a.0 ],
      Apart-modify x ys a.1,
    )

    -- An update that keeps the key keeps the keys distinct.
    pub Distinct-modify : (xs : List A) → Distinct xs → Distinct (modify p f xs)
    unfolding modify
    Distinct-modify [] d = tt
    Distinct-modify (x ∷ xs) d = (
      elim (Bool-cases (p x)) [
        | inl e ↦ rw e (
            Apart-intro (f x) (modify p f xs)
              (λ y m k. Apart-In x y (modify p f xs) (Apart-modify x xs d.0) m (sym (same x) ∙ k)))
        | inr e ↦ rw e (Apart-modify x xs d.0)
      ],
      Distinct-modify xs d.1,
    )

  pub Distinct-add :
      (x : A) (xs : List A)
      → Distinct xs
      → ((y : A) → In y xs → key y ≢ key x)
      → Distinct (xs ++ x ∷ [])
  Distinct-add x xs d h =
      Distinct-append xs (x ∷ []) d (tt, tt)
        (λ y z m n. elim n [ inl e ↦ λ k. h y m (k ∙ ap key e) | inr n ↦ absurd n ])

  Apart-delete : (p : A → Bool) (x : A) (xs : List A) → Apart x xs → Apart x (delete p xs)
  unfolding delete
  Apart-delete p x [] a = tt
  Apart-delete p x (y ∷ ys) a = ground (arith, Apart-delete p x ys a.1)

  pub Distinct-delete : (p : A → Bool) (xs : List A) → Distinct xs → Distinct (delete p xs)
  unfolding delete
  Distinct-delete p [] d = tt
  Distinct-delete p (x ∷ xs) d = elim (Bool-cases (p x)) [
    | inl e ↦ rw e (Distinct-delete p xs d.1)
    | inr e ↦ rw e (Apart-delete p x xs d.0, Distinct-delete p xs d.1)
  ]

module _ {A : Type 0} (key : A → String) where
  -- A key picks at most one row.
  pub count-key : (i : String) (xs : List A) → Distinct key xs → count (λ x. key x == i) xs ≤ 1
  unfolding count
  count-key i [] d = omega arith
  count-key i (x ∷ xs) d = elim (Bool-cases (key x == i)) [
    | inl e ↦ rw (e, others x xs d.0 ((eq_iff (key x) i).0 e)) (omega arith)
    | inr e ↦ rw e (count-key i xs d.1)
  ]
    where
      others : (x : A) (xs : List A) → Apart key x xs → key x ≡ i → count (λ y. key y == i) xs ≡ 0
      others x [] a e = refl
      others x (y ∷ ys) a e = ground (arith, eq_iff (key y) i, others x ys a.1)

  -- `session.get` finds the row of a key that is there.
  pub find-key :
      (x : A) (xs : List A) → Distinct key xs → In x xs → find (λ y. key y == key x) xs ≡ some x
  unfolding find
  find-key x [] d m = absurd m
  find-key x (y ∷ ys) d (inl e) = ground (arith, eq_iff (key y) (key x), ap key e)
  find-key x (y ∷ ys) d (inr m) =
      ground (arith, eq_iff (key y) (key x), Apart-In key y x ys d.0 m, find-key x ys d.1 m)

  -- `session.get` is insensitive to an update that keeps the keys, but for the update itself.
  pub find-modify :
      (i : String) (p : A → Bool) (f : A → A) (xs : List A)
      → ((x : A) → key (f x) ≡ key x)
      → find (λ x. key x == i) (modify p f xs)
        ≡ elim (find (λ x. key x == i) xs) [ none ↦ none | some x ↦ some (if p x then f x else x) ]
  unfolding find modify
  find-modify i p f [] h = refl
  find-modify i p f (x ∷ xs) h = ground (arith, h x, find-modify i p f xs h)

  -- An update of the one row of a key changes a count by that row alone.
  pub count-modify_one :
      (q : A → Bool) (f : A → A) (x : A) (xs : List A)
      → Distinct key xs
      → In x xs
      → q x ≡ false
      → q (f x) ≡ true
      → count q (modify (λ y. key y == key x) f xs) ≡ suc (count q xs)
  unfolding count modify
  count-modify_one q f x [] d m a b = absurd m
  count-modify_one q f x (y ∷ ys) d (inl e) a b =
      let rest : modify (λ z. key z == key x) f ys ≡ ys =
        modify_none (λ z. key z == key x) f ys (λ z n. apart z n) in
      let hit : (key y == key x) ≡ true = (eq_iff (key y) (key x)).1 (ap key (sym e)) in
      rw (rest, hit, ← e, a, b) refl
    where
      apart : (z : A) → In z ys → (key z == key x) ≡ false
      apart z n = ground (arith, eq_iff (key z) (key x), Apart-In key y z ys d.0 n, ap key e)
  count-modify_one q f x (y ∷ ys) d (inr m) a b =
      let miss : (key y == key x) ≡ false =
        ground (arith, eq_iff (key y) (key x), Apart-In key y x ys d.0 m) in
      rw miss (ground (arith, count-modify_one q f x ys d.1 m a b))
