-- ===== src/Results/Endpoints.antt =====
-- `set(observations)` of src/scanpod_enterprise/results.py.
use transport_lookout.Prelude.{
  true, ◌≡◌, ◌↔◌, refl, sym, subst, inl, inr, List, [], ◌∷◌, arith, string_eq, Bool-cases, In,
  Distinct, Apart-intro,
}
use transport_lookout.Diff.{Endpoint, endpoint_beq}
use transport_lookout.Diff.Items.{endpoint_beq_sound, endpoint_beq_refl}
use transport_lookout.Results.{distinct_endpoints, has_endpoint, add_new}

has_endpoint_iff : (xs : List Endpoint) (e : Endpoint) → (has_endpoint xs e ≡ true) ↔ In e xs
unfolding has_endpoint
has_endpoint_iff [] e = (λ h. absurd (cc), λ m. absurd m)
has_endpoint_iff (x ∷ xs) e =
    let (to, from) = has_endpoint_iff xs e in
    (
      λ h. elim (Bool-cases (endpoint_beq x e)) [
        | inl t ↦ inl (sym (endpoint_beq_sound x e t))
        | inr t ↦ inr (to (ground (arith, h, t)))
      ],
      λ m. elim m [ inl k ↦ rw (k, endpoint_beq_refl x) refl | inr n ↦ ground (arith, from n) ],
    )

abbrev pub endpoint : Endpoint → Endpoint
endpoint e = e

In-add_new : (e x : Endpoint) (xs : List Endpoint) → In e (add_new x xs) ↔ In e (x ∷ xs)
unfolding add_new
In-add_new e x xs = elim (Bool-cases (has_endpoint xs x)) [
  | inl t ↦ rw t (
    λ m. inr m,
    λ m. elim m [ inl k ↦ subst (λ y. In y xs) (sym k) ((has_endpoint_iff xs x).0 t) | inr n ↦ n ],
  )
  | inr t ↦ rw t (λ m. m, λ m. m)
]

Distinct-add_new :
    (x : Endpoint) (xs : List Endpoint) → Distinct endpoint xs → Distinct endpoint (add_new x xs)
unfolding add_new
Distinct-add_new x xs d = elim (Bool-cases (has_endpoint xs x)) [
  | inl t ↦ rw t d
  | inr t ↦ rw t (
    Apart-intro endpoint x xs (λ y m k.
        let h = (has_endpoint_iff xs x).1 (subst (λ z. In z xs) (sym k) m) in absurd (cc)),
    d,
  )
]

pub In-distinct_endpoints :
    (e : Endpoint) (xs : List Endpoint) → In e (distinct_endpoints xs) ↔ In e xs
unfolding distinct_endpoints
In-distinct_endpoints e [] = (λ m. m, λ m. m)
In-distinct_endpoints e (x ∷ xs) =
    let (to, from) = In-distinct_endpoints e xs in
    let (less, more) = In-add_new e x (distinct_endpoints xs) in
    (
      λ m. elim (less m) [ inl k ↦ inl k | inr n ↦ inr (to n) ],
      λ m. more (elim m [ inl k ↦ inl k | inr n ↦ inr (from n) ]),
    )

pub Distinct-distinct_endpoints : (xs : List Endpoint) → Distinct endpoint (distinct_endpoints xs)
unfolding distinct_endpoints
Distinct-distinct_endpoints [] = tt
Distinct-distinct_endpoints (x ∷ xs) =
    Distinct-add_new x (distinct_endpoints xs) (Distinct-distinct_endpoints xs)
