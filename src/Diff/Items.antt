-- ===== src/Diff/Items.antt =====
-- The dicts of `exposure_diff`: their keys are the endpoints of the open services of a run.
use transport_lookout.Prelude.{
  int_eq, int_beq_iff, String, ◌≡◌, refl, sym, ap, ◌∙◌, inl, inr, ◌↔◌, Bool, true, not, List, [],
  ◌∷◌, map, arith, ◌==◌, nat_eq, string_eq, eq_iff, contains, order_by, insert_by, In, In-select,
  In-select_intro, ◌⊎◌, find-In, find-none, Option-cases, Bool-cases,
}
use transport_lookout.Model.{Db, ScanRun, HostObservation, ServiceObservation}
use transport_lookout.Exposure.{Observed, is_up, observed_services}
use transport_lookout.Exposure.OpenServices.{IsOpenService, observed_services_iff}
use transport_lookout.Diff.{
  Endpoint, endpoint_beq, Item, item_of, put, put_all, lookup, has_key, observed_items, up_hosts,
}

pub endpoint_beq_sound : (a b : Endpoint) → endpoint_beq a b ≡ true → a ≡ b
endpoint_beq_sound a b h =
    let p = (eq_iff a.address b.address).0 (ground (arith, h)) in
    let q = (eq_iff a.protocol b.protocol).0 (ground (arith, h)) in
    let r = (int_beq_iff a.port b.port).0 (ground (arith, h)) in
    λ i. record { address = p i; protocol = q i; port = r i }

pub endpoint_beq_refl : (a : Endpoint) → endpoint_beq a a ≡ true
endpoint_beq_refl a =
    ground
      (arith, eq_iff a.address a.address, eq_iff a.protocol a.protocol, int_beq_iff a.port a.port)

module _ {A B : Type 0} where
  pub In-map : (f : A → B) (y : B) (xs : List A) → In y (map f xs) → (x : A) × In x xs × (y ≡ f x)
  In-map f y [] m = absurd m
  In-map f y (x ∷ xs) (inl e) = (x, inl refl, e)
  In-map f y (x ∷ xs) (inr m) = let (z, n, e) = In-map f y xs m in (z, inr n, e)

  pub In-map_intro : (f : A → B) (x : A) (xs : List A) → In x xs → In (f x) (map f xs)
  In-map_intro f x [] m = absurd m
  In-map_intro f x (y ∷ ys) (inl e) = inl (ap f e)
  In-map_intro f x (y ∷ ys) (inr m) = inr (In-map_intro f x ys m)

module _ {A : Type 0} where
  In-insert_by_intro :
      (le : A → A → Bool) (x y : A) (xs : List A) → In x (y ∷ xs) → In x (insert_by le y xs)
  unfolding insert_by
  In-insert_by_intro le x y [] m = m
  In-insert_by_intro le x y (z ∷ zs) m = ground (arith, In-insert_by_intro le x y zs)

  pub In-order_by_intro :
      (le : A → A → Bool) (x : A) (xs : List A) → In x xs → In x (order_by le xs)
  unfolding order_by
  In-order_by_intro le x [] m = m
  In-order_by_intro le x (y ∷ ys) m =
      ground (arith, In-insert_by_intro le x y (order_by le ys), In-order_by_intro le x ys)

pub contains_iff : (xs : List String) (x : String) → (contains xs x ≡ true) ↔ In x xs
unfolding contains
contains_iff [] x = ground arith
contains_iff (y ∷ ys) x =
    let same : (y == x ≡ true) ↔ (x ≡ y) =
      (λ e. sym ((eq_iff y x).0 e), λ e. (eq_iff y x).1 (sym e)) in
    ground (arith, contains_iff ys x, same)

-- The dict has the key.
abbrev pub HasKey : List Item → Endpoint → Type 0
HasKey items key = (x : Item) × In x items × (x.key ≡ key)

pub has_key_iff :
    (items : List Item) (key : Endpoint) → (has_key items key ≡ true) ↔ HasKey items key
has_key_iff items key = elim (Option-cases (lookup key items)) [
  | inl e ↦ (
    λ h. ground (arith, e, h),
    λ (x, m, k).
        let h = find-none (λ y. endpoint_beq y.key key) x items e m in
        ground (arith, h, k, endpoint_beq_refl key),
  )
  | inr (x, e) ↦ (
    λ h.
        let (m, k) = find-In (λ y. endpoint_beq y.key key) x items e in
        (x, m, endpoint_beq_sound x.key key k),
    λ h. rw (e) refl,
  )
]

pub lacks_key_iff :
    (items : List Item) (key : Endpoint) → (not (has_key items key) ≡ true) ↔ (¬ HasKey items key)
lacks_key_iff items key = (
  λ e h. let t = (has_key_iff items key).1 h in ground (arith, t, e),
  λ n. elim (Bool-cases (has_key items key)) [
    | inl t ↦ absurd (n ((has_key_iff items key).0 t))
    | inr f ↦ ground (arith, f)
  ],
)

put-HasKey :
    (item : Item) (key : Endpoint) (xs : List Item) → HasKey xs key → HasKey (put item xs) key
unfolding put
put-HasKey item key [] (x, m, k) = absurd m
put-HasKey item key (y ∷ ys) (x, inl e, k) = elim (Bool-cases (endpoint_beq y.key item.key)) [
  | inl t ↦
      let q = endpoint_beq_sound y.key item.key t in
      rw (t) (item, inl refl, sym q ∙ ap (λ (z : Item). z.key) (sym e) ∙ k)
  | inr f ↦ rw (f) (x, inl e, k)
]
put-HasKey item key (y ∷ ys) (x, inr m, k) = elim (Bool-cases (endpoint_beq y.key item.key)) [
  | inl t ↦ rw (t) (x, inr m, k)
  | inr f ↦ let (z, n, j) = put-HasKey item key ys (x, m, k) in rw (f) (z, inr n, j)
]

put-HasKey_new : (item : Item) (xs : List Item) → HasKey (put item xs) item.key
unfolding put
put-HasKey_new item [] = (item, inl refl, refl)
put-HasKey_new item (y ∷ ys) = elim (Bool-cases (endpoint_beq y.key item.key)) [
  | inl t ↦ rw (t) (item, inl refl, refl)
  | inr f ↦ let (z, n, j) = put-HasKey_new item ys in rw (f) (z, inr n, j)
]

In-put : (item x : Item) (xs : List Item) → In x (put item xs) → In x (item ∷ xs)
unfolding put
In-put item x [] m = m
In-put item x (y ∷ ys) m = ground (arith, In-put item x ys)

put_all-HasKey :
    (key : Endpoint) (items : List Item) (os : List Observed)
    → HasKey items key
    → HasKey (put_all items os) key
unfolding put_all
put_all-HasKey key items [] h = h
put_all-HasKey key items (o ∷ os) h =
    put_all-HasKey key (put (item_of o) items) os (put-HasKey (item_of o) key items h)

put_all-HasKey_new :
    (o : Observed) (items : List Item) (os : List Observed)
    → In o os
    → HasKey (put_all items os) (item_of o).key
unfolding put_all
put_all-HasKey_new o items [] m = absurd m
put_all-HasKey_new o items (p ∷ os) (inl e) =
    rw (e) (put_all-HasKey (item_of p).key _ os (put-HasKey_new (item_of p) items))
put_all-HasKey_new o items (p ∷ os) (inr m) = put_all-HasKey_new o (put (item_of p) items) os m

In-put_all :
    (x : Item) (items : List Item) (os : List Observed)
    → In x (put_all items os)
    → In x items ⊎ ((o : Observed) × In o os × (x ≡ item_of o))
unfolding put_all
In-put_all x items [] m = inl m
In-put_all x items (o ∷ os) m = elim (In-put_all x (put (item_of o) items) os m) [
  | inl n ↦ elim (In-put (item_of o) x items n) [ inl e ↦ inr (o, inl refl, e) | inr k ↦ inl k ]
  | inr (p, n, e) ↦ inr (p, inr n, e)
]

-- A host that was up in the run has the service open at the endpoint.
abbrev pub IsOpenAt : Db → String → Endpoint → Type 0
IsOpenAt db run_id key =
    (h : HostObservation) × (s : ServiceObservation) × IsOpenService db run_id h s
    × (key ≡ record { address = h.address; protocol = s.protocol; port = s.port })

-- The address was up in the run.
abbrev pub IsUpAt : Db → String → String → Type 0
IsUpAt db run_id address =
    (h : HostObservation) × In h db.hosts
    × (h.run_id ≡ run_id)
    × (h.state ≡ "up")
    × (address ≡ h.address)

pub observed_items-HasKey :
    (db : Db) (run : ScanRun) (key : Endpoint)
    → HasKey (observed_items db run) key ↔ IsOpenAt db run.id key
unfolding observed_items
observed_items-HasKey db run key = (
  λ (x, m, k). elim (In-put_all x [] (observed_services db run.id) m) [
    | inl n ↦ absurd n
    | inr (o, n, e) ↦ (
      o.host,
      o.service,
      (observed_services_iff db run.id o.host o.service).0 n,
      sym k ∙ ap (λ (z : Item). z.key) e,
    )
  ],
  λ (h, s, o, e). rw (e) (
      put_all-HasKey_new (record { host = h; service = s }) [] _
        ((observed_services_iff db run.id h s).1 o)),
)

pub up_hosts_iff :
    (db : Db) (run : ScanRun) (address : String)
    → In address (up_hosts db run) ↔ IsUpAt db run.id address
unfolding up_hosts
up_hosts_iff db run address = (
  λ m.
      let (h, n, e) = In-map (λ (h : HostObservation). h.address) address _ m in
      let (a, b) = In-select (is_up run.id) h db.hosts n in
      (
        h,
        a,
        (eq_iff h.run_id run.id).0 (ground (arith, b)),
        (eq_iff h.state "up").0 (ground (arith, b)),
        e,
      ),
  λ (h, m, a, b, e). rw (e) (
      In-map_intro (λ (h : HostObservation). h.address) h _
        (In-select_intro (is_up run.id) h db.hosts m
          (ground (arith, eq_iff h.run_id run.id, eq_iff h.state "up")))),
)
