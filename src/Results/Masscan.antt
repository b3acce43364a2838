-- ===== src/Results/Masscan.antt =====
-- What `masscan_observations` reads from a document.
use transport_lookout.Prelude.{
  true, ◌≡◌, ◌↔◌, refl, sym, ap, ◌∙◌, subst, inl, inr, Option, none, some, List, [], ◌∷◌, ◌++◌,
  string_eq, select, order_by, Bool-cases, In, In-append, In-append_left, In-append_right,
  In-order_by, Distinct, Distinct-order_by,
}
use transport_lookout.Config.{Env}
use transport_lookout.Session.{Try, raised, returned, ◌>>=◌}
use transport_lookout.Diff.{Endpoint, endpoint_le}
use transport_lookout.Diff.Items.{In-order_by_intro}
use transport_lookout.Results.Xml.{Element, has_tag, has_value, children, find_under}
use transport_lookout.Results.Endpoints.{
  endpoint, In-distinct_endpoints, Distinct-distinct_endpoints,
}
use transport_lookout.Results.{
  attrib, port_number, is_open, add_port, open_ports, host_ports, ipv4_address, open_hosts,
  distinct_endpoints, masscan_observations,
}

module _ {A : Type 0} where
  abbrev value_or : A → Try A → A
  value_or a (returned b) = b
  value_or a (raised e) = a

  returned-injective : (a b : A) → returned a ≡ returned b → a ≡ b
  returned-injective a b h = λ i. value_or a (h i)

  bind-returned :
      {B : Type 0} (m : Try B) (f : B → Try A) (a : A)
      → (m >>= f) ≡ returned a
      → (b : B) × (m ≡ returned b) × (f b ≡ returned a)
  bind-returned (returned b) f a h = (b, refl, h)
  bind-returned (raised e) f a h = absurd (cc)

module _ (env : Env) where
  -- The endpoint of a port element of a host with this address element.
  pub record Reports (address port : Element) (e : Endpoint) : Type 0 where
    pub of_address : attrib "addr" address ≡ returned e.address
    pub is_tcp : e.protocol ≡ "tcp"
    pub of_port : port_number env port ≡ returned e.port

  Reports-unique :
      (address port : Element) (e f : Endpoint)
      → Reports address port e
      → Reports address port f
      → e ≡ f
  Reports-unique address port e f r s =
      let a = returned-injective e.address f.address (sym r.of_address ∙ s.of_address) in
      let p = r.is_tcp ∙ sym s.is_tcp in
      let n = returned-injective e.port f.port (sym r.of_port ∙ s.of_port) in
      λ i. record { address = a i; protocol = p i; port = n i }

  add_port-Reports :
      (address port : Element) (rest : Try (List Endpoint)) (es : List Endpoint)
      → add_port env address port rest ≡ returned es
      → (e : Endpoint) × (others : List Endpoint) × Reports address port e
        × (rest ≡ returned others)
        × (es ≡ e ∷ others)
  add_port-Reports address port rest es h =
      let (text, a, b) = bind-returned (attrib "addr" address) _ es h in
      let (number, c, d) = bind-returned (port_number env port) _ es b in
      let (others, f, g) = bind-returned rest _ es d in
      (
        record { address = text; protocol = "tcp"; port = number },
        others,
        record { of_address = a; is_tcp = refl; of_port = c },
        f,
        sym (returned-injective _ es g),
      )

  -- An endpoint that an open port among these reports.
  abbrev pub IsOpenAmong : Element → List Element → Endpoint → Type 0
  IsOpenAmong address ports e =
      (port : Element) × In port ports × (is_open port ≡ true) × Reports address port e

  open_ports_iff :
      (address : Element) (ports : List Element) (es : List Endpoint)
      → open_ports env address ports ≡ returned es
      → (e : Endpoint) → In e es ↔ IsOpenAmong address ports e
  unfolding open_ports
  open_ports_iff address [] es h e =
      (λ m. absurd (subst (In e) (sym (returned-injective [] es h)) m), λ (port, m, o, s). absurd m)
  open_ports_iff address (port ∷ ports) es h e = elim (Bool-cases (is_open port)) [
    | inl t ↦
        let (x, others, r, rest, split) =
          add_port-Reports address port (open_ports env address ports) es (rw t at h) in
        let (to, from) = open_ports_iff address ports others rest e in
        (
          λ m. elim (subst (In e) split m) [
            | inl k ↦ (port, inl refl, t, subst (Reports address port) (sym k) r)
            | inr n ↦ let (q, i, o, s) = to n in (q, inr i, o, s)
          ],
          λ (q, m, o, s). subst (In e) (sym split) (elim m [
            | inl k ↦ inl (Reports-unique address port e x (subst (λ y. Reports address y e) k s) r)
            | inr n ↦ inr (from (q, n, o, s))
          ]),
        )
    | inr t ↦
        let (to, from) = open_ports_iff address ports es (rw t at h) e in
        (
          λ m. let (q, i, o, s) = to m in (q, inr i, o, s),
          λ (q, m, o, s). elim m [
            | inl k ↦ absurd (let z = ap is_open k in cc)
            | inr n ↦ from (q, n, o, s)
          ],
        )
  ]

  -- An endpoint that an open TCP port of a host with an IPv4 address reports.
  abbrev pub IsOpenOf : Element → Endpoint → Type 0
  IsOpenOf host e =
      (address : Element) × (ipv4_address host ≡ some address)
      × IsOpenAmong address (find_under "ports" (has_value "port" "protocol" "tcp") host) e

  host_ports_iff :
      (host : Element) (found : Option Element) (es : List Endpoint)
      → ipv4_address host ≡ found
      → host_ports env found host ≡ returned es
      → (e : Endpoint) → In e es ↔ IsOpenOf host e
  host_ports_iff host none es k h e = (
    λ m. absurd (subst (In e) (sym (returned-injective [] es h)) m),
    λ (address, a, o). absurd (let z = sym k ∙ a in cc),
  )
  host_ports_iff host (some address) es k h e =
      let ports = find_under "ports" (has_value "port" "protocol" "tcp") host in
      let (to, from) = open_ports_iff address ports es h e in
      (
        λ m. (address, k, to m),
        λ (other, a, o). from (subst (λ x. IsOpenAmong x ports e) (let z = sym a ∙ k in cc) o),
      )

  open_hosts_iff :
      (hosts : List Element) (es : List Endpoint)
      → open_hosts env hosts ≡ returned es
      → (e : Endpoint) → In e es ↔ ((host : Element) × In host hosts × IsOpenOf host e)
  unfolding open_hosts
  open_hosts_iff [] es h e =
      (λ m. absurd (subst (In e) (sym (returned-injective [] es h)) m), λ (host, m, o). absurd m)
  open_hosts_iff (host ∷ hosts) es h e =
      let (here, a, b) = bind-returned (host_ports env (ipv4_address host) host) _ es h in
      let (others, c, d) = bind-returned (open_hosts env hosts) _ es b in
      let split : here ++ others ≡ es = returned-injective _ es d in
      let (to, from) = host_ports_iff host (ipv4_address host) here refl a e in
      let (to_rest, from_rest) = open_hosts_iff hosts others c e in
      (
        λ m. elim (In-append e here others (subst (In e) (sym split) m)) [
          | inl i ↦ (host, inl refl, to i)
          | inr i ↦ let (x, n, o) = to_rest i in (x, inr n, o)
        ],
        λ (x, n, o). subst (In e) split (elim n [
          | inl k ↦ In-append_left e here others (from (subst (λ y. IsOpenOf y e) k o))
          | inr n ↦ In-append_right e here others (from_rest (x, n, o))
        ]),
      )

-- What `masscan_observations` returns for a document, where it raises nothing: the endpoints of the
-- open TCP ports of the hosts with an IPv4 address, each of them once.
pub masscan_observations_iff :
    (env : Env) (root : Element) (observations : List Endpoint)
    → masscan_observations env (returned root) ≡ returned observations
    → Distinct endpoint observations
      × ((e : Endpoint)
          → In e observations ↔ (
              (host : Element) × In host (select (has_tag "host") (children root))
              × IsOpenOf env host e))
unfolding masscan_observations
masscan_observations_iff env root observations h =
    let (found, a, b) =
      bind-returned (open_hosts env (select (has_tag "host") (children root))) _ observations h in
    let sorted : order_by endpoint_le (distinct_endpoints found) ≡ observations =
      returned-injective _ observations b in
    (
      subst (Distinct endpoint) sorted
          (Distinct-order_by endpoint endpoint_le _ (Distinct-distinct_endpoints found)),
      λ e.
          let (to, from) = open_hosts_iff env (select (has_tag "host") (children root)) found a e in
          let (less, more) = In-distinct_endpoints e found in
          (
            λ m. to (less (In-order_by endpoint_le e _ (subst (In e) (sym sorted) m))),
            λ o. subst (In e) sorted (In-order_by_intro endpoint_le e _ (more (from o))),
          ),
    )
