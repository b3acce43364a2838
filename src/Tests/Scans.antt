-- ===== src/Tests/Scans.antt =====
-- A report of Masscan on one host with an open and a closed port.
use transport_lookout.Prelude.{
  pos, refl, ◌≡◌, ◌↔◌, String, List, [], ◌∷◌, string_eq, In, Distinct, select, find, order_by,
}
use transport_lookout.Session.{returned}
use transport_lookout.Diff.{Endpoint}
use transport_lookout.Results.{masscan_observations}
use transport_lookout.Results.Endpoints.{endpoint}
use transport_lookout.Results.Masscan.{IsOpenOf, masscan_observations_iff}
use transport_lookout.Results.Xml.{Element, Attribute, element, nil, cons, children, has_tag}
use transport_lookout.Tests.Data.{env}

abbrev set : String → String → Attribute
set name value = record { name = name; value = value }

abbrev port : String → String → Element
port number state =
    element "port" (set "protocol" "tcp" ∷ set "portid" number ∷ [])
      (cons (element "state" (set "state" state ∷ []) nil) nil)

abbrev report : Element
report = element "nmaprun" [] (
    cons
      (element "host" [] (
        cons (element "address" (set "addr" "10.0.0.7" ∷ set "addrtype" "ipv4" ∷ []) nil) (
          cons (element "ports" [] (cons (port "443" "open") (cons (port "80" "closed") nil)))
            nil)))
      nil)

abbrev observed : List Endpoint
observed = record { address = "10.0.0.7"; protocol = "tcp"; port = pos 443 } ∷ []

observes_one : masscan_observations env (returned report) ≡ returned observed
unfolding masscan_observations select find order_by
observes_one = refl

masscan_observations_iff_example :
    Distinct endpoint observed
    × ((e : Endpoint)
        → In e observed ↔ (
            (host : Element) × In host (select (has_tag "host") (children report))
            × IsOpenOf env host e))
masscan_observations_iff_example = masscan_observations_iff env report observed observes_one
