-- ===== src/Runtime/Grouping/Accepted.antt =====
-- Which groups of routes are accepted (runtime.rs).
use connectors.Base.{
  ◌≡◌, ◌≢◌, ◌↔◌, refl, sym, arith, ℕ, true, false, not, List, [], ◌∷◌, map, All, Text, text_eq,
  text_eq_iff, ok, fail_if-eq-ok, Bool-cases, inl, inr,
}
use connectors.Configuration.Types.{Api, RelayRouteConfiguration}
use connectors.Configuration.Builders.{same_publisher}
use connectors.Runtime.Grouping.{
  RelayTransportPreparation, contains, validate_from, validate_grouped_routes,
}

-- No text of the second list is in the first, and none comes twice in the second.
abbrev pub AreNew : List Text → List Text → Type 0
AreNew seen [] = Unit
AreNew seen (t ∷ ts) = All (λ s. s ≢ t) seen × AreNew (t ∷ seen) ts

contains_iff : (seen : List Text) (t : Text) → (contains seen t ≡ false) ↔ All (λ s. s ≢ t) seen
contains_iff [] t = (λ h. tt, λ h. refl)
contains_iff (s ∷ seen) t =
    let rest = contains_iff seen t in
    let same = text_eq_iff t s in
    elim (Bool-cases (text_eq t s)) [
      | inl equal ↦ (λ h. ground (arith, equal, h), λ h. absurd (h.0 (sym (same.0 equal))))
      | inr other ↦ (
        λ h. ((λ p. ground (arith, other, same.1 (sym p))), rest.0 (ground (arith, other, h))),
        λ h. ground (arith, other, rest.1 h.1),
      )
    ]

abbrev pub buses : {Secret : Type 0} → List (RelayTransportPreparation Secret) → List Text
buses routes = map (λ route. route.configuration.bus_id) routes

module _ {Secret Url : Type 0} (api : Api Secret Url) (max_bytes : ℕ) where
  validate_from_iff :
      (first : RelayRouteConfiguration Secret) (seen : List Text)
      (routes : List (RelayTransportPreparation Secret))
      → (validate_from api max_bytes first seen routes ≡ ok tt) ↔ (
          All (λ route. same_publisher api first route.configuration ≡ true) routes
          × AreNew seen (buses routes))
  unfolding validate_from
  validate_from_iff first seen [] = (λ h. (tt, tt), λ h. refl)
  validate_from_iff first seen (route ∷ routes) =
      let rest = validate_from_iff first (route.configuration.bus_id ∷ seen) routes in
      let unseen = contains_iff seen route.configuration.bus_id in
      (
        λ h.
            let same = fail_if-eq-ok (not (same_publisher api first route.configuration)) _ _ h in
            let new = fail_if-eq-ok (contains seen route.configuration.bus_id) _ _ same.1 in
            ((ground (arith, same.0), (rest.0 new.1).0), (unseen.0 new.0, (rest.0 new.1).1)),
        λ h. rw (h.0.0, unseen.1 h.1.0) (rest.1 (h.0.1, h.1.1)),
      )

  -- A group is accepted exactly if each of its routes, the first one included, has the publisher of the
  -- first and no two have the same bus.
  pub validate_grouped_routes_iff :
      (first : RelayTransportPreparation Secret) (routes : List (RelayTransportPreparation Secret))
      → (validate_grouped_routes api max_bytes first routes ≡ ok tt) ↔ (
          All
            (λ route. same_publisher api first.configuration route.configuration ≡ true)
            (first ∷ routes)
          × AreNew [] (buses (first ∷ routes)))
  unfolding validate_grouped_routes
  validate_grouped_routes_iff first routes =
      validate_from_iff first.configuration [] (first ∷ routes)
