-- ===== src/Quota/Coverage.antt =====
-- The catalog of `src/quota-entrypoints.ts`: both directions of the coverage test.
use quantpro_collector.Prelude.{
  ◌≡◌, refl, Bool, true, false, not, ◌&&◌, Option, none, some, List, [], ◌∷◌, String, str_eq,
  eq_iff, any, all, filter, map, arith,
}
use quantpro_collector.Quota.Dimensions.{is_dimension_key}
use quantpro_collector.Quota.Entrypoints.{
  RouteCostProfile, RouteDimension, EntrypointKind, quota_entrypoints, route_cost_profile, seen,
  kind_matches, missing_entrypoints,
}

abbrev found : Option RouteCostProfile → RouteCostProfile → Bool
found none e = false
found (some d) e = str_eq d.note e.note && str_eq d.route e.route

-- Every entry of the catalog is the one that its route looks up, and declares only dimensions of
-- the billing catalog.
pub quota_entrypoints-distinct :
    all
      (λ e.
        found (route_cost_profile (RouteCostProfile.route e)) e
        && all (λ d. is_dimension_key (RouteDimension.dimension_key d)) e.dimensions)
      quota_entrypoints
    ≡ true
unfolding quota_entrypoints route_cost_profile is_dimension_key
quota_entrypoints-distinct = refl

missing-entry :
    (observed : List String) (es : List RouteCostProfile) (kind : Option EntrypointKind)
    (route : String)
    → any
        (λ r. str_eq r route)
        (map RouteCostProfile.route
          (filter (λ e. not (seen observed e.route)) (filter (kind_matches kind) es)))
      ≡ (not (seen observed route) && any (λ e. kind_matches kind e && str_eq e.route route) es)
missing-entry observed [] kind route = ground arith
missing-entry observed (e ∷ es) kind route =
    ground (arith, eq_iff e.route route, missing-entry observed es kind route)

-- A route is reported missing exactly if the catalog has it under the kind asked for and it was
-- not observed.
pub missing_entrypoints-exact :
    (observed : List String) (kind : Option EntrypointKind) (route : String)
    → any (λ r. str_eq r route) (missing_entrypoints observed kind) ≡ (
        not (seen observed route)
        && any (λ e. kind_matches kind e && str_eq e.route route) quota_entrypoints)
unfolding missing_entrypoints
missing_entrypoints-exact observed kind route = missing-entry observed quota_entrypoints kind route
