-- ===== src/Authz/Tests.antt =====
-- The theorems on grants at concrete grants.
use easy_frame.Prelude.{
  ℕ, ◌≤◌, ◌≡◌, refl, ◌↔◌, true, false, none, some, List, [], ◌∷◌, Option, String, arith, string_eq,
  nat_eq, any, ◌++◌, length,
}
use easy_frame.Prelude.Dict.{Dict, lookup}
use easy_frame.Authz.Scopes.{
  self, all_data, ScopeGrant, parse_data_scope, subject_ids_for_scope, union_from,
  union_subject_ids_for_permission,
}
use easy_frame.Authz.Subjects.{allows, admits, union-allows_iff}
use easy_frame.Authz.Snapshot.{
  GrantItem, CatalogPermission, Skip, normalize_grants, normalize_items, parse_grants_isolated,
  check_permission, check_parsed, check_scope, add_checked,
}
use easy_frame.Authz.Isolation.{Decided, normalize-Decided}
use easy_frame.Authz.Freshness.{
  staleness, classify_snapshot, invalidated_expires_at, expired, classify_monotone,
  near_expiry_percent, stale_grace_seconds,
}
use easy_frame.Authz.Refresher.{
  System, Reachable, begin, then_step, claims, new_refresher, claim_key, work, in_flight,
  Reachable-single,
}

program : Unit {0}
unfolding union_subject_ids_for_permission union_from parse_data_scope subject_ids_for_scope
    normalize_grants normalize_items parse_grants_isolated check_permission check_parsed check_scope
    add_checked lookup new_refresher claim_key
program = tt

abbrev grants : List ScopeGrant
grants =
    record { code = "orders.view"; scope = "SELF" }
    ∷ record { code = "orders.view"; scope = "MANAGED_USERS" }
    ∷ []

union-allows_iff_example : (allows {Subject = ℕ} (some (1 ∷ 2 ∷ [])) 2 ≡ true) ↔ (
    any
      (admits {Subject = ℕ} {G = ScopeGrant}
        (λ grant. grant.code)
        (λ grant. grant.scope)
        "orders.view"
        1
        (λ grant. 1 ∷ 2 ∷ [])
        2)
      grants
    ≡ true)
unfolding program
union-allows_iff_example =
    union-allows_iff (λ grant. grant.code) (λ grant. grant.scope) "orders.view" 1
      (λ grant. 1 ∷ 2 ∷ []) grants (some (1 ∷ 2 ∷ [])) 2 refl

abbrev catalog : Dict String CatalogPermission
catalog =
    (
      "orders.view",
      record { code = "orders.view"; supported_scopes = self ∷ all_data ∷ []; active = true },
    )
    ∷ []

abbrev raws : List (Option GrantItem)
raws =
    none
    ∷ some (record {
      permission = "orders.view";
      scope = "ALL";
      source_type = "group";
      source_key = "sales";
      resolved = none;
    })
    ∷ []

normalize-Decided_example :
    (bad : List Skip) × (skips : List Skip) × ((normalize_grants raws catalog).skips ≡ bad ++ skips)
    × Decided catalog raws (normalize_grants raws catalog).kept bad skips
normalize-Decided_example = normalize-Decided catalog raws

kept_one : length (normalize_grants raws catalog).kept ≡ 1
unfolding program
kept_one = refl

classify_monotone_example :
    (staleness (classify_snapshot 0 100 50 near_expiry_percent stale_grace_seconds)
      ≤ staleness (classify_snapshot 0 100 90 near_expiry_percent stale_grace_seconds))
    × (classify_snapshot 0 (invalidated_expires_at 0) 50 near_expiry_percent stale_grace_seconds
        ≡ expired)
classify_monotone_example =
    classify_monotone 0 100 50 90 near_expiry_percent stale_grace_seconds (omega arith)

abbrev scheduled : System
scheduled = record {
  refresher = record { has_pool = false; is_shutdown = false; inflight = "alice" ∷ [] };
  claimed = "alice" ∷ [];
  running = [];
}

scheduled-Reachable : Reachable scheduled
unfolding program
scheduled-Reachable =
    then_step (record { refresher = new_refresher; claimed = []; running = [] }) scheduled begin
      (claims "alice" (record { refresher = new_refresher; claimed = []; running = [] }) refl)

Reachable-single_example :
    (work "alice" scheduled ≤ 1)
    × ((work "alice" scheduled ≡ 1) ↔ (in_flight "alice" scheduled.refresher.inflight ≡ true))
Reachable-single_example = Reachable-single scheduled "alice" scheduled-Reachable
