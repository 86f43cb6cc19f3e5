-- ===== src/Inventory/Schema.antt =====
-- internal/inventory/schema.go: which fields of this binary the served CRD lacks.
use k2a_token_sync.Base.{String, ◌<>◌, Bool, ◌||◌, not, List, ◌++◌, Option}
use k2a_token_sync.Base.{map, is_empty, contains, keep, join, sort_strings}
use k2a_token_sync.Errors.{Error}

pub record SchemaCheck : Type 0 where
  pub missing_spec_fields : List String
  pub missing_status_fields : List String
  pub unverifiable : Option Error

-- SchemaCheck.Stale
unfoldable pub stale : SchemaCheck → Bool
stale c = not (is_empty c.missing_spec_fields) || not (is_empty c.missing_status_fields)

-- SchemaCheck.Missing
unfoldable pub missing : SchemaCheck → String
unfolding join
missing c = join ", " (
    map (λ f. "spec." <> f) c.missing_spec_fields
    ++ map (λ f. "status." <> f) c.missing_status_fields)

-- missingFrom
unfoldable pub missing_from : List String → List String → List String
unfolding sort_strings contains keep
missing_from served wanted = sort_strings (keep (λ name. not (contains served name)) wanted)
