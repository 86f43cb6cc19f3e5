-- ===== src/Hardening/Plan.antt =====
-- BuildPlan. The validation of a DNS-1123 name is a library's: it is a parameter that lists the
-- problems of a name.
pub mod Laws
use k2a_token_sync.Base.{
  String, ◌<>◌, concat, join, not, none, some, List, [], ◌∷◌, map, if◌then◌else◌, ◌==◌, is_empty,
  leb_string, sort_strings,
}
use k2a_token_sync.Base.Dict.{Dict, lookup, insert}
use k2a_token_sync.Errors.{Result, ok, err, new_error}
use k2a_token_sync.Format.{Printer}
use k2a_token_sync.Inventory.{Entry}

pub record Connection : Type 0 where
  pub name : String
  pub secret_name : String

pub record Plan : Type 0 where
  pub connections : List Connection
  pub secret_names : List String

-- sort.Slice by Name
unfoldable pub insert_connection : Connection → List Connection → List Connection
insert_connection c [] = c ∷ []
insert_connection c (d ∷ ds) =
    if leb_string c.name d.name then c ∷ d ∷ ds else d ∷ insert_connection c ds

unfoldable pub sort_connections : List Connection → List Connection
unfolding insert_connection
sort_connections [] = []
sort_connections (c ∷ cs) = insert_connection c (sort_connections cs)

-- The first loop: a line for each entry that is held back.
unfoldable pub invalid_lines : List Entry → List String
invalid_lines [] = []
invalid_lines (e ∷ es) =
    let rest = invalid_lines es in
    if not (e.invalid_reason == "")
    then (e.cluster.name <> ": " <> e.invalid_reason) ∷ rest
    else rest

abbrev pub keys_of : Dict String → List String
keys_of d = map (λ (k, _). k) d

abbrev finish : Result (Dict String × List Connection) → Result Plan
finish (err e) = err e
finish (ok (claimed, connections)) = ok (record {
  connections = sort_connections connections;
  secret_names = sort_strings (keys_of claimed);
})

module _ (p : Printer) (dns1123_problems : String → List String) where
  -- The second loop, over the claims and the connections so far.
  unfoldable pub collect :
      List Entry → Dict String → List Connection → Result (Dict String × List Connection)
  collect [] claimed connections = ok (claimed, connections)
  collect (e ∷ es) claimed connections =
      let name = e.cluster.secret_name in
      let rest =
        collect es (insert name e.cluster.name claimed)
          (record { name = e.cluster.name; secret_name = name } ∷ connections) in
      if not (is_empty (dns1123_problems name))
      then err (
          new_error (
            concat (
              "ClusterConnection "
              ∷ p.quote e.cluster.name
              ∷ " resolves to invalid Secret name "
              ∷ p.quote name
              ∷ ": "
              ∷ join ", " (dns1123_problems name)
              ∷ [])))
      else elim (lookup name claimed) [
        | some other ↦ err (
            new_error (
              concat (
                "ClusterConnections "
                ∷ p.quote other
                ∷ " and "
                ∷ p.quote e.cluster.name
                ∷ " both resolve to Secret "
                ∷ p.quote name
                ∷ [])))
        | none ↦ rest
      ]

  -- BuildPlan
  unfoldable pub build_plan : List Entry → Result Plan
  unfolding invalid_lines collect sort_connections sort_strings
  build_plan es =
      if not (is_empty (invalid_lines es))
      then err (
          new_error (
            "the ClusterConnection inventory is not safe to restrict:\n  "
            <> join "\n  " (sort_strings (invalid_lines es))))
      else finish (collect es [] [])
