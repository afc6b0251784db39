-- ===== src/Tests/Plugins.antt =====
-- Two plugins, of which the first depends on the second.
use xmpp_go.Prelude.{
  ◌≡◌, ◌↔◌, refl, Bool, true, false, Option, none, some, List, [], ◌∷◌, Result, ok, err, list_eq,
}
use xmpp_go.Prelude.Bytes.{Bytes, bytes}
use xmpp_go.Prelude.Dict.{get, put, keys, IsDistinct}
use xmpp_go.Manager.{
  Graph, Manager, PluginError, missing_dep, failed, missing_of, find_missing, add_edges, build,
  zero_degrees, ready, release, sort_loop, topological_sort, graph_of, initialize_loop, initialize,
  backwards, close,
}
use xmpp_go.Manager.Names.{has}
use xmpp_go.Manager.Edges.{deps_of}
use xmpp_go.Manager.Sort.{DependsBehind, IsOrder}
use xmpp_go.Manager.Orders.{
  topological_sort-total, topological_sort-IsOrder, topological_sort_complete,
  topological_sort-missing,
}
use xmpp_go.Manager.Lifecycle.{initialize-DependsBehind, close-initialize}

abbrev two : Graph
two = (bytes "mam", bytes "disco" ∷ []) ∷ (bytes "disco", []) ∷ []

abbrev sorted : List Bytes
sorted = bytes "disco" ∷ bytes "mam" ∷ []

abbrev lonely : Graph
lonely = (bytes "mam", bytes "disco" ∷ []) ∷ []

two-IsDistinct : IsDistinct two
unfolding get
two-IsDistinct = (refl, (refl, tt))

lonely-IsDistinct : IsDistinct lonely
unfolding get
lonely-IsDistinct = (refl, tt)

two-sorted : topological_sort two ≡ some (ok sorted)
unfolding topological_sort find_missing missing_of add_edges build zero_degrees ready release
    sort_loop get put keys
two-sorted = refl

topological_sort-total_example :
    (r : Result PluginError (List Bytes)) × (topological_sort two ≡ some r)
topological_sort-total_example = topological_sort-total two two-IsDistinct

topological_sort-IsOrder_example : IsOrder two sorted
topological_sort-IsOrder_example = topological_sort-IsOrder two sorted two-IsDistinct two-sorted

topological_sort_complete_example :
    (order : List Bytes) × (topological_sort two ≡ some (ok order)) × IsOrder two order
topological_sort_complete_example =
    topological_sort_complete two sorted two-IsDistinct
      (topological_sort-IsOrder two sorted two-IsDistinct two-sorted)

topological_sort-missing_example :
    (topological_sort lonely ≡ some (err missing_dep))
    ↔ ((x : Bytes) × (d : Bytes) × (has d (deps_of lonely x) ≡ true) × (get lonely d ≡ none))
topological_sort-missing_example = topological_sort-missing lonely lonely-IsDistinct

-- A plugin is here the list of its dependencies.
abbrev registered_two : Manager (List Bytes)
registered_two = record { plugins = two; order = [] }

abbrev started_two : Manager (List Bytes)
started_two = record { plugins = two; order = sorted }

abbrev own : List Bytes → List Bytes
own p = p

abbrev fine : List Bytes → Bool
fine p = true

abbrev closes : List Bytes → Option Bytes
closes p = some (bytes "late")

two-started : initialize own fine registered_two ≡ some (started_two, sorted, none)
unfolding initialize initialize_loop graph_of topological_sort find_missing missing_of add_edges
    build zero_degrees ready release sort_loop get put keys
two-started = refl

-- The second plugin fails to initialise.
abbrev only_disco : List Bytes → Bool
only_disco [] = true
only_disco (x ∷ l) = false

two-failed :
    initialize own only_disco registered_two
    ≡ some (started_two, bytes "disco" ∷ [], some (failed (bytes "mam")))
unfolding initialize initialize_loop graph_of topological_sort find_missing missing_of add_edges
    build zero_degrees ready release sort_loop get put keys
two-failed = refl

initialize-DependsBehind_example : DependsBehind (graph_of own two) [] sorted
initialize-DependsBehind_example =
    initialize-DependsBehind own only_disco registered_two started_two (bytes "disco" ∷ [])
      (some (failed (bytes "mam"))) two-IsDistinct two-failed

close-initialize_example : (close closes started_two).0 ≡ backwards sorted
close-initialize_example =
    close-initialize own closes fine registered_two started_two sorted two-IsDistinct two-started
