-- ===== src/Sbr/Samples.antt =====
-- The search for a routing table, with two rules and a route in the first tables.
use containerz_plugin.Common.{List, [], ◌∷◌, none, arith}
use containerz_plugin.Sbr.{Rule, Route, first_table_id, get_next_table_id}
use containerz_plugin.Sbr.Tables.{FirstFree, get_next_table_id-FirstFree}

abbrev some_rules : List Rule
some_rules = record { table = 101; src = none } ∷ record { table = 254; src = none } ∷ []

abbrev some_routes : List Route
some_routes = record { dst = none; gw = []; src = []; table = 100; link = 2; flags = 0 } ∷ []

get_next_table_id-FirstFree_example :
    FirstFree some_rules some_routes first_table_id
      (get_next_table_id 4 some_rules some_routes first_table_id)
get_next_table_id-FirstFree_example =
    get_next_table_id-FirstFree 4 some_rules some_routes first_table_id (omega arith)
