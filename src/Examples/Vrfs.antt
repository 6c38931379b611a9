-- ===== src/Examples/Vrfs.antt =====
-- Routing tables of VRFs, and of sources.
use plugins.Prelude.{◌+◌, ◌≤◌, ◌≡◌, refl, List, [], ◌∷◌, false, none, some, ok, text, length}
use plugins.Links.{NetRoute, universe}
use plugins.Sbr.{Rule, is_used, get_next_table_id, next_from}
use plugins.Sbr.Tables.{get_next_table_id-free}
use plugins.Vrf.{Link, find_free_routing_table_id, free_from}

abbrev links : List Link
links =
    record { name = text "red"; index = 2; master_index = 0; table = some 1 }
    ∷ record { name = text "eth0"; index = 3; master_index = 2; table = none }
    ∷ record { name = text "blue"; index = 4; master_index = 0; table = some 3 }
    ∷ []

takes_two : find_free_routing_table_id links ≡ ok 2
unfolding find_free_routing_table_id free_from
takes_two = refl

abbrev rules : List Rule
rules = record { table = 100; src = none } ∷ record { table = 254; src = none } ∷ []

abbrev routes : List NetRoute
routes =
    record {
      dst = none;
      src = none;
      gw = none;
      table = 101;
      flags = 0;
      link_index = 2;
      scope = universe;
    }
    ∷ []

takes_102 : get_next_table_id rules routes 100 ≡ 102
unfolding get_next_table_id next_from is_used
takes_102 = refl

get_next_table_id-free_example :
    (is_used rules routes (get_next_table_id rules routes 100) ≡ false)
    × (100 ≤ get_next_table_id rules routes 100)
    × (get_next_table_id rules routes 100 ≤ 100 + (length rules + length routes))
get_next_table_id-free_example = get_next_table_id-free rules routes 100
