-- ===== src/Command/Tests.antt =====
-- The table of commands, events, and paths on a concrete device.
use device_service_zigbee.Prelude.{◌≡◌, refl, true, false, codes, arith}
use device_service_zigbee.Prelude.Outcome.{done, ◌>>=◌}
use device_service_zigbee.Command.{
  find_dev_resource, row_for, rows_for, info_for_res, info_for_dev_res, info_if, command_infos,
  has_command, resource_infos, populate_cmd_info, find_command,
}
use device_service_zigbee.Command.Lookup.{lookup, find_command-lookup}
use device_service_zigbee.Command.Url.{to_one, to_all, route}
use device_service_zigbee.Command.Url.Routes.{route-path, route_misled}
use device_service_zigbee.Command.Lamp.{profile, full_profile}

full : populate_cmd_info profile ≡ done full_profile
unfolding populate_cmd_info command_infos info_if info_for_res rows_for row_for find_dev_resource
    resource_infos has_command info_for_dev_res
full = refl

find_command-lookup_example :
    find_command (codes "dim") profile true
    ≡ (lookup profile (codes "dim") true >>= λ o. done (o, full_profile))
find_command-lookup_example = find_command-lookup profile full_profile (codes "dim") true refl full

route_misled_example : route (codes "names1/level") ≡ done (to_one true (codes "1") (codes "level"))
route_misled_example = route_misled b's' (codes "1") (codes "level") (omega arith) (λ e. cc)

route-path_example :
    (route (codes "name/d1/level") ≡ done (to_one true (codes "d1") (codes "level")))
    × (route (codes "d1/level") ≡ done (to_one false (codes "d1") (codes "level")))
    × (route (codes "all/level") ≡ done (to_all (codes "level")))
route-path_example = route-path (codes "d1") (codes "level") (omega arith) (λ e. cc) (λ e. cc) refl
