-- ===== src/Command/Run/Tests.antt =====
-- Requests to a concrete device.
use device_service_zigbee.Prelude.{
  ◌≡◌, ◌≢◌, ◌⊎◌, ◌↔◌, ◌≤◌, refl, inr, true, false, none, some, [], ◌∷◌, codes, arith,
}
use device_service_zigbee.Prelude.Outcome.{done}
use device_service_zigbee.Value.{w16, uint_result, populate_value}
use device_service_zigbee.Value.Scan.{scan_unsigned}
use device_service_zigbee.Command.Run.{
  ok, unlocked, enabled, get_called, put_called, event_added, run_put, run_get, run_one,
  run_allowed, in_service, transform_setting,
}
use device_service_zigbee.Command.Run.Accepted.{AllSet}
use device_service_zigbee.Command.Run.Put.{IsRefused, IsPut, run_put_cases, AllSet-run_put}
use device_service_zigbee.Command.Run.Get.{AllReadable, IsGot, run_get_ok_iff, run_one_guards}
use device_service_zigbee.Command.Lamp.{
  level_row, dim_info, level_info, result, event, object, service, desk,
}

level_set : AllSet service object (level_row ∷ []) (result ∷ [])
unfolding populate_value scan_unsigned transform_setting
level_set = ((refl, codes "300", refl, uint_result w16 300, refl, refl), tt)

put_done :
    run_put service desk dim_info (codes "{}")
    ≡ done (ok, put_called (codes "desk") (result ∷ []) ∷ [])
put_done = AllSet-run_put service desk dim_info (codes "{}") object (result ∷ []) refl level_set

run_put_cases_example :
    IsRefused service desk dim_info (codes "{}") ok (put_called (codes "desk") (result ∷ []) ∷ [])
    ⊎ IsPut service desk dim_info (codes "{}") ok (put_called (codes "desk") (result ∷ []) ∷ [])
run_put_cases_example =
    run_put_cases service desk dim_info (codes "{}") ok
      (put_called (codes "desk") (result ∷ []) ∷ []) put_done

run_get_ok_iff_example :
    (run_get service desk (level_info true)
      ≡ done ((ok, get_called (codes "desk") ∷ event_added event ∷ []), some event))
    ↔ (AllReadable (level_row ∷ [])
        × IsGot service desk
            (level_info true)
            (get_called (codes "desk") ∷ event_added event ∷ [])
            (some event))
run_get_ok_iff_example =
    run_get_ok_iff service desk (level_info true)
      (get_called (codes "desk") ∷ event_added event ∷ []) (some event)

put_allowed :
    run_one service desk dim_info (codes "{}")
    ≡ done ((ok, put_called (codes "desk") (result ∷ []) ∷ []), none)
unfolding run_one run_allowed in_service
put_allowed = ground (arith, put_done)

run_one_guards_example :
    (desk.admin_state ≡ unlocked)
    × (desk.operating_state ≡ enabled)
    × (1 ≤ 8)
    × ((false ≡ true) ⊎ (codes "{}" ≢ []))
run_one_guards_example =
    run_one_guards service desk dim_info (codes "{}") ok
      (put_called (codes "desk") (result ∷ []) ∷ []) none put_allowed (inr refl)
