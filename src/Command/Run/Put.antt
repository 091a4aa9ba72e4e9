-- ===== src/Command/Run/Put.antt =====
-- What `edgex_device_runput` gives to the driver.
use device_service_zigbee.Prelude.{
  ◌≡◌, ◌⊎◌, inl, inr, ap, ◌∙◌, Option, some, List, [], ◌∷◌, Bytes, arith, if◌then◌else◌,
  Option-cases,
}
use device_service_zigbee.Prelude.Outcome.{done, ◌>>=◌, >>=-eq-done}
use device_service_zigbee.Value.Equal.{CommandResult}
use device_service_zigbee.Command.{CmdInfo}
use device_service_zigbee.Command.Run.{
  HttpStatus, ok, bad_request, method_not_allowed, internal_server_error, Device, Effect,
  put_called, Service, refused, put_values, finish_put, run_put,
}
use device_service_zigbee.Command.Run.Accepted.{
  AllSet, Settings-cases, put_values-AllSet, AllSet-put_values, put_values-refused,
}

module _ (svc : Service) (dev : Device) (info : CmdInfo) (body : Bytes) where
  -- nothing done, and a code that says why
  abbrev pub IsRefused : HttpStatus → List Effect → Type 0
  IsRefused code effects = (effects ≡ []) × ((code ≡ bad_request) ⊎ (code ≡ method_not_allowed))

  -- one call of the driver, with a value for each row
  abbrev pub IsPut : HttpStatus → List Effect → Type 0
  IsPut code effects =
      (object : (Bytes → Option Bytes)) × (svc.parse body ≡ some object)
      × (rs : List CommandResult) × (AllSet svc object info.rows rs)
      × (effects ≡ put_called dev.name rs ∷ [])
      × (code ≡ (if svc.put_handler dev.name info.rows rs then ok else internal_server_error))

  -- A PUT that ends either leaves the driver alone and is refused with 400 or 405, or calls it exactly
  -- once, with a value for each row of the command, which may be written: the value that the body's text
  -- has, as the transform leaves it where the service transforms and the transform takes it, and as it
  -- is where the service does not; the code is then 200 exactly if the driver succeeds.
  pub run_put_cases :
      (code : HttpStatus) (effects : List Effect)
      → run_put svc dev info body ≡ done (code, effects)
      → IsRefused code effects ⊎ IsPut code effects
  unfolding run_put finish_put
  run_put_cases code effects h = elim (Option-cases (svc.parse body)) [
    | inl n ↦ inl (ground (arith, n, h), inl (ground (arith, n, h)))
    | inr (object, e) ↦
        let go : (put_values svc object info.rows >>= λ s. done (finish_put svc dev info.rows s))
            ≡ done (code, effects) =
          ground (arith, e, h) in
        let (s, k, h₁) = >>=-eq-done (put_values svc object info.rows) _ go in
        elim (Settings-cases s) [
          | inl (c, n) ↦
              let same_code : c ≡ code = ground (arith, n, h₁) in
              inl (
                ground (arith, n, h₁),
                put_values-refused svc object info.rows code
                    (k ∙ ap done (n ∙ ap refused same_code)),
              )
          | inr (rs, n) ↦ inr (
            object,
            e,
            rs,
            put_values-AllSet svc object info.rows rs (k ∙ ap done n),
            ground (arith, n, h₁),
            ground (arith, n, h₁),
          )
        ]
  ]

  -- A PUT of values for all rows of the command gives just these to the driver.
  pub AllSet-run_put :
      (object : Bytes → Option Bytes) (rs : List CommandResult)
      → svc.parse body ≡ some object
      → AllSet svc object info.rows rs
      → run_put svc dev info body
        ≡ done (
          if svc.put_handler dev.name info.rows rs then ok else internal_server_error,
          put_called dev.name rs ∷ [],
        )
  unfolding run_put finish_put
  AllSet-run_put object rs e all = ground (arith, e, AllSet-put_values svc object info.rows rs all)
