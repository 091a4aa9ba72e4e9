-- ===== src/Command/Run/Get.antt =====
-- What `edgex_device_runget` replies and sends, and what `runOne` lets pass.
use device_service_zigbee.Prelude.{
  ◌≡◌, ◌≢◌, ◌⊎◌, ◌↔◌, inl, inr, refl, ap, ◌∙◌, ◌≤◌, true, Option, some, List, [], ◌∷◌, Bytes, arith,
  Bool-cases, Option-cases, length, ltb,
}
use device_service_zigbee.Prelude.Outcome.{done, ◌>>=◌, >>=-eq-done}
use device_service_zigbee.Value.Equal.{CommandResult}
use device_service_zigbee.Command.{Row, CmdInfo}
use device_service_zigbee.Command.Event.{Event, process_event}
use device_service_zigbee.Command.Event.Laws.{Made, process_event_iff}
use device_service_zigbee.Command.Run.{
  HttpStatus, ok, locked, AdminState, unlocked, OperatingState, enabled, disabled, Device, Effect,
  get_called, event_added, Service, all_readable, finish_get, run_get, run_allowed, in_service,
  run_one,
}

abbrev pub AllReadable : List Row → Type 0
AllReadable [] = Unit
AllReadable (row ∷ rows) = (row.pval.readable ≡ true) × AllReadable rows

all_readable-AllReadable : (rows : List Row) → all_readable rows ≡ true → AllReadable rows
unfolding all_readable
all_readable-AllReadable [] h = tt
all_readable-AllReadable (row ∷ rows) h =
    (ground (arith, h), all_readable-AllReadable rows (ground (arith, h)))

AllReadable-all_readable : (rows : List Row) → AllReadable rows → all_readable rows ≡ true
unfolding all_readable
AllReadable-all_readable [] h = refl
AllReadable-all_readable (row ∷ rows) h = ground (arith, h.0, AllReadable-all_readable rows h.1)

module _ (svc : Service) (dev : Device) (info : CmdInfo) where
  -- the driver has results, and the event of them is sent and replied
  abbrev pub IsGot : List Effect → Option Event → Type 0
  IsGot effects reply =
      (results : List CommandResult) × (svc.get_handler dev.name info.rows ≡ some results)
      × (ev : Event) × (Made svc.float_text svc.long_double svc.data_transform svc.now dev.name
          info.rows results ev)
      × (effects ≡ get_called dev.name ∷ event_added ev ∷ [])
      × (reply ≡ some ev)

  -- A GET is answered with 200 exactly if every row may be read, the driver gives results, and an
  -- event is made of them; the event is sent to core-data once and is the reply.
  pub run_get_ok_iff :
      (effects : List Effect) (reply : Option Event)
      → (run_get svc dev info ≡ done ((ok, effects), reply))
        ↔ (AllReadable info.rows × IsGot effects reply)
  unfolding run_get finish_get
  run_get_ok_iff effects reply = (
    λ h. elim (Bool-cases (all_readable info.rows)) [
      | inr n ↦ ground (arith, n, h)
      | inl r ↦ (
        all_readable-AllReadable info.rows r,
        elim (Option-cases (svc.get_handler dev.name info.rows)) [
          | inl n ↦ ground (arith, r, n, h)
          | inr (results, e) ↦
              let go : ◌>>=◌ {B = (HttpStatus × List Effect) × Option Event}
                    (process_event svc.float_text svc.long_double svc.now dev.name info.rows results
                      svc.data_transform)
                    (λ ev. done (finish_get svc dev ev, ev))
                  ≡ done ((ok, effects), reply) =
                ground (arith, r, e, h) in
              let (o, k, h₁) =
                >>=-eq-done
                  (process_event svc.float_text svc.long_double svc.now dev.name info.rows results
                    svc.data_transform)
                  _ go in
              elim (Option-cases o) [
                | inl n ↦ ground (arith, n, h₁)
                | inr (ev, q) ↦ (
                  results,
                  e,
                  ev,
                  (process_event_iff svc.float_text svc.long_double svc.data_transform svc.now
                        dev.name info.rows results ev).0
                      (k ∙ ap done q),
                  ground (arith, q, h₁),
                  ground (arith, q, h₁),
                )
              ]
        ],
      )
    ],
    λ (r, (results, e, ev, made, e₁, e₂)). ground (
      arith,
      AllReadable-all_readable info.rows r,
      e,
      e₁,
      e₂,
      (process_event_iff svc.float_text svc.long_double svc.data_transform svc.now dev.name
            info.rows results ev).1
          made,
    ),
  )

in_service_lem :
    (a : AdminState) (o : OperatingState) → in_service a o ≡ true → (a ≡ unlocked) × (o ≡ enabled)
unfolding in_service
in_service_lem unlocked enabled h = (refl, refl)
in_service_lem unlocked disabled h = cc
in_service_lem locked o h = cc

-- Where a command has any effect, or is answered with 200, the device was unlocked and enabled, the
-- command within the configured number of operations, and a PUT had a body.
pub run_one_guards :
    (svc : Service) (dev : Device) (info : CmdInfo) (body : Bytes) (code : HttpStatus)
    (effects : List Effect) (reply : Option Event)
    → run_one svc dev info body ≡ done ((code, effects), reply)
    → (effects ≢ []) ⊎ (code ≡ ok)
    → (dev.admin_state ≡ unlocked)
      × (dev.operating_state ≡ enabled)
      × (length info.rows ≤ svc.max_cmd_ops)
      × ((info.isget ≡ true) ⊎ (body ≢ []))
unfolding run_one run_allowed in_service
run_one_guards svc dev info body code effects reply h acted =
    elim (Bool-cases (in_service dev.admin_state dev.operating_state)) [
      | inr n ↦ ground (arith, n, h, acted)
      | inl i ↦
          let (a, o) = in_service_lem dev.admin_state dev.operating_state i in
          elim (Bool-cases (ltb svc.max_cmd_ops (length info.rows))) [
            | inl t ↦ ground (arith, i, t, h, acted)
            | inr n ↦ elim (Bool-cases info.isget) [
              | inl g ↦ (a, o, ground (arith, n), inl g)
              | inr p ↦ (a, o, ground (arith, n), inr (λ e. ground (arith, i, n, p, e, h, acted)))
            ]
          ]
    ]
