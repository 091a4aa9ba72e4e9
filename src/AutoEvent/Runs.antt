-- ===== src/AutoEvent/Runs.antt =====
-- What the runs of an automatic event send, and what they do to its count of references.
use device_service_zigbee.Prelude.{
  ◌+◌, ◌≤◌, ◌≡◌, Bool, true, false, ◌&&◌, Option, none, some, List, [], ◌∷◌, ◌++◌, All, arith,
  if◌then◌else◌, Bool-cases, Option-cases, inl, inr,
}
use device_service_zigbee.Prelude.Outcome.{done, ◌>>=◌, >>=-eq-done}
use device_service_zigbee.Value.Equal.{CommandResult, FloatEq, IsNumber, dup, equal-dup}
use device_service_zigbee.Command.Event.{Event, process_event}
use device_service_zigbee.Command.Run.{Device, Service, in_service}
use device_service_zigbee.Command.Url.{Devices}
use device_service_zigbee.AutoEvent.{
  AutoImpl, AutoEffect, device_polled, event_posted, device_released, hold, release, changed, push,
  send, poll, ae_runner,
}

module _ (svc : Service) (devs : Devices) (q : FloatEq) (posted : Event → Bool) where
  -- the results that the driver gives have not been sent, and the event made of them is `ev`
  abbrev pub IsNews : AutoImpl → Device → List CommandResult → Event → Type 0
  IsNews ai dev results ev =
      (svc.get_handler dev.name ai.resource.rows ≡ some results)
      × (changed q ai results ≡ done true)
      × (process_event svc.float_text svc.long_double svc.now dev.name ai.resource.rows results
            svc.data_transform
          ≡ done (some ev))

  abbrev pub sent : Device → Event → List AutoEffect
  sent dev ev = device_polled dev.name ∷ event_posted ev ∷ device_released dev.name ∷ []

  -- On a known device that is unlocked and enabled, a held automatic event on change whose results are
  -- new, hold no NaN, and make an event that is accepted, posts that event and keeps a copy of the
  -- results; its next run, on the same results, posts nothing.
  pub ae_runner_once :
      (ai : AutoImpl) (dev : Device) (results : List CommandResult) (ev : Event)
      → devs.by_name ai.device ≡ some dev
      → in_service dev.admin_state dev.operating_state ≡ true
      → ai.on_change ≡ true
      → ai.freed ≡ false
      → 1 ≤ ai.refs
      → IsNews ai dev results ev
      → posted ev ≡ true
      → All (λ (r : CommandResult). IsNumber q r.value) results
      → (ae_runner svc devs q posted ai
          ≡ done (record ai { last = some (dup results) }, sent dev ev))
        × (ae_runner svc devs q posted (record ai { last = some (dup results) })
            ≡ done (
              record ai { last = some (dup results) },
              device_polled dev.name ∷ device_released dev.name ∷ [],
            ))
  unfolding ae_runner poll send push changed hold release
  ae_runner_once ai dev results ev known on change live refs (e, c, p) ok numbers = (
    ground (arith, known, on, change, live, refs, e, c, p, ok),
    ground (arith, known, on, change, live, refs, e, equal-dup q results numbers),
  )

  -- On a known device that is unlocked and enabled, a run with new results whose event is made but not
  -- accepted leaves the automatic event as it was, so the next run tries again.
  pub ae_runner_retries :
      (ai : AutoImpl) (dev : Device) (results : List CommandResult) (ev : Event)
      → devs.by_name ai.device ≡ some dev
      → in_service dev.admin_state dev.operating_state ≡ true
      → ai.freed ≡ false
      → 1 ≤ ai.refs
      → IsNews ai dev results ev
      → posted ev ≡ false
      → ae_runner svc devs q posted ai ≡ done (ai, sent dev ev)
  unfolding ae_runner poll send push changed hold release
  ae_runner_retries ai dev results ev known on live refs (e, c, p) failed =
      ground (arith, known, on, live, refs, e, c, p, failed)

  -- the count of references, and whether the automatic event was freed, are unchanged
  abbrev Keeps : AutoImpl → AutoImpl → Type 0
  Keeps ai ai' = (ai'.refs ≡ ai.refs) × (ai'.freed ≡ ai.freed)

  push-Keeps :
      (ai ai' : AutoImpl) (dev : Device) (results : List CommandResult) (o : Option Event)
      (es : List AutoEffect)
      → push posted ai dev results o ≡ (ai', es)
      → Keeps ai ai'
  unfolding push
  push-Keeps ai ai' dev results none es h = (ground (arith, h), ground (arith, h))
  push-Keeps ai ai' dev results (some ev) es h = elim (Bool-cases (posted ev && ai.on_change)) [
    | inl t ↦ (ground (arith, t, h), ground (arith, t, h))
    | inr n ↦ (ground (arith, n, h), ground (arith, n, h))
  ]

  send-Keeps :
      (ai ai' : AutoImpl) (dev : Device) (results : List CommandResult) (es : List AutoEffect)
      → send svc devs q posted ai dev results ≡ done (ai', es)
      → Keeps ai ai'
  unfolding send
  send-Keeps ai ai' dev results es h =
      let (o, e, k) =
        >>=-eq-done
          (process_event svc.float_text svc.long_double svc.now dev.name ai.resource.rows results
            svc.data_transform)
          _ h in
      push-Keeps ai ai' dev results o es (ground (arith, k))

  poll-Keeps :
      (ai ai' : AutoImpl) (dev : Device) (es : List AutoEffect)
      → poll svc devs q posted ai dev ≡ done (ai', es)
      → Keeps ai ai'
  unfolding poll
  poll-Keeps ai ai' dev es h = elim (Option-cases (svc.get_handler dev.name ai.resource.rows)) [
    | inl n ↦ (ground (arith, n, h), ground (arith, n, h))
    | inr (results, e) ↦
        let go : (changed q ai results >>= λ news.
        if news then send svc devs q posted ai dev results else done (ai, []))
            ≡ done (ai', es) =
          ground (arith, e, h) in
        let (news, c, k) = >>=-eq-done (changed q ai results) _ go in
        elim (Bool-cases news) [
          | inl t ↦ send-Keeps ai ai' dev results es (ground (arith, t, k))
          | inr n ↦ (ground (arith, n, k), ground (arith, n, k))
        ]
  ]

  -- A run of an automatic event that is held keeps it alive, and its count of references as it was,
  -- unless the device is locked or disabled: then the count is one more.
  pub ae_runner_refs :
      (ai ai' : AutoImpl) (es : List AutoEffect)
      → ai.freed ≡ false
      → 1 ≤ ai.refs
      → ae_runner svc devs q posted ai ≡ done (ai', es)
      → (ai'.freed ≡ false)
        × (ai'.refs ≡ elim (devs.by_name ai.device) [
          | none ↦ ai.refs
          | some dev ↦
              if in_service dev.admin_state dev.operating_state then ai.refs else ai.refs + 1
        ])
  unfolding ae_runner hold release
  ae_runner_refs ai ai' es live refs h = elim (Option-cases (devs.by_name ai.device)) [
    | inl n ↦ (ground (arith, n, h, live, refs), ground (arith, n, h, live, refs))
    | inr (dev, e) ↦ elim (Bool-cases (in_service dev.admin_state dev.operating_state)) [
      | inr n ↦ (ground (arith, e, n, h, live), ground (arith, e, n, h))
      | inl i ↦
          let go : ◌>>=◌ {B = AutoImpl × List AutoEffect} (poll svc devs q posted (hold ai) dev)
                (λ (a, effects).
                  done (
                    release a,
                    device_polled dev.name ∷ effects ++ (device_released dev.name ∷ []),
                  ))
              ≡ done (ai', es) =
            ground (arith, e, i, h) in
          let ((a, effects), p, k) = >>=-eq-done (poll svc devs q posted (hold ai) dev) _ go in
          let (r, f) = poll-Keeps (hold ai) a dev effects p in
          (ground (arith, e, i, r, f, k, live, refs), ground (arith, e, i, r, f, k, refs))
    ]
  ]
