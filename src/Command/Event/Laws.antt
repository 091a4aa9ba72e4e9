-- ===== src/Command/Event/Laws.antt =====
-- What an event of `edgex_data_process_event` holds.
use device_service_zigbee.Prelude.{
  ℕ, ◌≡◌, ◌↔◌, refl, ap, ◌∙◌, Bool, true, Option, none, some, List, [], ◌∷◌, Bytes, arith,
  Bool-cases, Option-cases, inl, inr,
}
use device_service_zigbee.Prelude.Outcome.{done, ◌>>=◌, >>=-eq-done}
use mathlib.Core.Path.{subst}
use device_service_zigbee.Value.{FloatText}
use device_service_zigbee.Value.Equal.{CommandResult}
use device_service_zigbee.Transform.{LongDouble}
use device_service_zigbee.Command.{Row}
use device_service_zigbee.Command.Event.{
  Encoding, cbor, Reading, Event, origin_at, pairs_for, encoding_of, meets, transformed, prepare,
  reading_value, readings_of, process_event,
}
use device_service_zigbee.Command.Event.Rules.{
  HasBinary, encoding_of-HasBinary, encoding_agrees, IsTransformed, Asserts, Shows,
  transformed-IsTransformed, meets-Asserts, reading_value-Shows,
}

module _ (f : FloatText) (m : LongDouble) (d : Bool) where
  -- each result after its transform is the one behind it, and meets the assertion of its row
  abbrev pub Prepared : List Row → List CommandResult → List CommandResult → Type 0
  Prepared [] rs [] = Unit
  Prepared [] rs (s ∷ ss) = ⊥
  Prepared (row ∷ rows) (r ∷ rs) (s ∷ ss) =
      (IsTransformed f m d d row r s
        × Asserts f m d row.pval.assertion s.value row.pval.float_as_binary)
      × Prepared rows rs ss
  Prepared (row ∷ rows) _ _ = ⊥

  Prepared-step :
      (row : Row) (rows : List Row) (r r' : CommandResult) (rs ss : List CommandResult)
      (rest : Option (List CommandResult))
      → transformed f m d row r ≡ done r'
      → meets f m row.pval.assertion r'.value row.pval.float_as_binary ≡ done true
      → elim rest [ none ↦ done none | some rs' ↦ done (some (r' ∷ rs')) ] ≡ done (some ss)
      → ((ss' : List CommandResult) → rest ≡ some ss' → Prepared rows rs ss')
      → Prepared (row ∷ rows) (r ∷ rs) ss
  Prepared-step row rows r r' rs ss none e g h k = cc
  Prepared-step row rows r r' rs [] (some ss') e g h k = cc
  Prepared-step row rows r r' rs (s ∷ ss) (some ss') e g h k =
      let same_head : r' ≡ s = ground (arith, h) in
      let same_tail : ss' ≡ ss = ground (arith, h) in
      let met : meets f m row.pval.assertion s.value row.pval.float_as_binary ≡ done true =
        ground (arith, g, same_head) in
      (
        (
          (transformed-IsTransformed f m d row r s).0 (e ∙ ap done same_head),
          (meets-Asserts f m d row.pval.assertion s.value row.pval.float_as_binary).0 met,
        ),
        k ss (ap some same_tail),
      )

  prepare-Prepared :
      (rows : List Row) (rs ss : List CommandResult)
      → prepare f m d rows rs ≡ done (some ss)
      → Prepared rows rs ss
  unfolding prepare
  prepare-Prepared [] rs [] h = tt
  prepare-Prepared [] rs (s ∷ ss) h = cc
  prepare-Prepared (row ∷ rows) [] ss h = cc
  prepare-Prepared (row ∷ rows) (r ∷ rs) ss h =
      let (r', e, h₁) = >>=-eq-done (transformed f m d row r) _ h in
      let (good, g, h₂) =
        >>=-eq-done (meets f m row.pval.assertion r'.value row.pval.float_as_binary) _ h₁ in
      elim (Bool-cases good) [
        | inl t ↦
            let go : (prepare f m d rows rs >>= λ rest. elim rest [
              | none ↦ done none
              | some rs' ↦ done (some (r' ∷ rs'))
            ])
                ≡ done (some ss) =
              ground (arith, t, h₂) in
            let (rest, k, h₃) = >>=-eq-done (prepare f m d rows rs) _ go in
            Prepared-step row rows r r' rs ss rest e (g ∙ ap done t) h₃
              (λ ss' o. prepare-Prepared rows rs ss' (k ∙ ap done o))
        | inr n ↦ ground (arith, n, h₂)
      ]

  pub Prepared-prepare :
      (rows : List Row) (rs ss : List CommandResult)
      → Prepared rows rs ss
      → prepare f m d rows rs ≡ done (some ss)
  unfolding prepare
  Prepared-prepare [] rs [] h = refl
  Prepared-prepare [] rs (s ∷ ss) h = absurd h
  Prepared-prepare (row ∷ rows) (r ∷ rs) (s ∷ ss) h = ground (
    arith,
    (transformed-IsTransformed f m d row r s).1 h.0.0,
    (meets-Asserts f m d row.pval.assertion s.value row.pval.float_as_binary).1 h.0.1,
    Prepared-prepare rows rs ss h.1,
  )
  Prepared-prepare (row ∷ rows) _ _ h = absurd h

  -- one reading for each row, in order: its name, its value, its time or else the event's, and for CBOR
  -- the number of pairs that its map is made for
  abbrev pub Reads : Encoding → ℕ → List Row → List CommandResult → List Reading → Type 0
  Reads enc now [] ss [] = Unit
  Reads enc now [] ss (x ∷ xs) = ⊥
  Reads enc now (row ∷ rows) (s ∷ ss) (x ∷ xs) =
      ((x.name ≡ row.req.resname)
        × Shows f m d enc row s.value x.value
        × (x.origin ≡ origin_at now s)
        × (x.size ≡ pairs_for enc s))
      × Reads enc now rows ss xs
  Reads enc now (row ∷ rows) _ _ = ⊥

  readings_of-Reads :
      (enc : Encoding) (now : ℕ) (rows : List Row) (ss : List CommandResult) (xs : List Reading)
      → readings_of f m enc now rows ss ≡ done xs
      → Reads enc now rows ss xs
  unfolding readings_of
  readings_of-Reads enc now [] ss [] h = tt
  readings_of-Reads enc now [] ss (x ∷ xs) h = cc
  readings_of-Reads enc now (row ∷ rows) [] xs h = cc
  readings_of-Reads enc now (row ∷ rows) (s ∷ ss) [] h =
      let (v, e, h₁) = >>=-eq-done (reading_value f m enc row s.value) _ h in
      let (rest, k, h₂) = >>=-eq-done (readings_of f m enc now rows ss) _ h₁ in ground (arith, h₂)
  readings_of-Reads enc now (row ∷ rows) (s ∷ ss) (x ∷ xs) h =
      let (v, e, h₁) = >>=-eq-done (reading_value f m enc row s.value) _ h in
      let (rest, k, h₂) = >>=-eq-done (readings_of f m enc now rows ss) _ h₁ in
      let same_rest : rest ≡ xs = ground (arith, h₂) in
      (
        (
          ground (arith, h₂),
          (reading_value-Shows f m d enc row s.value x.value).0 (ground (arith, e, h₂)),
          ground (arith, h₂),
          ground (arith, h₂),
        ),
        readings_of-Reads enc now rows ss xs (k ∙ ap done same_rest),
      )

  Reads-readings_of :
      (enc : Encoding) (now : ℕ) (rows : List Row) (ss : List CommandResult) (xs : List Reading)
      → Reads enc now rows ss xs
      → readings_of f m enc now rows ss ≡ done xs
  unfolding readings_of
  Reads-readings_of enc now [] ss [] h = refl
  Reads-readings_of enc now [] ss (x ∷ xs) h = absurd h
  Reads-readings_of enc now (row ∷ rows) (s ∷ ss) (x ∷ xs) h = ground (
    arith,
    h.0.0,
    (reading_value-Shows f m d enc row s.value x.value).1 h.0.1,
    h.0.2,
    h.0.3,
    Reads-readings_of enc now rows ss xs h.1,
  )
  Reads-readings_of enc now (row ∷ rows) _ _ h = absurd h

  -- the event of a device at a time, from results that were prepared and then read
  abbrev pub Made : ℕ → Bytes → List Row → List CommandResult → Event → Type 0
  Made now device rows rs ev =
      (ss : List CommandResult) × (Prepared rows rs ss)
      × (Reads ev.encoding now rows ss ev.readings)
      × ((ev.encoding ≡ cbor) ↔ HasBinary rows)
      × (ev.device ≡ device)
      × (ev.origin ≡ now)

  pub process_event_iff :
      (now : ℕ) (device : Bytes) (rows : List Row) (rs : List CommandResult) (ev : Event)
      → (process_event f m now device rows rs d ≡ done (some ev)) ↔ Made now device rows rs ev
  unfolding process_event
  process_event_iff now device rows rs ev = (
    λ h.
        let (prepared, e, h₁) = >>=-eq-done (prepare f m d rows rs) _ h in
        elim (Option-cases prepared) [
          | inl n ↦ ground (arith, n, h₁)
          | inr (ss, o) ↦
              let go : (readings_of f m (encoding_of rows) now rows ss >>= λ readings. done (
                    some (record {
                      encoding = encoding_of rows;
                      device = device;
                      origin = now;
                      readings = readings;
                    })))
                  ≡ done (some ev) =
                ground (arith, o, h₁) in
              let (xs, k, h₂) = >>=-eq-done (readings_of f m (encoding_of rows) now rows ss) _ go in
              let same_readings : xs ≡ ev.readings = ground (arith, h₂) in
              let same_encoding : encoding_of rows ≡ ev.encoding = ground (arith, h₂) in
              (
                ss,
                prepare-Prepared rows rs ss (e ∙ ap done o),
                subst (λ enc. Reads enc now rows ss ev.readings) same_encoding
                    (readings_of-Reads _ now rows ss ev.readings (k ∙ ap done same_readings)),
                subst (λ enc. (enc ≡ cbor) ↔ HasBinary rows) same_encoding
                    (encoding_of-HasBinary rows),
                ground (arith, h₂),
                ground (arith, h₂),
              )
        ],
    λ (ss, p, q, e₁, e₂, e₃).
        let same : ev.encoding ≡ encoding_of rows =
          encoding_agrees ev.encoding (encoding_of rows) (HasBinary rows) e₁
            (encoding_of-HasBinary rows) in
        let read : Reads (encoding_of rows) now rows ss ev.readings =
          subst (λ enc. Reads enc now rows ss ev.readings) same q in
        ground (
          arith,
          Prepared-prepare rows rs ss p,
          Reads-readings_of (encoding_of rows) now rows ss ev.readings read,
          same,
          e₂,
          e₃,
        ),
  )
