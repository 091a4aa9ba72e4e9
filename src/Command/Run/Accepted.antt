-- ===== src/Command/Run/Accepted.antt =====
-- When the loop of `edgex_device_runput` accepts a request: the settings it makes, row by row.
use device_service_zigbee.Prelude.{
  ◌≡◌, ◌⊎◌, inl, inr, refl, sym, ap, ◌∙◌, Bool, true, false, Option, none, some, List, [], ◌∷◌,
  Bytes, arith, if◌then◌else◌, Bool-cases, Option-cases,
}
use device_service_zigbee.Prelude.Outcome.{done, ◌>>=◌, >>=-eq-done}
use mathlib.Core.Path.{subst}
use device_service_zigbee.Value.{Value, populate_value}
use device_service_zigbee.Value.Equal.{CommandResult}
use device_service_zigbee.Transform.{incoming}
use device_service_zigbee.Command.{Row}
use device_service_zigbee.Command.Run.{
  HttpStatus, bad_request, method_not_allowed, Service, Settings, refused, accepted, fresh,
  RowResult, rejected, setting, transform_setting, parse_setting, row_setting, put_values,
}

RowResult-cases :
    (x : RowResult)
    → ((code : HttpStatus) × (x ≡ rejected code)) ⊎ ((r : CommandResult) × (x ≡ setting r))
RowResult-cases (rejected code) = inl (code, refl)
RowResult-cases (setting r) = inr (r, refl)

pub Settings-cases :
    (x : Settings)
    → ((code : HttpStatus) × (x ≡ refused code)) ⊎ ((rs : List CommandResult) × (x ≡ accepted rs))
Settings-cases (refused code) = inl (code, refl)
Settings-cases (accepted rs) = inr (rs, refl)

module _ (svc : Service) (object : Bytes → Option Bytes) where
  -- what becomes of a value: the transform takes it and leaves `r`, or, where the service does not
  -- transform, it is `r`
  abbrev pub Becomes : Bool → Row → Value → CommandResult → Type 0
  Becomes true row v r = incoming svc.long_double (fresh v) row.pval row.map ≡ done (true, r)
  Becomes false row v r = r ≡ fresh v

  transform_setting-Becomes :
      (row : Row) (v : Value) (r : CommandResult)
      → transform_setting svc row (fresh v) ≡ done (setting r)
      → Becomes svc.data_transform row v r
  unfolding transform_setting
  transform_setting-Becomes row v r h = elim (Bool-cases svc.data_transform) [
    | inr n ↦ subst (λ b. Becomes b row v r) (sym n) (ground (arith, n, h))
    | inl t ↦
        let go : (incoming svc.long_double (fresh v) row.pval row.map >>= λ (good, r').
        done (if good then setting r' else rejected bad_request))
            ≡ done (setting r) =
          ground (arith, t, h) in
        let (p, e, h₁) = >>=-eq-done (incoming svc.long_double (fresh v) row.pval row.map) _ go in
        subst (λ b. Becomes b row v r) (sym t)
          (elim (Bool-cases p.0) [
            | inl g ↦ ground (arith, e, g, h₁)
            | inr g ↦ ground (arith, g, h₁)
          ])
  ]

  Becomes-transform_setting :
      (row : Row) (v : Value) (r : CommandResult)
      → Becomes svc.data_transform row v r
      → transform_setting svc row (fresh v) ≡ done (setting r)
  unfolding transform_setting
  Becomes-transform_setting row v r h = elim (Bool-cases svc.data_transform) [
    | inr n ↦ let same : r ≡ fresh v = subst (λ b. Becomes b row v r) n h in ground (arith, n, same)
    | inl t ↦
        let taken : incoming svc.long_double (fresh v) row.pval row.map ≡ done (true, r) =
          subst (λ b. Becomes b row v r) t h in
        ground (arith, t, taken)
  ]

  -- the row may be written, the request has its text, the text is a value of its type, and the
  -- value becomes `r`
  abbrev pub IsAssigned : Row → CommandResult → Type 0
  IsAssigned row r =
      (row.pval.writable ≡ true)
      × (s : Bytes) × (object row.req.resname ≡ some s)
      × (v : Value) × (populate_value svc.float_text row.pval.type s ≡ done (some v))
      × Becomes svc.data_transform row v r

  abbrev pub AllSet : List Row → List CommandResult → Type 0
  AllSet [] [] = Unit
  AllSet (row ∷ rows) (r ∷ rs) = IsAssigned row r × AllSet rows rs
  AllSet _ _ = ⊥

  row_setting-IsAssigned :
      (row : Row) (r : CommandResult)
      → row_setting svc object row ≡ done (setting r)
      → IsAssigned row r
  unfolding row_setting parse_setting
  row_setting-IsAssigned row r h = elim (Bool-cases row.pval.writable) [
    | inr n ↦ ground (arith, n, h)
    | inl w ↦ elim (Option-cases (object row.req.resname)) [
      | inl n ↦ ground (arith, w, n, h)
      | inr (s, e) ↦
          let parsed : (populate_value svc.float_text row.pval.type s >>= λ v. elim v [
            | none ↦ done (rejected bad_request)
            | some v' ↦ transform_setting svc row (fresh v')
          ])
              ≡ done (setting r) =
            ground (arith, w, e, h) in
          let (o, p, h₁) = >>=-eq-done (populate_value svc.float_text row.pval.type s) _ parsed in
          elim (Option-cases o) [
            | inl n ↦ ground (arith, n, h₁)
            | inr (v, q) ↦ (
              w,
              s,
              e,
              v,
              p ∙ ap done q,
              transform_setting-Becomes row v r (ground (arith, q, h₁)),
            )
          ]
    ]
  ]

  IsAssigned-row_setting :
      (row : Row) (r : CommandResult)
      → IsAssigned row r
      → row_setting svc object row ≡ done (setting r)
  unfolding row_setting parse_setting
  IsAssigned-row_setting row r (w, s, e, v, p, q) =
      ground (arith, w, e, p, Becomes-transform_setting row v r q)

  AllSet-cons :
      (row : Row) (rows : List Row) (r : CommandResult) (rest : Settings) (rs : List CommandResult)
      → IsAssigned row r
      → elim rest [ refused code ↦ done (refused code) | accepted rs' ↦ done (accepted (r ∷ rs')) ]
        ≡ done (accepted rs)
      → ((rs' : List CommandResult) → rest ≡ accepted rs' → AllSet rows rs')
      → AllSet (row ∷ rows) rs
  AllSet-cons row rows r (refused code) rs set h k = cc
  AllSet-cons row rows r (accepted rs') [] set h k = cc
  AllSet-cons row rows r (accepted rs') (s ∷ ss) set h k =
      let same_head : r ≡ s = ground (arith, h) in
      let same_tail : rs' ≡ ss = ground (arith, h) in
      (subst (IsAssigned row) same_head set, k ss (ap accepted same_tail))

  pub put_values-AllSet :
      (rows : List Row) (rs : List CommandResult)
      → put_values svc object rows ≡ done (accepted rs)
      → AllSet rows rs
  unfolding put_values
  put_values-AllSet [] [] h = tt
  put_values-AllSet [] (r ∷ rs) h = cc
  put_values-AllSet (row ∷ rows) rs h =
      let (first, e, h₁) = >>=-eq-done (row_setting svc object row) _ h in
      elim (RowResult-cases first) [
        | inl (code, n) ↦ ground (arith, n, h₁)
        | inr (r, o) ↦
            let go : (put_values svc object rows >>= λ rest. elim rest [
              | refused code ↦ done (refused code)
              | accepted rs' ↦ done (accepted (r ∷ rs'))
            ])
                ≡ done (accepted rs) =
              ground (arith, o, h₁) in
            let (rest, k, h₂) = >>=-eq-done (put_values svc object rows) _ go in
            AllSet-cons row rows r rest rs (row_setting-IsAssigned row r (e ∙ ap done o)) h₂
              (λ rs' q. put_values-AllSet rows rs' (k ∙ ap done q))
      ]

  pub AllSet-put_values :
      (rows : List Row) (rs : List CommandResult)
      → AllSet rows rs
      → put_values svc object rows ≡ done (accepted rs)
  unfolding put_values
  AllSet-put_values [] [] h = refl
  AllSet-put_values (row ∷ rows) (r ∷ rs) h =
      ground (arith, IsAssigned-row_setting row r h.0, AllSet-put_values rows rs h.1)
  AllSet-put_values [] (r ∷ rs) h = absurd h
  AllSet-put_values (row ∷ rows) [] h = absurd h

  transform_setting-rejected :
      (row : Row) (r : CommandResult) (code : HttpStatus)
      → transform_setting svc row r ≡ done (rejected code)
      → code ≡ bad_request
  unfolding transform_setting
  transform_setting-rejected row r code h = elim (Bool-cases svc.data_transform) [
    | inr n ↦ ground (arith, n, h)
    | inl t ↦
        let go : (incoming svc.long_double r row.pval row.map >>= λ (good, r').
        done (if good then setting r' else rejected bad_request))
            ≡ done (rejected code) =
          ground (arith, t, h) in
        let (p, e, h₁) = >>=-eq-done (incoming svc.long_double r row.pval row.map) _ go in
        elim (Bool-cases p.0) [ inl g ↦ ground (arith, g, h₁) | inr g ↦ ground (arith, g, h₁) ]
  ]

  row_setting-rejected :
      (row : Row) (code : HttpStatus)
      → row_setting svc object row ≡ done (rejected code)
      → (code ≡ bad_request) ⊎ (code ≡ method_not_allowed)
  unfolding row_setting parse_setting
  row_setting-rejected row code h = elim (Bool-cases row.pval.writable) [
    | inr n ↦ ground (arith, n, h)
    | inl w ↦ elim (Option-cases (object row.req.resname)) [
      | inl n ↦ ground (arith, w, n, h)
      | inr (s, e) ↦
          let parsed : (populate_value svc.float_text row.pval.type s >>= λ v. elim v [
            | none ↦ done (rejected bad_request)
            | some v' ↦ transform_setting svc row (fresh v')
          ])
              ≡ done (rejected code) =
            ground (arith, w, e, h) in
          let (o, p, h₁) = >>=-eq-done (populate_value svc.float_text row.pval.type s) _ parsed in
          elim (Option-cases o) [
            | inl n ↦ ground (arith, n, h₁)
            | inr (v, q) ↦
                inl (transform_setting-rejected row (fresh v) code (ground (arith, q, h₁)))
          ]
    ]
  ]

  pub put_values-refused :
      (rows : List Row) (code : HttpStatus)
      → put_values svc object rows ≡ done (refused code)
      → (code ≡ bad_request) ⊎ (code ≡ method_not_allowed)
  unfolding put_values
  put_values-refused [] code h = cc
  put_values-refused (row ∷ rows) code h =
      let (first, e, h₁) = >>=-eq-done (row_setting svc object row) _ h in
      elim (RowResult-cases first) [
        | inl (c, n) ↦
            let same_code : c ≡ code = ground (arith, n, h₁) in
            row_setting-rejected row code (e ∙ ap done (n ∙ ap rejected same_code))
        | inr (r, o) ↦
            let go : (put_values svc object rows >>= λ rest. elim rest [
              | refused code ↦ done (refused code)
              | accepted rs' ↦ done (accepted (r ∷ rs'))
            ])
                ≡ done (refused code) =
              ground (arith, o, h₁) in
            let (rest, k, h₂) = >>=-eq-done (put_values svc object rows) _ go in
            elim (Settings-cases rest) [
              | inl (c, n) ↦
                  let same_code : c ≡ code = ground (arith, n, h₂) in
                  put_values-refused rows code (k ∙ ap done (n ∙ ap refused same_code))
              | inr (rs, n) ↦ ground (arith, n, h₂)
            ]
      ]
