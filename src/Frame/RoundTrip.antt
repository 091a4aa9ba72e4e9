-- ===== src/Frame/RoundTrip.antt =====
-- The frames that a device is to send, read back by structString.h.
use device_service_zigbee.Prelude.{
  ℕ, ◌+◌, ◌^◌, ◌<◌, ◌≡◌, refl, sym, ap, take, ◌∙◌, true, false, Option, some, List, [], ◌∷◌, ◌++◌,
  arith, Bytes, codes, length, Lacks, All, drop, append-nil,
}
use device_service_zigbee.Prelude.Outcome.{done}
use device_service_zigbee.Prelude.Decimal.{IsDigit, decimal, decimal-IsDigit, atoi-decimal}
use device_service_zigbee.Frame.{
  hash, strstr, fields, rounds, SensorEvent, take_value, take_event, RepDiscovery, take_discovery,
}
use device_service_zigbee.Frame.Search.{
  closed, fields-closed, value_word, ends_in, take_string_field, strstr_field, strstr_word,
  FoundBefore, drop_past,
}

-- a field that the search for "value#" passes over
abbrev pub IsField : Bytes → Type 0
IsField f = Lacks hash f × (ends_in value_word f ≡ false)

Lacks-of_digits : (f : Bytes) → All IsDigit f → Lacks hash f
Lacks-of_digits [] h = tt
Lacks-of_digits (c ∷ f) h = (omega arith, Lacks-of_digits f h.1)

digits-ends_in : (f : Bytes) → All IsDigit f → ends_in value_word f ≡ false
digits-ends_in [] h = refl
digits-ends_in (c ∷ f) h = ground (arith, digits-ends_in f h.1)

decimal-IsField : (n : ℕ) → IsField (decimal n)
decimal-IsField n = (Lacks-of_digits _ (decimal-IsDigit n), digits-ends_in _ (decimal-IsDigit n))

word : Lacks hash value_word
word = omega arith

-- the text "name#origin#command#size#value#v₁#…#vₙ#"
abbrev pub event_frame : SensorEvent → List Bytes → Bytes
event_frame ev vs =
    ev.name
    ++ hash
      ∷ (decimal ev.origin
          ++ hash
            ∷ (ev.command_device
                ++ hash ∷ (decimal ev.size ++ hash ∷ (codes "value#" ++ closed vs))))

strstr_start : (r : Bytes) → strstr (codes "value#" ++ r) (value_word ++ hash ∷ []) ≡ some 0
unfolding strstr
strstr_start r = refl

abbrev behind : List Bytes → Bytes → Bytes
behind [] r = r
behind (f ∷ fs) r = f ++ hash ∷ behind fs r

strstr_fields :
    (fs : List Bytes) (r : Bytes)
    → All IsField fs
    → FoundBefore value_word (behind fs (codes "value#" ++ r)) r
strstr_fields [] r h = (0, strstr_start r, refl)
strstr_fields (f ∷ fs) r h =
    let (n, found, rest) = strstr_fields fs r h.1 in
    (
      length f + 1 + n,
      strstr_field value_word f _ n word h.0.0 h.0.1 found,
      ap (λ k. drop k (f ++ hash ∷ behind fs (codes "value#" ++ r))) {y = length f + 1 + (n + 6)}
            (omega arith)
          ∙ drop_past f _ (n + 6)
          ∙ rest,
    )

value_cells :
    (str r : Bytes) (n : ℕ) (vs : List Bytes)
    → FoundBefore value_word str r
    → n < 2 ^ 31
    → fields n r ≡ done vs
    → take_value str n ≡ done (some vs)
unfolding take_value rounds
value_cells str r n vs (k, found, rest) small e = ground (arith, found, rest, e)

-- what `takeEvent` makes of a header and of what it finds behind "value#"
header :
    (ev : SensorEvent) (r : Bytes) (o : Option (List Bytes))
    → Lacks hash ev.name
    → Lacks hash ev.command_device
    → ev.origin < 2 ^ 31
    → ev.size < 2 ^ 31
    → take_value
        (behind (ev.name ∷ decimal ev.origin ∷ ev.command_device ∷ decimal ev.size ∷ []) r)
        ev.size
      ≡ done o
    → take_event (behind (ev.name ∷ decimal ev.origin ∷ ev.command_device ∷ decimal ev.size ∷ []) r)
      ≡ done (record ev { value = o })
unfolding take_event
header ev r o hn hc ho hs e =
    let r₃ = behind (decimal ev.size ∷ []) r in
    let r₂ = behind (ev.command_device ∷ decimal ev.size ∷ []) r in
    let r₁ = behind (decimal ev.origin ∷ ev.command_device ∷ decimal ev.size ∷ []) r in
    ground (
      arith,
      take_string_field ev.name r₁ hn,
      take_string_field (decimal ev.origin) r₂ (decimal-IsField ev.origin).0,
      take_string_field ev.command_device r₃ hc,
      take_string_field (decimal ev.size) r (decimal-IsField ev.size).0,
      atoi-decimal ev.origin ho,
      atoi-decimal ev.size hs,
      e,
    )

event_frame_lem :
    (ev : SensorEvent) (vs : List Bytes)
    → event_frame ev vs
      ≡ behind
          (ev.name ∷ decimal ev.origin ∷ ev.command_device ∷ decimal ev.size ∷ [])
          (codes "value#" ++ closed vs)
event_frame_lem ev vs = refl

take-length {ℓ} : {A : Type ℓ} (xs : List A) → take (length xs) xs ≡ xs
take-length [] = refl
take-length (x ∷ xs) = ap (◌∷◌ x) (take-length xs)

fields-All : (vs : List Bytes) → All (Lacks hash) vs → fields (length vs) (closed vs) ≡ done vs
fields-All vs h =
    ap (fields (length vs)) (sym (append-nil (closed vs)))
    ∙ fields-closed (length vs) vs [] h (omega arith)
    ∙ ap done (take-length vs)

-- `takeEvent` reads back every event whose origin and number of values are below 2 ^ 31, whose
-- texts have no '#', and whose device and command names do not end in "value".
pub take_event-event_frame :
    (ev : SensorEvent) (vs : List Bytes)
    → IsField ev.name
    → IsField ev.command_device
    → All (Lacks hash) vs
    → ev.origin < 2 ^ 31
    → ev.size < 2 ^ 31
    → ev.size ≡ length vs
    → ev.value ≡ some vs
    → take_event (event_frame ev vs) ≡ done ev
take_event-event_frame ev vs hn hc hv ho hs n v =
    let fs = ev.name ∷ decimal ev.origin ∷ ev.command_device ∷ decimal ev.size ∷ [] in
    let found =
      strstr_fields fs (closed vs)
        (hn, (decimal-IsField ev.origin, (hc, (decimal-IsField ev.size, tt)))) in
    let values =
      value_cells (event_frame ev vs) (closed vs) ev.size vs found hs (rw n (fields-All vs hv)) in
    header ev (codes "value#" ++ closed vs) (some vs) hn.0 hc.0 ho hs values
    ∙ ap done (λ i. record ev { value = sym v i })

-- Where the name of the device ends in "value", `takeEvent` takes what follows the name for the
-- values: the first is the origin, the second the command, the third the number of values, the
-- fourth the word "value", and only then come the values of the frame.
pub take_event_misread :
    (ev : SensorEvent) (vs : List Bytes)
    → Lacks hash ev.name
    → ends_in value_word ev.name ≡ true
    → Lacks hash ev.command_device
    → All (Lacks hash) vs
    → ev.origin < 2 ^ 31
    → ev.size < 2 ^ 31
    → ev.size ≡ length vs
    → take_event (event_frame ev vs)
      ≡ done (record ev {
        value = some (
            take ev.size
              (decimal ev.origin ∷ ev.command_device ∷ decimal ev.size ∷ value_word ∷ vs));
      })
take_event_misread ev vs hn ends hc hv ho hs n =
    let cells = decimal ev.origin ∷ ev.command_device ∷ decimal ev.size ∷ value_word ∷ vs in
    let found = strstr_word value_word ev.name (closed cells) word hn ends in
    let digits = (decimal-IsField ev.origin).0 in
    let count = (decimal-IsField ev.size).0 in
    let all : All (Lacks hash) cells = (digits, (hc, (count, (word, hv)))) in
    let read = fields-closed ev.size cells [] all (omega (arith, n)) in
    let read' : fields ev.size (closed cells) ≡ done (take ev.size cells) = rw append-nil at read in
    header ev (codes "value#" ++ closed vs) _ hn hc ho hs
      (value_cells (event_frame ev vs) (closed cells) ev.size _ found hs read')

-- `takeDiscovery` reads back the four texts of a discovery reply, whatever follows them.
pub take_discovery_frame :
    (d : RepDiscovery) (r : Bytes)
    → All (Lacks hash) (d.devname ∷ d.mac ∷ d.profile ∷ d.model ∷ [])
    → take_discovery (behind (d.devname ∷ d.mac ∷ d.profile ∷ d.model ∷ []) r) ≡ done d
unfolding take_discovery
take_discovery_frame d r h = ground (
  arith,
  take_string_field d.devname (behind (d.mac ∷ d.profile ∷ d.model ∷ []) r) h.0,
  take_string_field d.mac (behind (d.profile ∷ d.model ∷ []) r) h.1.0,
  take_string_field d.profile (behind (d.model ∷ []) r) h.1.1.0,
  take_string_field d.model r h.1.1.1.0,
)
