-- ===== src/Frame/Faults.antt =====
-- Frames on which structString.h reads or computes with a bad pointer.
use device_service_zigbee.Prelude.{
  ℕ, zero, suc, ◌+◌, ◌^◌, ◌<◌, ◌≡◌, ◌≢◌, ◌↔◌, ◌⊎◌, refl, sym, codes, inl, inr, Option, none, some,
  List, [], ◌∷◌, arith, Bytes, ◌==◌, if◌then◌else◌, length, drop, take, Option-cases, Bool-cases,
}
use device_service_zigbee.Prelude.Outcome.{
  Outcome, done, fault, Fault, bad_pointer, ◌>>=◌, >>=-eq-done,
}
use device_service_zigbee.Prelude.Decimal.{atoi}
use device_service_zigbee.Frame.{
  hash, strstr, take_string, until_hash, fields, rounds, SensorEvent, take_value, take_event,
  free_event,
}

-- how many fields a text closes
abbrev pub count_hash : Bytes → ℕ
count_hash [] = 0
count_hash (c ∷ s) = (if c == hash then 1 else 0) + count_hash s

abbrev pub Faults {ℓ} : {A : Type ℓ} → Outcome A → Type ℓ
Faults o = (e : Fault) × (o ≡ fault e)

abbrev Found : Bytes → Type 0
Found s =
    (n : ℕ) × (strstr s (hash ∷ []) ≡ some n) × (count_hash (drop (n + 1) s) + 1 ≡ count_hash s)

strstr_cases : (s : Bytes) → ((strstr s (hash ∷ []) ≡ none) × (count_hash s ≡ 0)) ⊎ Found s
unfolding strstr
strstr_cases [] = inl (refl, refl)
strstr_cases (c ∷ s) = elim (Bool-cases (c == hash)) [
  | inl here ↦ inr (0, ground (arith, here), ground (arith, here))
  | inr other ↦ elim (strstr_cases s) [
    | inl (e, z) ↦ inl (ground (arith, other, e), ground (arith, other, z))
    | inr (n, e, k) ↦
        let next : suc n + 1 ≡ suc (n + 1) = omega arith in
        inr (suc n, ground (arith, other, e), rw next (ground (arith, other, k)))
  ]
]

abbrev Taken : Bytes → Type 0
Taken s = (p : Bytes × Bytes) × (take_string s ≡ done p) × (count_hash p.1 + 1 ≡ count_hash s)

take_string_cases : (s : Bytes) → (take_string s ≡ fault bad_pointer) ⊎ Taken s
unfolding take_string
take_string_cases s = elim (strstr_cases s) [
  | inl (e, z) ↦ inl (ground (arith, e))
  | inr (n, e, k) ↦ inr ((take n s, drop (n + 1) s), ground (arith, e), k)
]

-- A chain that takes a field goes on with one '#' less, or ends in a fault.
Faults-of_take {ℓ} :
    {A : Type ℓ} (s : Bytes) (k : ℕ) (f : Bytes × Bytes → Outcome A)
    → count_hash s < suc k
    → ((p : Bytes × Bytes) → count_hash p.1 < k → Faults (f p))
    → Faults (take_string s >>= f)
Faults-of_take s k f h rest = elim (take_string_cases s) [
  | inl e ↦ (bad_pointer, rw e)
  | inr (p, e, n) ↦ rw e (rest p (omega arith))
]

Faults-of_atoi {ℓ κ} :
    {A : Type ℓ} {B : Type κ} (m : Outcome A) (f : A → Outcome B)
    → ((a : A) → Faults (f a))
    → Faults (m >>= f)
Faults-of_atoi (done a) f h = h a
Faults-of_atoi (fault e) f h = (e, refl)

-- A frame with less than four '#' makes `takeEvent` compute with NULL, unless a number in it has
-- already left the range of `int`: C gives no meaning to any run on it.
pub take_event_short : (str : Bytes) → count_hash str < 4 → Faults (take_event str)
unfolding take_event
take_event_short str h = Faults-of_take str 3 _ h λ a ha. Faults-of_take a.1 2 _ ha λ b hb.
    Faults-of_atoi (atoi b.0) _
      λ o. Faults-of_take b.1 1 _ hb λ c hc. Faults-of_take c.1 0 _ hc λ d hd. absurd (omega arith)

take_event_value :
    (str : Bytes) (ev : SensorEvent)
    → take_event str ≡ done ev
    → take_value str ev.size ≡ done ev.value
unfolding take_event
take_event_value str ev h = ground arith

until_hash-fields : (n : ℕ) (s : Bytes) (vs : List Bytes) → fields n s ≡ done vs → length vs ≡ n
unfolding fields
until_hash-fields zero s vs h = ground arith
until_hash-fields (suc n) s vs h =
    let (p, e, h₁) = >>=-eq-done (until_hash s) _ h in
    let (ws, e₁, h₂) = >>=-eq-done (fields n p.1) _ h₁ in
    ground (arith, until_hash-fields n p.1 ws e₁)

abbrev Cells : Option (List Bytes) → ℕ → Type 0
Cells o n = (o ≡ none) ⊎ ((vs : List Bytes) × (o ≡ some vs) × (length vs ≡ rounds n))

take_value-Cells :
    (str : Bytes) (n : ℕ) (o : Option (List Bytes)) → take_value str n ≡ done o → Cells o n
unfolding take_value
take_value-Cells str n o h = elim (Option-cases (strstr str (codes "value#"))) [
  | inl e ↦ inl (ground (arith, e))
  | inr (k, e) ↦
      let cells = fields (rounds n) (drop (k + 6) str) in
      let h' : (cells >>= λ vs. done (some vs)) ≡ done o = ground (arith, e) in
      let (vs, e₁, e₂) = >>=-eq-done cells (λ vs. done (some vs)) h' in
      inr (vs, sym (ground (arith, e₂)), until_hash-fields (rounds n) _ vs e₁)
]

free_event-Cells :
    (ev : SensorEvent)
    → Cells ev.value ev.size
    → (free_event ev ≡ done tt) ↔ ((ev.size ≡ 0) ⊎ ((ev.value ≢ none) × (ev.size < 2 ^ 31)))
unfolding free_event rounds
free_event-Cells ev (inl e) = (λ h. ground (arith, e), λ h. ground (arith, e))
free_event-Cells ev (inr (vs, e, n)) = (λ h. ground (arith, e, n), λ h. ground (arith, e, n))

-- `freeEvent` on what `takeEvent` made is defined exactly when the event has no values, or the
-- frame held "value#" and the number of values is below 2 ^ 31. In all other cases it reads cells
-- of an array that is not there.
pub free_event-take_event :
    (str : Bytes) (ev : SensorEvent)
    → take_event str ≡ done ev
    → (free_event ev ≡ done tt) ↔ ((ev.size ≡ 0) ⊎ ((ev.value ≢ none) × (ev.size < 2 ^ 31)))
free_event-take_event str ev h =
    free_event-Cells ev (take_value-Cells str ev.size ev.value (take_event_value str ev h))

-- An event whose array has as many texts as it says is freed.
pub free_event-filled :
    (ev : SensorEvent) (vs : List Bytes)
    → ev.value ≡ some vs
    → ev.size ≡ length vs
    → free_event ev ≡ done tt
unfolding free_event
free_event-filled ev vs v s = ground (arith, v, s)
