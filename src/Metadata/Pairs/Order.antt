-- ===== src/Metadata/Pairs/Order.antt =====
-- What is read of lists that were written: the same strings, and names with values back to front.
use device_service_zigbee.Prelude.{
  ◌≡◌, ◌≢◌, refl, sym, ap, ◌∙◌, Option, none, some, List, [], ◌∷◌, ◌++◌, append-nil, append_assoc,
  Bytes, arith, All,
}
use mathlib.Core.List.{reverse, reverse_aux}
use device_service_zigbee.Prelude.Outcome.{done}
use device_service_zigbee.Transform.{NvPairs}
use device_service_zigbee.Metadata.Json.{Json, IsText, make, set_all}
use device_service_zigbee.Metadata.Pairs.{
  array_to_strings, strings_to_array, pair_fields, nvpairs_write, nvpairs_read, read_pairs,
}

-- no name occurs twice
abbrev pub DistinctNames : {A : Type 0} → List (Bytes × A) → Type 0
DistinctNames [] = Unit
DistinctNames (p ∷ ps) = All (λ q. q.0 ≢ p.0) ps × DistinctNames ps

module _ (j : Json) where
  pub array_to_strings-strings_to_array :
      (ss : List Bytes) → All (IsText j) ss → array_to_strings j (strings_to_array j ss) ≡ ss
  unfolding array_to_strings strings_to_array
  array_to_strings-strings_to_array [] h = refl
  array_to_strings-strings_to_array (s ∷ ss) h =
      ground (arith, h.0, j.as_string-string s, array_to_strings-strings_to_array ss h.1)

  abbrev pub present : List (Bytes × j.Value) → List (Bytes × Option j.Value)
  present [] = []
  present ((k, v) ∷ vs) = (k, some v) ∷ present vs

  abbrev IsNew : j.Object → List (Bytes × j.Value) → Type 0
  IsNew o vs = All (λ p. j.get o p.0 ≡ none) vs

  IsNew-set :
      (o : j.Object) (k : Bytes) (v : j.Value) (vs : List (Bytes × j.Value))
      → IsNew o vs
      → All (λ q. q.0 ≢ k) vs
      → IsNew (j.set o k v) vs
  IsNew-set o k v [] h d = tt
  IsNew-set o k v (p ∷ vs) h d = (j.get-set_ne o p.0 k v d.0 ∙ h.0, IsNew-set o k v vs h.1 d.1)

  members-set_all :
      (o : j.Object) (vs : List (Bytes × j.Value))
      → IsNew o vs
      → DistinctNames vs
      → j.members (set_all j o (present vs)) ≡ j.members o ++ vs
  members-set_all o [] h d = sym (append-nil (j.members o))
  members-set_all o ((k, v) ∷ vs) h d =
      members-set_all (j.set o k v) vs (IsNew-set o k v vs h.1 d.0) d.1
      ∙ ap (λ ms. ms ++ vs) (j.members-set_new o k v h.0)
      ∙ append_assoc (j.members o) ((k, v) ∷ []) vs

  IsNew-empty : (vs : List (Bytes × j.Value)) → IsNew j.empty vs
  IsNew-empty [] = tt
  IsNew-empty (p ∷ vs) = (j.get-empty p.0, IsNew-empty vs)

  pub members-make :
      (vs : List (Bytes × j.Value)) → DistinctNames vs → j.members (make j (present vs)) ≡ vs
  members-make vs d =
      members-set_all j.empty vs (IsNew-empty vs) d ∙ ap (λ ms. ms ++ vs) j.members-empty

  abbrev strings : NvPairs → List (Bytes × j.Value)
  strings [] = []
  strings ((k, s) ∷ ps) = (k, j.string s) ∷ strings ps

  strings-apart :
      (k : Bytes) (ps : NvPairs) → All (λ q. q.0 ≢ k) ps → All (λ q. q.0 ≢ k) (strings ps)
  strings-apart k [] d = tt
  strings-apart k (p ∷ ps) d = (d.0, strings-apart k ps d.1)

  strings-DistinctNames : (ps : NvPairs) → DistinctNames ps → DistinctNames (strings ps)
  strings-DistinctNames [] d = tt
  strings-DistinctNames (p ∷ ps) d = (strings-apart p.0 ps d.0, strings-DistinctNames ps d.1)

  pair_fields-present :
      (ps : NvPairs) → All (λ p. IsText j p.1) ps → pair_fields j ps ≡ present (strings ps)
  pair_fields-present [] t = refl
  pair_fields-present ((k, s) ∷ ps) t = ground (arith, t.0, pair_fields-present ps t.1)

  read_pairs-strings :
      (ps acc : NvPairs) → read_pairs j (strings ps) acc ≡ done (reverse_aux ps acc)
  unfolding read_pairs
  read_pairs-strings [] acc = refl
  read_pairs-strings ((k, s) ∷ ps) acc =
      ground (arith, j.as_string-string s, read_pairs-strings ps ((k, s) ∷ acc))

  -- pairs that JSON can hold
  abbrev pub IsPairs : NvPairs → Type 0
  IsPairs ps = DistinctNames ps × All (λ p. IsText j p.1) ps

  pub nvpairs_read-nvpairs_write :
      (ps : NvPairs) → IsPairs ps → nvpairs_read j (some (nvpairs_write j ps)) ≡ done (reverse ps)
  nvpairs_read-nvpairs_write ps h =
      let held : j.members (nvpairs_write j ps) ≡ strings ps =
        ap (λ fields. j.members (make j fields)) (pair_fields-present ps h.1)
        ∙ members-make (strings ps) (strings-DistinctNames ps h.0) in
      ap (λ ms. read_pairs j ms []) held ∙ read_pairs-strings ps []
