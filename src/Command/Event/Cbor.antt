-- ===== src/Command/Event/Cbor.antt =====
-- device-sdk-c/src/c/data.c: the CBOR map of a reading. The maps of the CBOR library are an interface; a
-- definite map is made for a number of pairs, and `cbor_map_add` refuses more than these.
use device_service_zigbee.Prelude.{
  ℕ, ◌≤◌, ◌<◌, ◌≡◌, refl, List, [], ◌∷◌, ◌++◌, Bytes, arith, length, ltb, if◌then◌else◌,
}
use device_service_zigbee.Command.Event.{ReadingValue, Reading}

-- "value" or "binaryValue", "name", and "origin"
pub data Pair : Type 0 where
  value_pair : ReadingValue → Pair
  name_pair : Bytes → Pair
  origin_pair : ℕ → Pair

pub record CborMaps : Type 1 where
  pub Map : Type 0
  -- `cbor_new_definite_map` and `cbor_map_add`
  pub made : ℕ → Map
  pub add : Map → Pair → Map
  pub size : Map → ℕ
  pub pairs : Map → List Pair
  pub size-made : (n : ℕ) → size (made n) ≡ n
  pub pairs-made : (n : ℕ) → pairs (made n) ≡ []
  pub size-add : (m : Map) (p : Pair) → size (add m p) ≡ size m
  pub pairs-add :
      (m : Map) (p : Pair) → length (pairs m) < size m → pairs (add m p) ≡ pairs m ++ p ∷ []
  pub pairs-add_full : (m : Map) (p : Pair) → size m ≤ length (pairs m) → pairs (add m p) ≡ pairs m

module _ (lib : CborMaps) where
  -- a round of the loop over CBOR readings, with the size that the map is made for
  abbrev pub reading_map : Reading → ℕ → lib.Map
  reading_map x n =
      lib.add (lib.add (lib.add (lib.made n) (value_pair x.value)) (name_pair x.name))
        (origin_pair x.origin)

  two_pairs :
      (x : Reading) (n : ℕ)
      → 2 ≤ n
      → lib.pairs (lib.add (lib.add (lib.made n) (value_pair x.value)) (name_pair x.name))
        ≡ value_pair x.value ∷ name_pair x.name ∷ []
  two_pairs x n h =
      let m₁ = lib.add (lib.made n) (value_pair x.value) in
      let p₀ = lib.pairs-made n in
      let s₀ = lib.size-made n in
      let p₁ : lib.pairs m₁ ≡ value_pair x.value ∷ [] =
        ground (
          arith,
          p₀,
          lib.pairs-add (lib.made n) (value_pair x.value) (ground (arith, p₀, s₀, h)),
        ) in
      let s₁ : lib.size m₁ ≡ n =
        ground (arith, s₀, lib.size-add (lib.made n) (value_pair x.value)) in
      ground (arith, p₁, lib.pairs-add m₁ (name_pair x.name) (ground (arith, p₁, s₁, h)))

  size_two :
      (x : Reading) (n : ℕ)
      → lib.size (lib.add (lib.add (lib.made n) (value_pair x.value)) (name_pair x.name)) ≡ n
  size_two x n =
      let m₁ = lib.add (lib.made n) (value_pair x.value) in
      ground (
        arith,
        lib.size-add m₁ (name_pair x.name),
        lib.size-add (lib.made n) (value_pair x.value),
        lib.size-made n,
      )

  -- A map that is made for two pairs has no time.
  pub pairs-reading_map_two :
      (x : Reading) → lib.pairs (reading_map x 2) ≡ value_pair x.value ∷ name_pair x.name ∷ []
  pairs-reading_map_two x =
      let m₂ = lib.add (lib.add (lib.made 2) (value_pair x.value)) (name_pair x.name) in
      let p₂ = two_pairs x 2 (omega arith) in
      let s₂ = size_two x 2 in
      ground (arith, p₂, lib.pairs-add_full m₂ (origin_pair x.origin) (ground (arith, p₂, s₂)))

  pub pairs-reading_map_three :
      (x : Reading)
      → lib.pairs (reading_map x 3)
        ≡ value_pair x.value ∷ name_pair x.name ∷ origin_pair x.origin ∷ []
  pairs-reading_map_three x =
      let m₂ = lib.add (lib.add (lib.made 3) (value_pair x.value)) (name_pair x.name) in
      let p₂ = two_pairs x 3 (omega arith) in
      let s₂ = size_two x 3 in
      ground (arith, p₂, lib.pairs-add m₂ (origin_pair x.origin) (ground (arith, p₂, s₂)))

-- maps as their sizes with their pairs: the interface can be filled
abbrev pub put : ℕ × List Pair → Pair → ℕ × List Pair
put (n, ps) p = (n, if ltb (length ps) n then ps ++ p ∷ [] else ps)

pub pairs-put : (m : ℕ × List Pair) (p : Pair) → length m.1 < m.0 → (put m p).1 ≡ m.1 ++ p ∷ []
pairs-put (n, ps) p h = ground (arith, h)

pub pairs-put_full : (m : ℕ × List Pair) (p : Pair) → m.0 ≤ length m.1 → (put m p).1 ≡ m.1
pairs-put_full (n, ps) p h = ground (arith, h)

abbrev pub sized_pairs : CborMaps
sized_pairs = record {
  Map = ℕ × List Pair;
  made = λ n. (n, []);
  add = put;
  size = λ m. m.0;
  pairs = λ m. m.1;
  size-made = λ n. refl;
  pairs-made = λ n. refl;
  size-add = λ m p. refl;
  pairs-add = pairs-put;
  pairs-add_full = pairs-put_full;
}
