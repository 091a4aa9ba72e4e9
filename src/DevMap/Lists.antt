-- ===== src/DevMap/Lists.antt =====
-- String maps as association lists: the interface can be filled.
use device_service_zigbee.Prelude.{
  ◌≡◌, ◌≢◌, refl, Option, none, some, List, [], ◌∷◌, map, Bytes, arith, str_eq, str_eq_iff,
  if◌then◌else◌,
}
use device_service_zigbee.DevMap.Maps.{StringMap}

module _ {V : Type 0} where
  abbrev get : List (Bytes × V) → Bytes → Option V
  get [] k = none
  get ((j, v) ∷ m) k = let rest = get m k in if str_eq k j then some v else rest

  abbrev remove : List (Bytes × V) → Bytes → List (Bytes × V)
  remove [] k = []
  remove ((j, v) ∷ m) k = let rest = remove m k in if str_eq k j then rest else (j, v) ∷ rest

  pub get-remove_self : (m : List (Bytes × V)) (k : Bytes) → get (remove m k) k ≡ none
  get-remove_self [] k = refl
  get-remove_self ((j, v) ∷ m) k = ground (arith, get-remove_self m k)

  pub get-remove_ne : (m : List (Bytes × V)) (j k : Bytes) → j ≢ k → get (remove m k) j ≡ get m j
  get-remove_ne [] j k h = refl
  get-remove_ne ((i, v) ∷ m) j k h =
      ground (arith, get-remove_ne m j k h, str_eq_iff j i, str_eq_iff k i)

  abbrev pub set : List (Bytes × V) → Bytes → V → List (Bytes × V)
  set m k v = (k, v) ∷ remove m k

  pub get-set_self : (m : List (Bytes × V)) (k : Bytes) (v : V) → get (set m k v) k ≡ some v
  get-set_self m k v = ground (arith, str_eq_iff k k)

  pub get-set_ne :
      (m : List (Bytes × V)) (j k : Bytes) (v : V) → j ≢ k → get (set m k v) j ≡ get m j
  get-set_ne m j k v h = ground (arith, str_eq_iff j k, get-remove_ne m j k h)

abbrev pub pairs : (V : Type 0) → StringMap V
pairs V = record {
  Map = List (Bytes × V);
  empty = [];
  get = get;
  set = set;
  remove = remove;
  values = map (λ (p : Bytes × V). p.1);
  get-empty = λ k. refl;
  get-set_self = get-set_self;
  get-set_ne = get-set_ne;
  get-remove_self = get-remove_self;
  get-remove_ne = get-remove_ne;
}
