-- ===== src/DevMap/Maps.antt =====
-- The string maps of device-sdk-c/src/c/map.c as their clients see them.
use device_service_zigbee.Prelude.{◌≡◌, ◌≢◌, Option, none, some, List, Bytes}

pub record StringMap (V : Type 0) : Type 1 where
  pub Map : Type 0
  pub empty : Map
  pub get : Map → Bytes → Option V
  pub set : Map → Bytes → V → Map
  pub remove : Map → Bytes → Map
  -- the values, in the order in which `edgex_map_next` gives their keys
  pub values : Map → List V
  pub get-empty : (k : Bytes) → get empty k ≡ none
  pub get-set_self : (m : Map) (k : Bytes) (v : V) → get (set m k v) k ≡ some v
  pub get-set_ne : (m : Map) (j k : Bytes) (v : V) → j ≢ k → get (set m k v) j ≡ get m j
  pub get-remove_self : (m : Map) (k : Bytes) → get (remove m k) k ≡ none
  pub get-remove_ne : (m : Map) (j k : Bytes) → j ≢ k → get (remove m k) j ≡ get m j
