-- ===== src/Command/Url/Routes.antt =====
-- The paths of requests, built and taken apart.
use device_service_zigbee.Prelude.{
  ℕ, ◌≡◌, ◌≢◌, refl, Bool, true, false, some, [], ◌∷◌, ◌++◌, Bytes, codes, Lacks, starts_with,
  arith,
}
use device_service_zigbee.Prelude.Outcome.{done}
use device_service_zigbee.Command.Url.{
  slash, to_all, to_one, split_path, route_one, skip_name, route,
}

-- a path: the text before the slash, and the text behind it
abbrev pub path : Bytes → Bytes → Bytes
path a b = a ++ (slash ∷ b)

split_path-path : (a b : Bytes) → Lacks slash a → split_path (path a b) ≡ some (a, b)
unfolding split_path
split_path-path [] b h = refl
split_path-path (c ∷ a) b h = ground (arith, split_path-path a b h.1, h.0)

route_one-path :
    (by_name : Bool) (a b : Bytes)
    → Lacks slash a
    → b ≢ []
    → route_one by_name (path a b) ≡ to_one by_name a b
unfolding route_one
route_one-path by_name a [] h n = absurd (n refl)
route_one-path by_name a (c ∷ b) h n = ground (arith, split_path-path a (c ∷ b) h)

-- A path name/NAME/COMMAND is routed to the device of that name.
pub route-by_name :
    (name cmd : Bytes)
    → Lacks slash name
    → cmd ≢ []
    → route (path (codes "name") (path name cmd)) ≡ done (to_one true name cmd)
unfolding route skip_name
route-by_name name cmd h n = ground (arith, route_one-path true name cmd h n)

-- Whatever the fifth character is, a path that starts with "name" is routed to a device by its name,
-- and the name is what follows the fifth character: an id that starts with "name" never counts as one.
pub route_misled :
    (c : ℕ) (id cmd : Bytes)
    → Lacks slash id
    → cmd ≢ []
    → route (codes "name" ++ (c ∷ path id cmd)) ≡ done (to_one true id cmd)
unfolding route skip_name
route_misled c id cmd h n = ground (arith, route_one-path true id cmd h n)

-- A path all/COMMAND is routed to all devices.
pub route-to_all : (cmd : Bytes) → cmd ≢ [] → route (path (codes "all") cmd) ≡ done (to_all cmd)
unfolding route
route-to_all [] n = absurd (n refl)
route-to_all (c ∷ cmd) n = refl

all_prefix :
    (id cmd : Bytes)
    → Lacks slash id
    → id ≢ codes "all"
    → starts_with (codes "all/") (path id cmd) ≡ false
all_prefix [] cmd h a = refl
all_prefix (w ∷ []) cmd h a = ground arith
all_prefix (w ∷ x ∷ []) cmd h a = ground arith
all_prefix (w ∷ x ∷ y ∷ []) cmd h a = ground arith
all_prefix (w ∷ x ∷ y ∷ z ∷ id) cmd h a = ground arith

name_prefix :
    (id cmd : Bytes)
    → starts_with (codes "name") id ≡ false
    → starts_with (codes "name") (path id cmd) ≡ false
name_prefix [] cmd b = refl
name_prefix (w ∷ []) cmd b = ground arith
name_prefix (w ∷ x ∷ []) cmd b = ground arith
name_prefix (w ∷ x ∷ y ∷ []) cmd b = ground arith
name_prefix (w ∷ x ∷ y ∷ z ∷ id) cmd b = ground arith

-- A path ID/COMMAND is routed to the device of that id, unless the id is "all" or starts with "name".
pub route-by_id :
    (id cmd : Bytes)
    → Lacks slash id
    → cmd ≢ []
    → id ≢ codes "all"
    → starts_with (codes "name") id ≡ false
    → route (path id cmd) ≡ done (to_one false id cmd)
unfolding route
route-by_id [] cmd h n a b = ground (arith, route_one-path false [] cmd h n)
route-by_id (c ∷ id) cmd h n a b = ground (
  arith,
  route_one-path false (c ∷ id) cmd h n,
  all_prefix (c ∷ id) cmd h a,
  name_prefix (c ∷ id) cmd b,
)

-- For an ID or NAME without a slash, that neither is "all" nor starts with "name", and a command: the
-- paths name/NAME/COMMAND, ID/COMMAND and all/COMMAND are routed to the device of the name, to the
-- device of the id, and to all devices.
pub route-path :
    (id cmd : Bytes)
    → Lacks slash id
    → cmd ≢ []
    → id ≢ codes "all"
    → starts_with (codes "name") id ≡ false
    → (route (path (codes "name") (path id cmd)) ≡ done (to_one true id cmd))
      × (route (path id cmd) ≡ done (to_one false id cmd))
      × (route (path (codes "all") cmd) ≡ done (to_all cmd))
route-path id cmd h n a b =
    (route-by_name id cmd h n, route-by_id id cmd h n a b, route-to_all cmd n)
