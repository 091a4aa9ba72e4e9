-- ===== src/Metadata/Trees.antt =====
-- JSON as trees, and numbers as `scanf` reads them: the interfaces can be filled.
use device_service_zigbee.Prelude.{
  ℕ, ◌≡◌, refl, ap, ◌≢◌, Bool, Option, none, some, List, [], ◌∷◌, ◌++◌, Bytes, arith, str_eq,
  str_eq_iff, if◌then◌else◌,
}
use device_service_zigbee.Prelude.Int.{ℤ}
use device_service_zigbee.Prelude.Outcome.{Outcome, done, fault}
use device_service_zigbee.Value.Scan.{scan_signed}
use device_service_zigbee.Value.Scan.Numbers.{scan_signed-decimal}
use device_service_zigbee.Metadata.Json.{Json, is_ascii}
use device_service_zigbee.Metadata.Arguments.{NumberText}
use device_service_zigbee.Metadata.Arguments.RoundTrip.{ReadsLong}

-- arrays and objects are chains of their items and members
pub data Tree : Type 0 where
  text : Bytes → Tree
  count : ℕ → Tree
  flag : Bool → Tree
  no_items no_members : Tree
  item : Tree → Tree → Tree
  member : Bytes → Tree → Tree → Tree

abbrev pub Members : Type 0
Members = List (Bytes × Tree)

abbrev pub array : List Tree → Tree
array [] = no_items
array (v ∷ vs) = item v (array vs)

abbrev pub object : Members → Tree
object [] = no_members
object ((k, v) ∷ o) = member k v (object o)

abbrev pub as_string : Tree → Option Bytes
as_string (text s) = some s
as_string _ = none

abbrev pub as_number : Tree → Option ℕ
as_number (count n) = some n
as_number _ = none

abbrev pub as_boolean : Tree → Option Bool
as_boolean (flag b) = some b
as_boolean _ = none

abbrev behind : {A : Type 0} → A → Option (List A) → Option (List A)
behind x none = none
behind x (some xs) = some (x ∷ xs)

abbrev pub as_array : Tree → Option (List Tree)
as_array no_items = some []
as_array (item v t) = behind v (as_array t)
as_array _ = none

abbrev pub as_object : Tree → Option Members
as_object no_members = some []
as_object (member k v t) = behind (k, v) (as_object t)
as_object _ = none

pub as_array-array : (vs : List Tree) → as_array (array vs) ≡ some vs
as_array-array [] = refl
as_array-array (v ∷ vs) = ap (behind v) (as_array-array vs)

pub as_object-object : (o : Members) → as_object (object o) ≡ some o
as_object-object [] = refl
as_object-object ((k, v) ∷ o) = ap (behind (k, v)) (as_object-object o)

abbrev pub get : Members → Bytes → Option Tree
get [] k = none
get ((i, v) ∷ o) k = let rest = get o k in if str_eq k i then some v else rest

abbrev pub set : Members → Bytes → Tree → Members
set [] k v = (k, v) ∷ []
set ((i, w) ∷ o) k v = let rest = set o k v in if str_eq k i then (i, v) ∷ o else (i, w) ∷ rest

pub get-set_self : (o : Members) (k : Bytes) (v : Tree) → get (set o k v) k ≡ some v
get-set_self [] k v = ground (arith, str_eq_iff k k)
get-set_self ((i, w) ∷ o) k v = ground (arith, get-set_self o k v)

pub get-set_ne : (o : Members) (j k : Bytes) (v : Tree) → j ≢ k → get (set o k v) j ≡ get o j
get-set_ne [] j k v h = ground (arith, h, str_eq_iff j k)
get-set_ne ((i, w) ∷ o) j k v h =
    ground (arith, h, get-set_ne o j k v h, str_eq_iff j i, str_eq_iff k i)

pub members-set_new :
    (o : Members) (k : Bytes) (v : Tree) → get o k ≡ none → set o k v ≡ o ++ (k, v) ∷ []
members-set_new [] k v h = refl
members-set_new ((i, w) ∷ o) k v h = ground (arith, h, members-set_new o k v)

abbrev pub trees : Json
trees = record {
  Value = Tree;
  Object = Members;
  is_text = is_ascii;
  string = text;
  number = count;
  boolean = flag;
  array = array;
  object = object;
  as_string = as_string;
  as_number = as_number;
  as_boolean = as_boolean;
  as_array = as_array;
  as_object = as_object;
  empty = [];
  set = set;
  get = get;
  members = λ o. o;
  is_text-is_ascii = λ s h. h;
  as_string-string = λ s. refl;
  as_number-number = λ n h. refl;
  as_boolean-boolean = λ b. refl;
  as_array-array = as_array-array;
  as_object-object = as_object-object;
  get-empty = λ k. refl;
  get-set_self = get-set_self;
  get-set_ne = get-set_ne;
  members-empty = refl;
  members-set_new = members-set_new;
}

abbrev read_long : Outcome (Option ℤ) → Option ℤ
read_long (fault e) = none
read_long (done r) = r

abbrev pub number_text : NumberText
number_text = record {
  strtol = λ s. read_long (scan_signed 64 s);
  strtod = λ s. some s;
  print_double = λ d. d;
}

pub number_text-ReadsLong : ReadsLong number_text
number_text-ReadsLong z h = ap read_long (scan_signed-decimal 64 z h)
