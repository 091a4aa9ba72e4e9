-- ===== src/Transform/Tests.antt =====
-- transform.c on concrete inputs.
use device_service_zigbee.Prelude.{
  ◌≡◌, ◌⊎◌, inl, inr, ◌^◌, refl, true, false, some, none, [], ◌∷◌, codes, arith,
}
use device_service_zigbee.Prelude.Int.{ℤ, pos, negsuc, ◌+ℤ◌}
use device_service_zigbee.Prelude.Outcome.{done, fault, bad_arithmetic}
use device_service_zigbee.Value.{w16, w64, PropertyType, uint, int, Value, uint_result, int_result}
use device_service_zigbee.Value.Equal.{CommandResult}
use device_service_zigbee.Transform.{
  TransformArg, PropertyValue, NvPairs, LongDouble, overflow, get_int, outgoing, incoming,
}
use device_service_zigbee.Transform.Arith.{mul, mul64, add64}
use device_service_zigbee.Transform.Integers.{InRange, Holds}
use device_service_zigbee.Transform.Order.{Computes, outgoing-Computes}
use device_service_zigbee.Transform.Undo.{IsReversible, incoming-outgoing}
use device_service_zigbee.Transform.Mappings.{outgoing_large}

-- numbers without a fraction would do for these tests, which use no float
abbrev no_floats : LongDouble
no_floats = record {
  of_float = λ b. b;
  of_double = λ b. b;
  of_int = λ z. [];
  to_float = λ b. some b;
  to_double = λ b. some b;
  to_int = λ b. fault bad_arithmetic;
  round = λ b. fault bad_arithmetic;
  pow = λ a b. a;
  log = λ a. a;
  add = λ a b. a;
  sub = λ a b. a;
  mul = λ a b. a;
  div = λ a b. a;
}

abbrev off : TransformArg
off = record { enabled = false; ival = pos 0; dval = [] }

abbrev on : ℤ → TransformArg
on z = record { enabled = true; ival = z; dval = [] }

abbrev plain : PropertyType → PropertyValue
plain t = record {
  type = t;
  readable = true;
  writable = true;
  mask = off;
  shift = off;
  scale = off;
  offset = off;
  base = off;
  assertion = none;
  float_as_binary = false;
}

-- tenths of a degree above -40 in sixteen bits
abbrev degrees : PropertyValue
degrees = record (plain (int w16)) { scale = on (pos 10); offset = on (negsuc 399) }

abbrev reading : Value → CommandResult
reading v = record { origin = 5; value = v }

outgoing-degrees :
    outgoing no_floats (reading (int_result w16 (pos 62))) degrees []
    ≡ done (reading (int_result w16 (pos 220)))
unfolding outgoing mul64 add64
outgoing-degrees = refl

degrees-Computes : Computes no_floats degrees (pos 62) (pos 220)
unfolding mul ◌+ℤ◌
degrees-Computes = record {
  masked = pos 62;
  shifted = pos 62;
  raised = pos 62;
  scaled = pos 620;
  mask = inr (refl, refl);
  shift = inr (refl, refl);
  base = inr (refl, refl);
  scale = inl (refl, (refl, omega arith));
  offset = inl (refl, (refl, omega arith));
}

outgoing-Computes_example :
    ((outgoing no_floats (reading (int_result w16 (pos 62))) degrees [] ≡ done (reading overflow))
      × ¬ InRange (int w16) (pos 220))
    ⊎ ((v : Value) × (outgoing no_floats (reading (int_result w16 (pos 62))) degrees []
          ≡ done (reading v))
        × InRange (int w16) (pos 220)
        × Holds (int w16) v (pos 220))
unfolding get_int mul ◌+ℤ◌
outgoing-Computes_example =
    outgoing-Computes no_floats (reading (int_result w16 (pos 62))) degrees [] (pos 62) (pos 220) tt
      refl refl degrees-Computes (omega arith)

degrees-IsReversible : IsReversible degrees
degrees-IsReversible = record { no_mask = refl; no_base = refl; shift = λ e. cc; scale = λ e. refl }

incoming-outgoing_example :
    incoming no_floats (reading (int_result w16 (pos 220))) degrees []
    ≡ done (true, reading (int_result w16 (pos 62)))
unfolding get_int
incoming-outgoing_example =
    incoming-outgoing no_floats degrees degrees-IsReversible (reading (int_result w16 (pos 62)))
      (reading (int_result w16 (pos 220))) [] [] (pos 62) tt (refl, omega arith, refl) (omega arith)
      (omega arith) outgoing-degrees (λ e. cc)

abbrev names : NvPairs
names = (codes "0", codes "off") ∷ (codes "1", codes "on") ∷ (codes "1", codes "ON") ∷ []

outgoing_large_example :
    outgoing no_floats
      (reading (uint_result w64 (2 ^ 63)))
      (record (plain (uint w64)) { offset = on (pos 0) })
      []
    ≡ done (reading overflow)
outgoing_large_example =
    outgoing_large no_floats (reading (uint_result w64 (2 ^ 63)))
      (record (plain (uint w64)) { offset = on (pos 0) }) [] (2 ^ 63)
      (refl, refl, refl, refl, refl, refl, refl) refl (omega arith) (omega arith)
