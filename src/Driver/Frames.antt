-- ===== src/Driver/Frames.antt =====
-- random/user.c: the frames of a GET and of a PUT, which are put together in buffers of fixed size.
pub mod Bounds
use device_service_zigbee.Prelude.{
  ℕ, true, ◌+◌, ◌-◌, ◌^◌, List, [], ◌∷◌, ◌++◌, Bytes, codes, length, ltb, leb, if◌then◌else◌,
}
use device_service_zigbee.Prelude.Int.{ℤ, pos, negsuc}
use device_service_zigbee.Prelude.Outcome.{Outcome, done, fault, out_of_bounds, ◌>>=◌}
use device_service_zigbee.Value.{FloatText, value_to_string, signed_decimal}
use device_service_zigbee.Value.Equal.{CommandResult}
use device_service_zigbee.Command.{CommandRequest}

-- a text in `size` characters with its NUL
abbrev pub fits : ℕ → Bytes → Outcome Bytes
fits size s = if ltb (length s) size then done s else fault out_of_bounds

-- `strcat (buffer, s)` on the 100 characters of `fullResname` and `fullValue`
abbrev pub strcat : Bytes → Bytes → Outcome Bytes
strcat buffer s = fits 100 (buffer ++ s)

-- a uint32_t printed by "%d"
abbrev pub int_text : ℕ → Bytes
int_text n = signed_decimal (if ltb n (2 ^ 31) then pos n else negsuc (2 ^ 32 - 1 - n))

-- the loop of `user_gethandler_write`
pub get_names : List CommandRequest → Bytes → Outcome Bytes
get_names [] buffer = done buffer
get_names (r ∷ rs) buffer = do
  b₁ ← strcat buffer r.resname
  b₂ ← strcat b₁ (codes "#")
  get_names rs b₂

-- `user_gethandler_write`
pub get_frame : Bytes → List CommandRequest → Outcome Bytes
unfolding get_names
get_frame devname requests = do
  names ← get_names requests []
  fits (length devname + 3 + 5 + length names + 6) (
      codes "b#"
      ++ (devname ++ (codes "#100#" ++ (int_text (length requests) ++ (codes "#" ++ names)))))

module _ (f : FloatText) where
  -- the loop of `user_puthandler_write`; a request for each value
  pub put_settings : List CommandRequest → List CommandResult → Bytes → Outcome Bytes
  put_settings rs [] buffer = done buffer
  put_settings [] (v ∷ vs) buffer = fault out_of_bounds
  put_settings (r ∷ rs) (v ∷ vs) buffer = do
    s ← value_to_string f v.value true
    b₁ ← strcat buffer r.resname
    b₂ ← strcat b₁ (codes ":")
    b₃ ← strcat b₂ s
    b₄ ← strcat b₃ (codes "#")
    put_settings rs vs b₄

  -- `user_puthandler_write`
  pub put_frame : Bytes → List CommandRequest → List CommandResult → Outcome Bytes
  unfolding put_settings
  put_frame devname requests values = do
    settings ← put_settings requests values []
    fits (length devname + 1 + 5 + length settings + 6) (
        codes "c#"
        ++ (devname ++ (codes "#0#" ++ (int_text (length values) ++ (codes "#" ++ settings)))))
