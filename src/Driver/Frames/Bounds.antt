-- ===== src/Driver/Frames/Bounds.antt =====
-- Which requests fit the buffers of a GET and of a PUT, and the frames that go out.
use device_service_zigbee.Prelude.{
  ℕ, ◌+◌, ◌≤◌, ◌<◌, ◌≡◌, refl, ◌∙◌, true, List, [], ◌∷◌, ◌++◌, append-nil, append_assoc, Bytes,
  codes, concat, arith, length, length-append, ltb, if◌then◌else◌, Bool-cases, inl, inr,
}
use device_service_zigbee.Prelude.Decimal.{decimal, length-decimal}
use device_service_zigbee.Prelude.Outcome.{Outcome, done, fault, out_of_bounds, ◌>>=◌}
use device_service_zigbee.Value.{FloatText, value_to_string, signed_decimal}
use device_service_zigbee.Value.Equal.{CommandResult}
use device_service_zigbee.Command.{CommandRequest}
use device_service_zigbee.Driver.Frames.{
  fits, strcat, int_text, get_names, get_frame, put_settings, put_frame,
}

-- several calls of `strcat` in a row
strcat_all : List Bytes → Bytes → Outcome Bytes
strcat_all [] buffer = done buffer
strcat_all (s ∷ ss) buffer = do b ← strcat buffer s; strcat_all ss b

-- They fail exactly if the whole text is too long.
strcat_all-fits :
    (ss : List Bytes) (buffer : Bytes)
    → length buffer < 100
    → strcat_all ss buffer ≡ fits 100 (buffer ++ concat ss)
unfolding strcat_all
strcat_all-fits [] buffer h = ground (arith, h, append-nil buffer)
strcat_all-fits (s ∷ ss) buffer h = elim (Bool-cases (ltb (length (buffer ++ s)) 100)) [
  | inl t ↦ ground (arith, t, strcat_all-fits ss (buffer ++ s), append_assoc buffer s (concat ss))
  | inr n ↦
      ground (arith, n, length-append (buffer ++ s) (concat ss), append_assoc buffer s (concat ss))
]

abbrev name_pieces : List CommandRequest → List Bytes
name_pieces [] = []
name_pieces (r ∷ rs) = r.resname ∷ codes "#" ∷ name_pieces rs

-- the names, each with a '#' behind it
abbrev pub names : List CommandRequest → Bytes
names rs = concat (name_pieces rs)

get_names-strcat_all :
    (rs : List CommandRequest) (buffer : Bytes)
    → get_names rs buffer ≡ strcat_all (name_pieces rs) buffer
unfolding get_names strcat_all
get_names-strcat_all [] buffer = refl
get_names-strcat_all (r ∷ rs) buffer =
    ground (arith, get_names-strcat_all rs ((buffer ++ r.resname) ++ codes "#"))

length-names : (rs : List CommandRequest) → length rs ≤ length (names rs)
length-names [] = omega arith
length-names (r ∷ rs) =
    omega (arith, length-append r.resname (codes "#" ++ names rs), length-names rs)

int_text-decimal : (n : ℕ) → n < 100 → int_text n ≡ decimal n
unfolding signed_decimal
int_text-decimal n h = ground arith

-- a command, a device, two characters of a time at most, a count, and the rest
length_frame :
    (devname count rest : Bytes)
    → length (devname ++ (codes "#100#" ++ (count ++ (codes "#" ++ rest))))
      ≡ length devname + 5 + length count + 1 + length rest
length_frame devname count rest = omega (
  arith,
  length-append devname (codes "#100#" ++ (count ++ (codes "#" ++ rest))),
  length-append count (codes "#" ++ rest),
)

-- The frame of a GET: the device and the requested resources by name. It is made, whole and within its
-- buffers, exactly if the names, each with its '#', are shorter than 100 characters together.
pub get_frame_lem :
    (devname : Bytes) (rs : List CommandRequest)
    → get_frame devname rs ≡ (
        if ltb (length (names rs)) 100
        then done (
            codes "b#"
            ++ (devname ++ (codes "#100#" ++ (decimal (length rs) ++ (codes "#" ++ names rs)))))
        else fault out_of_bounds)
unfolding get_frame
get_frame_lem devname rs =
    let built : get_names rs [] ≡ fits 100 (names rs) =
      get_names-strcat_all rs [] ∙ strcat_all-fits (name_pieces rs) [] (omega arith) in
    elim (Bool-cases (ltb (length (names rs)) 100)) [
      | inr n ↦ ground (arith, n, built)
      | inl t ↦
          let few : length rs < 100 = ground (arith, t, length-names rs) in
          ground (
            arith,
            t,
            built,
            int_text-decimal (length rs) few,
            length-decimal 1 (length rs) few,
            length_frame devname (decimal (length rs)) (names rs),
          )
    ]

-- the texts of the values, with a request for each
abbrev pub PutTexts : FloatText → List CommandRequest → List CommandResult → List Bytes → Type 0
PutTexts f [] [] [] = Unit
PutTexts f (r ∷ rs) (v ∷ vs) (s ∷ ss) =
    (value_to_string f v.value true ≡ done s) × PutTexts f rs vs ss
PutTexts f _ _ _ = ⊥

abbrev setting_pieces : List CommandRequest → List Bytes → List Bytes
setting_pieces [] ss = []
setting_pieces (r ∷ rs) [] = []
setting_pieces (r ∷ rs) (s ∷ ss) = r.resname ∷ codes ":" ∷ s ∷ codes "#" ∷ setting_pieces rs ss

-- the names with the texts of their values
abbrev pub settings : List CommandRequest → List Bytes → Bytes
settings rs ss = concat (setting_pieces rs ss)

put_settings-strcat_all :
    (f : FloatText) (rs : List CommandRequest) (vs : List CommandResult) (ss : List Bytes)
    (buffer : Bytes)
    → PutTexts f rs vs ss
    → put_settings f rs vs buffer ≡ strcat_all (setting_pieces rs ss) buffer
unfolding put_settings strcat_all
put_settings-strcat_all f [] [] [] buffer h = refl
put_settings-strcat_all f (r ∷ rs) (v ∷ vs) (s ∷ ss) buffer h = ground (
  arith,
  h.0,
  put_settings-strcat_all f rs vs ss (((buffer ++ r.resname) ++ codes ":") ++ s ++ codes "#") h.1,
)
put_settings-strcat_all f _ _ _ buffer h = absurd h

length-settings :
    (f : FloatText) (rs : List CommandRequest) (vs : List CommandResult) (ss : List Bytes)
    → PutTexts f rs vs ss
    → length vs ≤ length (settings rs ss)
length-settings f [] [] [] h = omega arith
length-settings f (r ∷ rs) (v ∷ vs) (s ∷ ss) h = omega (
  arith,
  length-append r.resname (codes ":" ++ (s ++ (codes "#" ++ settings rs ss))),
  length-append s (codes "#" ++ settings rs ss),
  length-settings f rs vs ss h.1,
)
length-settings f _ _ _ h = absurd h

length_put_frame :
    (devname count rest : Bytes)
    → length (devname ++ (codes "#0#" ++ (count ++ (codes "#" ++ rest))))
      ≡ length devname + 3 + length count + 1 + length rest
length_put_frame devname count rest = omega (
  arith,
  length-append devname (codes "#0#" ++ (count ++ (codes "#" ++ rest))),
  length-append count (codes "#" ++ rest),
)

-- The frame of a PUT: the device, and for each value the name and the text. Where every value has a
-- text, it is made, whole and within its buffers, exactly if names and texts, each with its
-- ':' or '#', are shorter than 100 characters together.
pub put_frame_lem :
    (f : FloatText) (devname : Bytes) (rs : List CommandRequest) (vs : List CommandResult)
    (ss : List Bytes)
    → PutTexts f rs vs ss
    → put_frame f devname rs vs ≡ (
        if ltb (length (settings rs ss)) 100
        then done (
            codes "c#"
            ++ (devname ++ (codes "#0#" ++ (decimal (length vs) ++ (codes "#" ++ settings rs ss)))))
        else fault out_of_bounds)
unfolding put_frame
put_frame_lem f devname rs vs ss h =
    let built : put_settings f rs vs [] ≡ fits 100 (settings rs ss) =
      put_settings-strcat_all f rs vs ss [] h
      ∙ strcat_all-fits (setting_pieces rs ss) [] (omega arith) in
    elim (Bool-cases (ltb (length (settings rs ss)) 100)) [
      | inr n ↦ ground (arith, n, built)
      | inl t ↦
          let few : length vs < 100 = ground (arith, t, length-settings f rs vs ss h) in
          ground (
            arith,
            t,
            built,
            int_text-decimal (length vs) few,
            length-decimal 1 (length vs) few,
            length_put_frame devname (decimal (length vs)) (settings rs ss),
          )
    ]
