-- ===== src/Command/Everywhere/Replies.antt =====
-- The reply of a command on every device, where all events are JSON.
use device_service_zigbee.Prelude.{
  ℕ, ◌+◌, ◌≡◌, refl, ap, ◌∙◌, Bool, true, false, ◌||◌, Option, none, some, List, [], ◌∷◌, ◌++◌,
  append_assoc, append-nil, Bytes, codes, if◌then◌else◌, ◌==◌, length, length-append, arith, All,
  Bool-cases, inl, inr,
}
use device_service_zigbee.Prelude.Outcome.{done}
use device_service_zigbee.Command.{CmdInfo}
use device_service_zigbee.Command.Event.{json, Event}
use device_service_zigbee.Command.Run.{
  HttpStatus, ok, bad_request, not_found, method_not_allowed, locked, internal_server_error, Device,
  Effect, Service, run_one,
}
use device_service_zigbee.Command.Everywhere.{
  Buffer, opened, is_ok, append_json, closed, Progress, add_reply, command_one, command_each,
  finish, all_command,
}

-- what a command on one device gave
pub record Run : Type 0 where
  pub code : HttpStatus
  pub effects : List Effect
  pub event : Option Event

abbrev pub any_ok : List Run → Bool
any_ok [] = false
any_ok (r ∷ rs) = is_ok r.code || any_ok rs

abbrev pub last_code : HttpStatus → List Run → HttpStatus
last_code c [] = c
last_code c (r ∷ rs) = last_code r.code rs

is_ok-ok : (c : HttpStatus) → is_ok c ≡ true → c ≡ ok
is_ok-ok ok h = refl
is_ok-ok bad_request h = ground (arith, h)
is_ok-ok not_found h = ground (arith, h)
is_ok-ok method_not_allowed h = ground (arith, h)
is_ok-ok locked h = ground (arith, h)
is_ok-ok internal_server_error h = ground (arith, h)

-- The status so far, once one more device gives its code.
ret_again :
    (c d : HttpStatus) (rs : List Run)
    → (let c' = if is_ok c then c else d in
        if is_ok c' then c' else if any_ok rs then ok else last_code c' rs)
      ≡ (if is_ok c then c else if is_ok d || any_ok rs then ok else last_code d rs)
ret_again c d rs = elim (Bool-cases (is_ok c)) [
  | inl t ↦ ground (arith, t)
  | inr f ↦ elim (Bool-cases (is_ok d)) [
    | inl t ↦ ground (arith, f, t, is_ok-ok d t)
    | inr g ↦ ground (arith, f, g)
  ]
]

-- OK where one device is, else what the last one gives, or that there is none
abbrev pub status_of : List Run → HttpStatus
status_of rs = if any_ok rs then ok else last_code not_found rs

abbrev pub effects_of : List Run → List Effect
effects_of [] = []
effects_of (r ∷ rs) = r.effects ++ effects_of rs

abbrev pub commas : List Bytes → Bytes
commas [] = []
commas (s ∷ ss) = codes "," ++ (s ++ commas ss)

-- texts with commas between them
abbrev pub join : List Bytes → Bytes
join [] = []
join (s ∷ ss) = s ++ commas ss

module _ (svc : Service) (encoded : Event → Bytes) (body : Bytes) where
  abbrev with_text : Option Event → List Bytes → List Bytes
  with_text none ss = ss
  with_text (some e) ss = encoded e ∷ ss

  abbrev pub texts : List Run → List Bytes
  texts [] = []
  texts (r ∷ rs) = with_text r.event (texts rs)

  -- the devices give these results
  abbrev pub Runs : List (Device × CmdInfo) → List Run → Type 0
  Runs [] [] = Unit
  Runs [] (r ∷ rs) = ⊥
  Runs (d ∷ q) [] = ⊥
  Runs (d ∷ q) (r ∷ rs) =
      (run_one svc d.0 d.1 body ≡ done ((r.code, r.effects), r.event)) × Runs q rs

  abbrev IsJsonOr : Option Event → Type 0
  IsJsonOr none = Unit
  IsJsonOr (some e) = e.encoding ≡ json

  abbrev pub IsJson : Run → Type 0
  IsJson r = IsJsonOr r.event

  abbrev continued : ℕ → List Bytes → Bytes
  continued n ss = if n == 0 then join ss else commas ss

  abbrev pub grown : Buffer → List Bytes → Buffer
  grown b ss = record {
    enc = json;
    bsize = b.bsize + length (continued b.nret ss);
    text = b.text ++ continued b.nret ss;
    nret = b.nret + length ss;
  }

  continued_none : (n : ℕ) → continued n [] ≡ []
  continued_none n = ground arith

  continued_some :
      (n : ℕ) (s : Bytes) (ss : List Bytes)
      → continued n (s ∷ ss) ≡ ((if n == 0 then [] else codes ",") ++ s) ++ commas ss
  continued_some n s ss = elim (Bool-cases (n == 0)) [
    | inl z ↦ ground (arith, z)
    | inr nz ↦ ground (arith, nz, append_assoc (codes ",") s (commas ss))
  ]

  add_reply-grown :
      (o : Option Event) (b : Buffer)
      → b.enc ≡ json
      → IsJsonOr o
      → add_reply svc encoded body o b ≡ done (grown b (with_text o []))
  unfolding add_reply append_json
  add_reply-grown none b e h = ground (arith, e, continued_none b.nret, append-nil b.text)
  add_reply-grown (some ev) b e h = elim (Bool-cases (b.nret == 0)) [
    | inl z ↦ ground (arith, e, h, z, append-nil (encoded ev))
    | inr nz ↦
        ground (arith, e, h, nz, append-nil (encoded ev), length-append (codes ",") (encoded ev))
  ]

  grown_again :
      (o : Option Event) (ss : List Bytes) (b : Buffer)
      → grown (grown b (with_text o [])) ss ≡ grown b (with_text o ss)
  grown_again none ss b = elim (Bool-cases (b.nret == 0)) [
    | inl z ↦ ground (arith, z, append-nil b.text)
    | inr nz ↦ ground (arith, nz, append-nil b.text)
  ]
  grown_again (some ev) ss b =
      let s = encoded ev in
      elim (Bool-cases (b.nret == 0)) [
        | inl z ↦
            ground (
              arith,
              z,
              append-nil s,
              append_assoc b.text s (commas ss),
              length-append s (commas ss),
            )
        | inr nz ↦ ground (
          arith,
          nz,
          append-nil s,
          append_assoc b.text (codes "," ++ s) (commas ss),
          length-append s (commas ss),
        )
      ]

  abbrev pub reached : Progress → List Run → Progress
  reached p rs = record {
    ret = if is_ok p.ret then p.ret else if any_ok rs then ok else last_code p.ret rs;
    effects = p.effects ++ effects_of rs;
    buffer = grown p.buffer (texts rs);
  }

  command_each-reached :
      (q : List (Device × CmdInfo)) (rs : List Run) (p : Progress)
      → p.buffer.enc ≡ json
      → Runs q rs
      → All IsJson rs
      → command_each svc encoded body q p ≡ done (reached p rs)
  unfolding command_each command_one
  command_each-reached [] [] p e h js =
      ground
        (arith, e, continued_none p.buffer.nret, append-nil p.buffer.text, append-nil p.effects)
  command_each-reached [] (r ∷ rs) p e h js = elim h [ ]
  command_each-reached (d ∷ q) [] p e h js = elim h [ ]
  command_each-reached (d ∷ q) (r ∷ rs) p e h js =
      let p' : Progress = record {
        ret = if is_ok p.ret then p.ret else r.code;
        effects = p.effects ++ r.effects;
        buffer = grown p.buffer (with_text r.event []);
      } in
      let one : command_one svc encoded body d.0 d.1 p ≡ done p' =
        rw (h.0, add_reply-grown r.event p.buffer e js.0) refl in
      let rest = command_each-reached q rs p' refl h.1 js.1 in
      let same : reached p' rs ≡ reached p (r ∷ rs) =
        rw
          (
            ret_again p.ret r.code rs,
            append_assoc p.effects r.effects (effects_of rs),
            grown_again r.event (texts rs) p.buffer,
          )
          refl in
      rw one (rest ∙ ap done same)

last_code_not_ok :
    (c : HttpStatus) (rs : List Run)
    → is_ok c ≡ false
    → any_ok rs ≡ false
    → is_ok (last_code c rs) ≡ false
last_code_not_ok c [] h none_ok = h
last_code_not_ok c (r ∷ rs) h none_ok = elim (Bool-cases (is_ok r.code)) [
  | inl t ↦ ground (arith, t, none_ok)
  | inr f ↦ last_code_not_ok r.code rs f (ground (arith, f, none_ok))
]

status_of-any_ok : (rs : List Run) → is_ok (status_of rs) ≡ any_ok rs
status_of-any_ok rs = elim (Bool-cases (any_ok rs)) [
  | inl t ↦ ground (arith, t)
  | inr f ↦ ground (arith, f, last_code_not_ok not_found rs refl f)
]

-- a JSON array of the texts
abbrev pub array_of : List Bytes → Bytes
array_of ss = codes "[" ++ (join ss ++ codes "]")

-- Where a command gives these results on the devices of the queue, and every event is JSON, the command
-- on all of them has the status OK if one device has, else the last device's (not found where there
-- is none), makes the effects of all in order, and replies, if it is OK, with the array of the
-- events' texts, in a buffer of exactly the size that the array and its NUL take.
pub all_command-array_of :
    (svc : Service) (encoded : Event → Bytes) (body : Bytes) (q : List (Device × CmdInfo))
    (rs : List Run)
    → Runs svc encoded body q rs
    → All (IsJson svc encoded body) rs
    → (let text = array_of (texts svc encoded body rs) in
        all_command svc encoded body q
        ≡ done (record {
          status = status_of rs;
          effects = effects_of rs;
          reply = if any_ok rs then some (length text + 1, json, text) else none;
        }))
unfolding all_command finish closed
all_command-array_of svc encoded body q rs h js =
    let start : Progress = record { ret = not_found; effects = []; buffer = opened } in
    let looped = command_each-reached svc encoded body q rs start refl h js in
    let ts = texts svc encoded body rs in
    let status = status_of-any_ok rs in
    rw looped (ground (arith, status, length-append (join ts) (codes "]")))
