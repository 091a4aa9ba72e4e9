-- ===== src/Driver/Serial/Dispatch.antt =====
-- Which queue a line goes to, and which lines do not fit.
use device_service_zigbee.Prelude.{
  ℕ, ◌+◌, ◌≤◌, ◌<◌, ◌≡◌, ◌≢◌, ◌⊎◌, inl, inr, Bool-cases, ◌==◌, refl, some, [], ◌∷◌, ◌++◌, Bytes,
  Lacks, arith, length, drop, ltb, if◌then◌else◌,
}
use device_service_zigbee.Prelude.Outcome.{done, fault, out_of_bounds}
use device_service_zigbee.Driver.{Queues, enqueued}
use device_service_zigbee.Driver.Serial.{store, c_string, dispatch, is_cmd, rx}

c_string-text : (s t : Bytes) → Lacks 0 s → c_string (s ++ 0 ∷ t) ≡ done s
unfolding c_string
c_string-text [] t h = refl
c_string-text (c ∷ s) t h = ground (arith, h.0, c_string-text s t h.1)

-- where a text goes: each command has its queue, and what is no command goes nowhere
abbrev pub Delivers : ℕ → Bytes → Queues → Queues → Type 0
Delivers cmd s qs qs' =
    ((cmd ≡ b'a') × (qs' ≡ record qs { events = enqueued s qs.events }))
    ⊎ ((cmd ≡ b'b') × (qs' ≡ record qs { get_handler = enqueued s qs.get_handler }))
    ⊎ ((cmd ≡ b'd') × (qs' ≡ record qs { discovery = enqueued s qs.discovery }))
    ⊎ ((cmd ≢ b'a') × (cmd ≢ b'b') × (cmd ≢ b'd') × (qs' ≡ qs))

dispatch-Delivers :
    (cmd : ℕ) (s : Bytes) (qs : Queues)
    → Delivers cmd s qs (if is_cmd cmd then dispatch cmd s qs else qs)
unfolding dispatch
dispatch-Delivers cmd s qs = elim (Bool-cases (cmd == b'a')) [
  | inl a ↦ inl (ground (arith, a), ground (arith, a))
  | inr na ↦ inr (elim (Bool-cases (cmd == b'b')) [
    | inl b ↦ inl (ground (arith, b), ground (arith, na, b))
    | inr nb ↦ inr (elim (Bool-cases (cmd == b'd')) [
      | inl d ↦ inl (ground (arith, d), ground (arith, na, nb, d))
      | inr nd ↦
          inr
            (ground (arith, na), ground (arith, nb), ground (arith, nd), ground (arith, na, nb, nd))
    ])
  ])
]

-- what a round does with a line: it does not fit, or its text is delivered
abbrev pub Receives : Queues → Bytes → ℕ → ℕ → Bytes → Type 0
Receives qs buffer cmd sep s =
    ((length buffer ≤ length s + 2) × (rx qs buffer (some (cmd ∷ sep ∷ s)) ≡ fault out_of_bounds))
    ⊎ ((length s + 2 < length buffer)
        × (qs' : Queues) × (rx qs buffer (some (cmd ∷ sep ∷ s))
            ≡ done (qs', cmd ∷ sep ∷ (s ++ 0 ∷ drop (length s + 3) buffer)))
        × Delivers cmd s qs qs')

-- A line of two characters or more, without a NUL behind these, is put into the queue of its command,
-- from its third character on, whatever the buffer held before: events for 'a', replies for 'b',
-- discoveries for 'd', and none for any other command. A line that fills the buffer makes
-- `user_serial_read` write its NUL behind it.
pub rx-dispatch :
    (qs : Queues) (buffer : Bytes) (cmd sep : ℕ) (s : Bytes)
    → Lacks 0 s
    → Receives qs buffer cmd sep s
unfolding rx store
rx-dispatch qs buffer cmd sep s h =
    let text = c_string-text s (drop (length s + 3) buffer) h in
    elim (Bool-cases (ltb (length s + 2) (length buffer))) [
      | inr full ↦ inl (ground (arith, full), ground (arith, full))
      | inl room ↦ inr (
        ground (arith, room),
        (if is_cmd cmd then dispatch cmd s qs else qs),
        elim (Bool-cases (is_cmd cmd)) [
          | inl c ↦ ground (arith, room, c, text)
          | inr n ↦ ground (arith, room, n)
        ],
        dispatch-Delivers cmd s qs,
      )
    ]
