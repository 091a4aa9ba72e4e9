-- ===== src/DevUtil/Orders.antt =====
-- Where the names are different, two lists are equal exactly if one is a permutation of the other.
use device_service_zigbee.Prelude.{
  ◌+◌, ◌≡◌, ◌≢◌, ◌↔◌, refl, sym, ap, ◌∙◌, Bool, true, some, List, [], ◌∷◌, ◌++◌, Bytes, All, arith,
  length, length-append, ◌==◌, str_eq, str_eq_iff, ==_iff, Bool-cases, Option-cases, inl, inr,
}
use mathlib.Core.Path.{subst}
use device_service_zigbee.DevUtil.{
  find_named, all_found, list_equal, AutoEvents, autoevent_equal, autoevents_equal,
}

-- the elements of the one list, each put somewhere into the other
pub data Shuffle {ℓ} {A : Type ℓ} : List A → List A → Type ℓ where
  nil : Shuffle [] []
  put :
      {x : A} {l : List A} (pre post : List A)
      → Shuffle l (pre ++ post)
      → Shuffle (x ∷ l) (pre ++ x ∷ post)

module _ {ℓ} {A : Type ℓ} (name : A → Bytes) (cmp : A → A → Bool) where
  -- no element has the name
  abbrev pub Nameless : Bytes → List A → Type 0
  Nameless n = All (λ x. n ≢ name x)

  abbrev pub Distinct : List A → Type 0
  Distinct [] = Unit
  Distinct (x ∷ l) = Nameless (name x) l × Distinct l

  find_named-skip :
      (n : Bytes) (x : A) (pre post : List A)
      → n ≢ name x
      → find_named name cmp n (pre ++ x ∷ post) ≡ find_named name cmp n (pre ++ post)
  unfolding find_named
  find_named-skip n x [] post h = ground (arith, str_eq_iff n (name x))
  find_named-skip n x (y ∷ pre) post h = ground (arith, find_named-skip n x pre post h)

  find_named-Nameless :
      (n : Bytes) (x : A) (pre post : List A)
      → Nameless n pre
      → n ≡ name x
      → find_named name cmp n (pre ++ x ∷ post) ≡ some x
  unfolding find_named
  find_named-Nameless n x [] post h e = ground (arith, str_eq_iff n (name x))
  find_named-Nameless n x (y ∷ pre) post h e =
      ground (arith, str_eq_iff n (name y), h.0, find_named-Nameless n x pre post h.1 e)

  Nameless-append_left : (n : Bytes) (pre post : List A) → Nameless n (pre ++ post) → Nameless n pre
  Nameless-append_left n [] post h = tt
  Nameless-append_left n (x ∷ pre) post h = (h.0, Nameless-append_left n pre post h.1)

  Nameless-insert :
      (n : Bytes) (x : A) (pre post : List A)
      → n ≢ name x
      → Nameless n (pre ++ post)
      → Nameless n (pre ++ x ∷ post)
  Nameless-insert n x [] post h k = (h, k)
  Nameless-insert n x (y ∷ pre) post h k = (k.0, Nameless-insert n x pre post h k.1)

  Nameless-Shuffle : {l m : List A} (n : Bytes) → Shuffle l m → Nameless n l → Nameless n m
  Nameless-Shuffle n nil h = tt
  Nameless-Shuffle n (put {x} pre post s) h =
      Nameless-insert n x pre post h.0 (Nameless-Shuffle n s h.1)

  -- a found element splits the list
  find_named_split :
      (n : Bytes) (y : A) (m : List A)
      → find_named name cmp n m ≡ some y
      → (pre : List A) × (post : List A) × (m ≡ pre ++ y ∷ post) × (n ≡ name y)
  unfolding find_named
  find_named_split n y [] h = cc
  find_named_split n y (z ∷ m) h = elim (Bool-cases (str_eq n (name z))) [
    | inl t ↦
        let same_head : z ≡ y = ground (arith, t, h) in
        ([], m, ap (λ w. w ∷ m) same_head, (str_eq_iff n (name z)).0 t ∙ ap name same_head)
    | inr f ↦
        let (pre, post, e, k) = find_named_split n y m (ground (arith, f, h)) in
        (z ∷ pre, post, ap (◌∷◌ z) e, k)
  ]

  all_found-skip :
      (l : List A) (x : A) (pre post : List A)
      → Nameless (name x) l
      → all_found name cmp l (pre ++ x ∷ post) ≡ all_found name cmp l (pre ++ post)
  unfolding all_found
  all_found-skip [] x pre post h = refl
  all_found-skip (y ∷ l) x pre post h = ground (
    arith,
    find_named-skip (name y) x pre post (λ e. h.0 (sym e)),
    all_found-skip l x pre post h.1,
  )

  length-insert : (x : A) (pre post : List A) → length (pre ++ x ∷ post) ≡ length (pre ++ post) + 1
  length-insert x pre post = omega (arith, length-append pre (x ∷ post), length-append pre post)

  length-Shuffle : {l m : List A} → Shuffle l m → length l ≡ length m
  length-Shuffle nil = refl
  length-Shuffle (put {x} pre post s) = omega (arith, length-insert x pre post, length-Shuffle s)

  module _ (sound : (x y : A) → name x ≡ name y → cmp x y ≡ true → x ≡ y)
      (whole : (x : A) → cmp x x ≡ true) where
    all_found-Shuffle :
        (l m : List A)
        → Distinct l
        → length l ≡ length m
        → all_found name cmp l m ≡ true
        → Shuffle l m
    unfolding all_found
    all_found-Shuffle [] [] d e h = nil
    all_found-Shuffle [] (y ∷ m) d e h = absurd (omega arith)
    all_found-Shuffle (x ∷ l) m d e h = elim (Option-cases (find_named name cmp (name x) m)) [
      | inl n ↦ ground (arith, n, h)
      | inr (y, f) ↦
          let (pre, post, split, k) = find_named_split (name x) y m f in
          elim (Bool-cases (cmp x y)) [
            | inr n ↦ ground (arith, f, n, h)
            | inl c ↦
                let same_one : y ≡ x = sym (sound x y k c) in
                let split' : m ≡ pre ++ x ∷ post = split ∙ ap (λ z. pre ++ z ∷ post) same_one in
                let rest : all_found name cmp l (pre ++ x ∷ post) ≡ true =
                  subst (λ w. all_found name cmp l w ≡ true) split' (ground (arith, f, c, h)) in
                let one_less : length l ≡ length (pre ++ post) =
                  omega (arith, e, ap length split', length-insert x pre post) in
                subst (Shuffle (x ∷ l)) (sym split') (
                  put pre post (
                    all_found-Shuffle l (pre ++ post) d.1 one_less
                      (sym (all_found-skip l x pre post d.0) ∙ rest)))
          ]
    ]

    Shuffle-all_found : {l m : List A} → Shuffle l m → Distinct l → all_found name cmp l m ≡ true
    unfolding all_found
    Shuffle-all_found nil d = refl
    Shuffle-all_found (put {x} {l} pre post s) d = ground (
      arith,
      find_named-Nameless (name x) x pre post
          (Nameless-append_left (name x) pre post (Nameless-Shuffle (name x) s d.0)) refl,
      whole x,
      all_found-skip l x pre post d.0,
      Shuffle-all_found s d.1,
    )

    pub list_equal_iff :
        (l m : List A) → Distinct l → (list_equal name cmp l m ≡ true) ↔ Shuffle l m
    unfolding list_equal
    list_equal_iff l m d = (
      λ h. elim (Bool-cases (length l == length m)) [
        | inl t ↦ all_found-Shuffle l m d ((==_iff _ _).0 t) (ground (arith, t, h))
        | inr n ↦ ground (arith, n, h)
      ],
      λ s. ground (arith, length-Shuffle s, Shuffle-all_found s d),
    )

-- different resources
abbrev pub HasDistinct : List AutoEvents → Type 0
HasDistinct = Distinct (λ (e : AutoEvents). e.resource) autoevent_equal

autoevent_equal_sound :
    (x y : AutoEvents) → x.resource ≡ y.resource → autoevent_equal x y ≡ true → x ≡ y
unfolding autoevent_equal
autoevent_equal_sound x y e h =
    let texts : x.frequency ≡ y.frequency = ground (arith, h, str_eq_iff x.frequency y.frequency) in
    let changes : x.on_change ≡ y.on_change = ground (arith, h) in ground (arith, e, texts, changes)

autoevent_equal_self : (x : AutoEvents) → autoevent_equal x x ≡ true
unfolding autoevent_equal
autoevent_equal_self x = ground (arith, str_eq_iff x.frequency x.frequency)

-- Two lists of automatic events, the first without a resource twice, are equal for the code exactly if
-- the one is a permutation of the other.
pub autoevents_equal_iff :
    (l m : List AutoEvents) → HasDistinct l → (autoevents_equal l m ≡ true) ↔ Shuffle l m
unfolding autoevents_equal
autoevents_equal_iff =
    list_equal_iff (λ (e : AutoEvents). e.resource) autoevent_equal autoevent_equal_sound
      autoevent_equal_self
