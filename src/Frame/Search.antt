-- ===== src/Frame/Search.antt =====
-- What `strstr`, `takeString` and the scan of `takeValue` find in fields that end in '#'.
use device_service_zigbee.Prelude.{
  ℕ, zero, suc, ◌+◌, ◌≡◌, refl, ap, ◌∙◌, inl, inr, Bool, true, false, ◌||◌, str_eq→eq, Bool-cases,
  none, some, List, [], ◌∷◌, ◌++◌, arith, Bytes, codes, starts_with, str_eq, drop, take, ◌≤◌,
  length, Lacks, All, take-append, append_assoc,
}
use device_service_zigbee.Prelude.Outcome.{done, fault, bad_pointer}
use device_service_zigbee.Frame.{hash, strstr, take_string, until_hash, fields}

strstr-hash : (f r : Bytes) → Lacks hash f → strstr (f ++ hash ∷ r) (hash ∷ []) ≡ some (length f)
unfolding strstr
strstr-hash [] r h = refl
strstr-hash (c ∷ f) r h = ground (arith, strstr-hash f r h.1)

strstr-no_hash : (f : Bytes) → Lacks hash f → strstr f (hash ∷ []) ≡ none
unfolding strstr
strstr-no_hash [] h = refl
strstr-no_hash (c ∷ f) h = ground (arith, strstr-no_hash f h.1)

drop-append_suc : (f r : Bytes) → drop (length f + 1) (f ++ hash ∷ r) ≡ r
drop-append_suc [] r = refl
drop-append_suc (c ∷ f) r = ground (arith, drop-append_suc f r)

-- A field is cut off at its '#'.
pub take_string_field : (f r : Bytes) → Lacks hash f → take_string (f ++ hash ∷ r) ≡ done (f, r)
unfolding take_string
take_string_field f r h =
    ground (arith, strstr-hash f r h, drop-append_suc f r, take-append f (hash ∷ r))

-- A text with no '#' makes `takeString` compute with NULL.
pub take_string_fault : (f : Bytes) → Lacks hash f → take_string f ≡ fault bad_pointer
unfolding take_string
take_string_fault f h = ground (arith, strstr-no_hash f h)

until_hash_field : (f r : Bytes) → Lacks hash f → until_hash (f ++ hash ∷ r) ≡ done (f, r)
unfolding until_hash
until_hash_field [] r h = refl
until_hash_field (c ∷ f) r h = ground (arith, until_hash_field f r h.1)

-- fields one behind the other, each with its '#'
abbrev pub closed : List Bytes → Bytes
closed [] = []
closed (f ∷ fs) = f ++ hash ∷ closed fs

pub closed-append :
    (f : Bytes) (fs : List Bytes) (r : Bytes) → closed (f ∷ fs) ++ r ≡ f ++ hash ∷ (closed fs ++ r)
closed-append f fs r = append_assoc f (hash ∷ closed fs) r

pub fields-closed :
    (n : ℕ) (fs : List Bytes) (r : Bytes)
    → All (Lacks hash) fs
    → n ≤ length fs
    → fields n (closed fs ++ r) ≡ done (take n fs)
unfolding fields
fields-closed zero fs r h l = refl
fields-closed (suc n) [] r h l = absurd (omega arith)
fields-closed (suc n) (f ∷ fs) r h l =
    ground (
      arith,
      closed-append f fs r,
      until_hash_field f (closed fs ++ r) h.0,
      fields-closed n fs r h.1,
    )

-- the text that `takeValue` looks for, without its '#'
abbrev pub value_word : Bytes
value_word = codes "value"

-- whether the text ends in a word
abbrev pub ends_in : Bytes → Bytes → Bool
ends_in p [] = str_eq p []
ends_in p (c ∷ f) = str_eq p (c ∷ f) || ends_in p f

starts_with-field :
    (p f r : Bytes)
    → Lacks hash p
    → Lacks hash f
    → starts_with (p ++ hash ∷ []) (f ++ hash ∷ r) ≡ str_eq p f
starts_with-field [] [] r hp hf = refl
starts_with-field [] (d ∷ f) r hp hf = ground arith
starts_with-field (c ∷ p) [] r hp hf = ground arith
starts_with-field (c ∷ p) (d ∷ f) r hp hf = ground (arith, starts_with-field p f r hp.1 hf.1)

-- The search for a word with its '#' passes over a field that does not end in the word.
pub strstr_field :
    (p f r : Bytes) (n : ℕ)
    → Lacks hash p
    → Lacks hash f
    → ends_in p f ≡ false
    → strstr r (p ++ hash ∷ []) ≡ some n
    → strstr (f ++ hash ∷ r) (p ++ hash ∷ []) ≡ some (length f + 1 + n)
unfolding strstr
strstr_field p [] r n hp h e k = ground (arith, starts_with-field p [] r hp h)
strstr_field p (c ∷ f) r n hp h e k =
    ground (arith, starts_with-field p (c ∷ f) r hp h, strstr_field p f r n hp h.1 (ground arith) k)

-- A word that ends a field is found there, and what follows it is what follows the field.
abbrev pub FoundBefore : Bytes → Bytes → Bytes → Type 0
FoundBefore p s r =
    (n : ℕ) × (strstr s (p ++ hash ∷ []) ≡ some n) × (drop (n + (length p + 1)) s ≡ r)

drop-cons : (n k c : ℕ) (s : Bytes) → drop (suc n + k) (c ∷ s) ≡ drop (n + k) s
drop-cons n k c s = let e : suc n + k ≡ suc (n + k) = omega arith in ap (λ m. drop m (c ∷ s)) e

pub drop_past : (f s : Bytes) (k : ℕ) → drop (length f + 1 + k) (f ++ hash ∷ s) ≡ drop k s
drop_past [] s k = drop-cons 0 k hash s ∙ ap (λ m. drop m s) {x = 0 + k} (omega arith)
drop_past (c ∷ f) s k =
    let e : suc (length f) + 1 + k ≡ suc (length f + 1 + k) = omega arith in
    ap (λ m. drop m (c ∷ f ++ hash ∷ s)) e ∙ drop_past f s k

pub strstr_word :
    (p f r : Bytes)
    → Lacks hash p
    → Lacks hash f
    → ends_in p f ≡ true
    → FoundBefore p (f ++ hash ∷ r) r
unfolding strstr
strstr_word p [] r hp h e = let same : p ≡ [] = str_eq→eq p [] e in rw same (0, refl, refl)
strstr_word p (c ∷ f) r hp h e = elim (Bool-cases (str_eq p (c ∷ f))) [
  | inl now ↦ (
    0,
    ground (arith, now, starts_with-field p (c ∷ f) r hp h),
    rw (str_eq→eq p (c ∷ f) now)
        (ap (λ k. drop k (c ∷ f ++ hash ∷ r)) (omega arith) ∙ drop-append_suc (c ∷ f) r),
  )
  | inr later ↦
      let (n, found, rest) = strstr_word p f r hp h.1 (ground arith) in
      (
        suc n,
        ground (arith, later, starts_with-field p (c ∷ f) r hp h, found),
        drop-cons n (length p + 1) c (f ++ hash ∷ r) ∙ rest,
      )
]
