-- ===== src/Downloader/Names.antt =====
-- The names of the files.
use agent_chat.Prelude.{
  ℕ, zero, suc, ◌≤◌, ◌≡◌, ◌⊎◌, inl, inr, refl, Bool-cases, true, false, ◌||◌, [], ◌∷◌, ◌++◌, Str,
  bytes, str_eq, is_empty, All, All-take, length, length-take, take, ◌==◌, arith,
}
use agent_chat.Downloader.{is_safe, sanitize, strip_dots, max_name, or_fallback, safe_filename}

abbrev Safe : ℕ → Type 0
Safe c = is_safe c ≡ true

-- The first byte, if there is one, is no dot.
abbrev pub Plain : Str → Type 0
Plain [] = Unit
Plain (c ∷ cs) = (c == 46) ≡ false

sanitize-Safe : (s : Str) → All Safe (sanitize s)
unfolding sanitize is_safe
sanitize-Safe [] = tt
sanitize-Safe (c ∷ cs) = elim (Bool-cases (is_safe c)) [
  | inl fine ↦ (rw fine fine, sanitize-Safe cs)
  | inr odd ↦ (rw odd refl, sanitize-Safe cs)
]

strip_dots-Safe : (s : Str) → All Safe s → All Safe (strip_dots s)
unfolding strip_dots
strip_dots-Safe [] h = tt
strip_dots-Safe (c ∷ cs) (k, h) = elim (Bool-cases (c == 46)) [
  | inl dot ↦ rw dot (strip_dots-Safe cs h)
  | inr other ↦ rw other (k, h)
]

strip_dots-Plain : (s : Str) → Plain (strip_dots s)
unfolding strip_dots
strip_dots-Plain [] = tt
strip_dots-Plain (c ∷ cs) = elim (Bool-cases (c == 46)) [
  | inl dot ↦ rw dot (strip_dots-Plain cs)
  | inr other ↦ rw other other
]

take-Plain : (n : ℕ) (s : Str) → Plain s → Plain (take n s)
take-Plain zero s h = tt
take-Plain (suc n) [] h = tt
take-Plain (suc n) (c ∷ cs) h = h

length-take_bound : (n : ℕ) (s : Str) → length (take n s) ≤ n
length-take_bound n s = ground (arith, length-take n s)

-- A name made of safe bytes.
pub record IsSafeName (s : Str) : Type 0 where
  pub named : is_empty s ≡ false
  pub safe : All Safe s
  pub plain : Plain s
  pub bounded : length s ≤ max_name

checked :
    (id s : Str)
    → All Safe s
    → Plain s
    → length s ≤ max_name
    → (or_fallback id s ≡ bytes "att-" ++ id) ⊎ IsSafeName (or_fallback id s)
checked id [] h p b = inl refl
checked id (c ∷ cs) h p b = inr (record { named = refl; safe = h; plain = p; bounded = b })

-- Whatever the gateway calls a file, and whatever filepath.Base makes of it, the file's name is
-- "att-" with the attachment's id, or it is not empty, has at most 80 bytes, all of them letters,
-- digits, dots, underscores or dashes, and does not start with a dot.
pub safe_filename-IsSafeName :
    (base_name : Str → Str) (name id : Str)
    → (safe_filename base_name name id ≡ bytes "att-" ++ id)
      ⊎ IsSafeName (safe_filename base_name name id)
unfolding safe_filename
safe_filename-IsSafeName base_name name id =
    elim (Bool-cases (is_empty name || str_eq name (bytes ".") || str_eq name (bytes ".."))) [
      | inl odd ↦ rw odd (inl refl)
      | inr usual ↦
          let s = strip_dots (sanitize (base_name name)) in
          rw usual (
            checked id (take max_name s)
              (All-take Safe max_name s
                (strip_dots-Safe (sanitize (base_name name)) (sanitize-Safe (base_name name))))
              (take-Plain max_name s (strip_dots-Plain (sanitize (base_name name))))
              (length-take_bound max_name s))
    ]
