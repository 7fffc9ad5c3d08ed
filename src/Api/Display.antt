-- ===== src/Api/Display.antt =====
-- internal/api/v1/messages.go: renderDisplayContent. The regular expression `<@!?([\w-]+)>` is a scan:
-- it has no match that starts inside another, and a run of id characters is maximal.
use agent_chat.Prelude.{
  ℕ, ◌+◌, zero, suc, Bool, true, false, ◌||◌, ◌&&◌, Option, none, some, [], ◌∷◌, ◌++◌, Str,
  is_empty, StrMap, lookup, length, take, leb, ◌==◌, if◌then◌else◌,
}

-- [0-9A-Za-z_-]
unfoldable pub is_id_char : ℕ → Bool
is_id_char c =
    leb 48 c && leb c 57 || (leb 65 c && leb c 90) || (leb 97 c && leb c 122) || c == 95 || c == 45

-- The run of id characters, and whether '>' follows it.
unfoldable pub id_run : Str → Str × Bool
unfolding is_id_char
id_run [] = ([], false)
id_run (c ∷ cs) =
    let (id, closed) = id_run cs in if is_id_char c then (c ∷ id, closed) else ([], c == 62)

abbrev pub closed_id : ℕ → Str × Bool → Option (Str × ℕ)
closed_id opened (id, closed) =
    if closed && not_blank id then some (id, opened + length id + 1) else none
  where
    not_blank : Str → Bool
    not_blank [] = false
    not_blank (c ∷ cs) = true

-- After "<@": the id, and the length of what is left of the mention.
unfoldable pub after_at : Str → Option (Str × ℕ)
unfolding id_run
after_at [] = none
after_at (c ∷ cs) = if c == 33 then closed_id 2 (id_run cs) else closed_id 1 (id_run (c ∷ cs))

-- After "<".
unfoldable pub mention_here : Str → Option (Str × ℕ)
unfolding after_at
mention_here [] = none
mention_here (c ∷ cs) = if c == 64 then after_at cs else none

abbrev pub name_of : Option Str → Option Str
name_of none = none
name_of (some name) = if is_empty name then none else some name

abbrev pub shown : Str → Option Str → Str
shown token none = token
shown token (some name) = 64 ∷ name

-- The first `skip` bytes belong to a mention that is written already.
unfoldable pub render_from : StrMap Str → ℕ → Str → Str
unfolding mention_here
render_from names skip [] = []
render_from names (suc skip) (c ∷ cs) = render_from names skip cs
render_from names zero (c ∷ cs) = elim (if c == 60 then mention_here cs else none) [
  | none ↦ c ∷ render_from names 0 cs
  | some (id, rest) ↦
      shown (c ∷ take rest cs) (name_of (lookup id names)) ++ render_from names rest cs
]

abbrev pub no_names : StrMap Str → Bool
no_names [] = true
no_names (x ∷ m) = false

unfoldable pub render_display_content : Str → StrMap Str → Str
unfolding render_from
render_display_content content names =
    if is_empty content || no_names names then content else render_from names 0 content
