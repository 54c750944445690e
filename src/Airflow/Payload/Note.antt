-- ===== src/Airflow/Payload/Note.antt =====
-- The note that the service writes into a run (apps/backend/app/services/airflow/service.py) and the
-- user that apps/backend/app/models/dags.py reads back out of it.
use Prim.Native.Char.{Char, code}
use text.Mathlib.TextLemmas.{nil-append, cons-append}
use innovativeproject_pm_gen.Base.{
  inr, sym, inl, Bool-cases, ap, String, ◌<>◌, ◌≡◌, refl, ◌∙◌, Bool, true, false, not, ◌&&◌, ◌||◌,
  Option, none, some, eqb, arith,
}
use innovativeproject_pm_gen.Dags.Parse.{
  group_of, parse_triggered_by, name_prefix, first_match, match_here, search_triggered_by,
  drop_prefix,
}
use innovativeproject_pm_gen.Airflow.Payload.{joined, user_parts, note_parts, compose_note}
use innovativeproject_pm_gen.Base.Text.{join, strip, is_empty}
use innovativeproject_pm_gen.Base.Value.{str}

unfoldable pub is_some : Option String → Bool
is_some none = false
is_some (some s) = true

-- The prefix stands somewhere in the text.
unfoldable pub mentions : String → String → Bool
mentions p String.[] = false
mentions p (String.◌∷◌ c s) = is_some (drop_prefix p (String.◌∷◌ c s)) || mentions p s

unfoldable lacks : Char → String → Bool
lacks c String.[] = true
lacks c (String.◌∷◌ d s) = not (eqb (code d) (code c)) && lacks c s

drop_prefix-append : (p u : String) → drop_prefix p (p <> u) ≡ some u
unfolding drop_prefix
drop_prefix-append String.[] u = rw (nil-append u) refl
drop_prefix-append (String.◌∷◌ c p) u =
    rw (cons-append c p u) (ground (arith, drop_prefix-append p u))

-- A character that a prefix lacks keeps it out of the text before the character.
drop_prefix-apart :
    (c : Char) (p q rest : String)
    → lacks c p ≡ true
    → is_some (drop_prefix p q) ≡ false
    → drop_prefix p (q <> String.◌∷◌ c rest) ≡ none
unfolding drop_prefix lacks is_some
drop_prefix-apart c String.[] q rest h e = ground arith
drop_prefix-apart c (String.◌∷◌ d p) String.[] rest h e =
    rw (nil-append (String.◌∷◌ c rest)) (ground arith)
drop_prefix-apart c (String.◌∷◌ d p) (String.◌∷◌ x q) rest h e =
    rw (cons-append x q (String.◌∷◌ c rest)) (ground (arith, drop_prefix-apart c p q rest))

abbrev space : Char
space = " "

-- The note does not mention a user already.
unfoldable pub IsPlain : Option String → Type 0
IsPlain none = Unit
IsPlain (some note) = mentions "triggered_by=" (strip note) ≡ false

module _ (is_word : Char → Bool) where
  match_here-none :
      (s : String) → drop_prefix "triggered_by=" s ≡ none → match_here is_word s ≡ none
  unfolding match_here group_of
  match_here-none s e = rw e refl

  -- Over text that does not mention the name of the field, the search goes on to what follows.
  search-after :
      (q rest : String)
      → mentions "triggered_by=" q ≡ false
      → search_triggered_by is_word (q <> String.◌∷◌ space rest)
        ≡ search_triggered_by is_word (String.◌∷◌ space rest)
  unfolding search_triggered_by first_match mentions lacks
  search-after String.[] rest h =
      ap (search_triggered_by is_word) (nil-append (String.◌∷◌ space rest))
  search-after (String.◌∷◌ c q) rest h =
      let apart =
        drop_prefix-apart space "triggered_by=" (String.◌∷◌ c q) rest refl (ground arith) in
      rw
        (
          cons-append c q (String.◌∷◌ space rest),
          match_here-none _ (rw (cons-append c q (String.◌∷◌ space rest)) at apart),
        )
        (search-after q rest (ground arith))

  search-bar :
      (rest : String)
      → search_triggered_by is_word (String.◌∷◌ space ("| " <> rest))
        ≡ search_triggered_by is_word rest
  unfolding search_triggered_by match_here first_match drop_prefix
  search-bar rest = rw (cons-append "|" " " rest, cons-append " " "" rest, nil-append rest) refl

  match_here-user :
      (user : String)
      → is_empty (name_prefix is_word user) ≡ false
      → match_here is_word ("triggered_by=" <> user) ≡ some (name_prefix is_word user)
  unfolding match_here group_of
  match_here-user user h = rw (drop_prefix-append "triggered_by=" user, h) refl

  search-user :
      (user : String)
      → is_empty (name_prefix is_word user) ≡ false
      → search_triggered_by is_word ("triggered_by=" <> user) ≡ some (name_prefix is_word user)
  unfolding search_triggered_by first_match
  search-user user h =
      let e = cons-append "t" "riggered_by=" user in
      rw (e, sym (ap (match_here is_word) e) ∙ match_here-user user h) refl

  name-some : (user : String) → is_empty (name_prefix is_word user) ≡ false → is_empty user ≡ false
  unfolding name_prefix
  name-some String.[] h = ground arith
  name-some (String.◌∷◌ c s) h = refl

  -- From the note that is composed for a user, beside one that mentions none, the parser reads back
  -- the longest run of characters that are matched by the class of word characters, dot and dash that
  -- the user's name begins with, if it is not empty, whatever the word characters are.
  pub compose_note-parse :
      (note : Option String) (user : String)
      → is_empty (name_prefix is_word user) ≡ false
      → IsPlain note
      → (text : String) × (compose_note note (some user) ≡ some text)
        × (parse_triggered_by is_word (str text) ≡ some (name_prefix is_word user))
  unfolding compose_note note_parts user_parts joined parse_triggered_by IsPlain join
  compose_note-parse none user h plain =
      ("triggered_by=" <> user, rw (name-some user h) refl, search-user user h)
  compose_note-parse (some note) user h plain =
      let line = "triggered_by=" <> user in
      elim (Bool-cases (is_empty note)) [
        | inl e ↦ (line, rw (e, name-some user h) refl, search-user user h)
        | inr e ↦ (
          strip note <> (" | " <> line),
          rw (e, name-some user h) refl,
          rw (cons-append " " "| " line) (
              search-after (strip note) ("| " <> line) plain
              ∙ search-bar line
              ∙ search-user user h),
        )
      ]
