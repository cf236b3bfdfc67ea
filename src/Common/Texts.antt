-- ===== src/Common/Texts.antt =====
-- Lists of texts as Python sets, and association lists with text keys as Python dicts.
use Prim.Native.String.{String, [] as no_letters, ◌∷◌ as add_letter, ◌++◌ as text_append}
use mathlib.Core.Bool.{Bool, false, ◌||◌}
use mathlib.Core.Option.{Option, none, some}
use mathlib.Core.List.{List, [], ◌∷◌}
use text.Mathlib.Text.{◌==◌}
use netunicorn.Common.Tests.{if◌then◌else◌}

-- `s + t`
abbrev pub concat : String → String → String
concat s t = text_append s t

-- The letters of a text, each as a text.
unfoldable pub letters : String → List String
letters no_letters = []
letters (add_letter c s) = (add_letter c no_letters) ∷ letters s

abbrev pub has_text : String → List String → Bool
has_text s [] = false
has_text s (t ∷ ts) = t == s || has_text s ts

module _ {ℓ} {V : Type ℓ} where
  unfoldable pub lookup : String → List (String × V) → Option V
  lookup key [] = none
  lookup key (entry ∷ entries) = if entry.0 == key then some entry.1 else lookup key entries

  -- `entries[key] = value`: a key that is there keeps its place.
  unfoldable pub insert : String → V → List (String × V) → List (String × V)
  insert key value [] = (key, value) ∷ []
  insert key value (entry ∷ entries) =
      if entry.0 == key then (key, value) ∷ entries else entry ∷ insert key value entries

  -- `entries.update(others)`
  unfoldable pub update : List (String × V) → List (String × V) → List (String × V)
  unfolding insert
  update entries [] = entries
  update entries ((key, value) ∷ others) = update (insert key value entries) others
