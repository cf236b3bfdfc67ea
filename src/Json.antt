-- ===== src/Json.antt =====
-- The JSON forms of the entities of netunicorn-base/src/netunicorn/base: `__json__` and `from_json` of
-- the classes, with UnicornEncoder of utils.py for sets and bytes. JSON stands as a tree, since the
-- text is the business of the json module. Python does not test the types of the values that
-- `from_json` reads; a value of another type than in types.py is refused here, as an exception.
pub mod Environments
pub mod Entities
pub mod RoundTrips
pub mod Shapes
pub mod Conforming
pub mod Pools
use netunicorn.Common.{
  ℕ, String, Bool, true, false, Option, none, some, List, [], ◌∷◌, ◌==◌, ◌≡◌, refl, arith, all,
  if◌then◌else◌,
}

mutual
  pub data Json : Type 0 where
    null : Json
    boolean : Bool → Json
    number : ℕ → Json
    decimal : String → Json
    text : String → Json
    array : Elements → Json
    object : Members → Json

  pub data Elements : Type 0 where
    no_elements : Elements
    element : Json → Elements → Elements

  pub data Members : Type 0 where
    no_members : Members
    member : String → Json → Members → Members

-- What the forms use of Python: `str` and `int` on numbers, and base64 on bytes. `none` is a
-- ValueError.
pub record Encoding : Type 0 where
  pub numeral : ℕ → String
  pub int_of : String → Option ℕ
  pub b64encode : String → String
  pub b64decode : String → Option String

infixl 5 ◌>>=◌
abbrev pub ◌>>=◌ {ℓ κ} : {A : Type ℓ} {B : Type κ} → Option A → (A → Option B) → Option B
none >>= f = none
some a >>= f = f a

-- `data[key]`; `none` is a KeyError.
abbrev pub get : String → Members → Option Json
get key no_members = none
get key (member k j ms) = if k == key then some j else get key ms

-- What `from_json` takes for a dictionary.
abbrev pub members_of : Json → Option Members
members_of (object ms) = some ms
members_of j = none

abbrev pub text_of : Json → Option String
text_of (text t) = some t
text_of j = none

abbrev pub boolean_of : Json → Option Bool
boolean_of (boolean b) = some b
boolean_of j = none

abbrev pub number_of : Json → Option ℕ
number_of (number n) = some n
number_of j = none

module _ {A : Type 0} where
  abbrev pub optional : (A → Json) → Option A → Json
  optional f none = null
  optional f (some a) = f a

  -- A value that may be None.
  abbrev pub optional_of : (Json → Option A) → Json → Option (Option A)
  optional_of g null = some none
  optional_of g j = g j >>= λ a. some (some a)

  abbrev pub elements : (A → Json) → List A → Elements
  elements f [] = no_elements
  elements f (x ∷ xs) = element (f x) (elements f xs)

  abbrev pub elements_of : (Json → Option A) → Elements → Option (List A)
  elements_of g no_elements = some []
  elements_of g (element j js) = g j >>= λ x. elements_of g js >>= λ xs. some (x ∷ xs)

  abbrev pub list_of : (Json → Option A) → Json → Option (List A)
  list_of g (array js) = elements_of g js
  list_of g j = none

  abbrev pub entries : (A → Json) → List (String × A) → Members
  entries f [] = no_members
  entries f (entry ∷ rest) = member entry.0 (f entry.1) (entries f rest)

  abbrev pub entries_of : (Json → Option A) → Members → Option (List (String × A))
  entries_of g no_members = some []
  entries_of g (member k j ms) = g j >>= λ x. entries_of g ms >>= λ xs. some ((k, x) ∷ xs)

  abbrev pub dict_of : (Json → Option A) → Json → Option (List (String × A))
  dict_of g (object ms) = entries_of g ms
  dict_of g j = none

  abbrev pub All : (A → Type 0) → List A → Type 0
  All P [] = Unit {0}
  All P (x ∷ xs) = P x × All P xs

  module _ (f : A → Json) (g : Json → Option A) (P : A → Type 0)
      (back : (x : A) → P x → g (f x) ≡ some x) where
    pub elements-back : (xs : List A) → All P xs → elements_of g (elements f xs) ≡ some xs
    elements-back [] h = refl
    elements-back (x ∷ xs) (h, hs) = rw (back x h, elements-back xs hs) refl

  pub entries-back :
      (f : A → Json) (g : Json → Option A)
      → ((x : A) → g (f x) ≡ some x)
      → (xs : List (String × A)) → entries_of g (entries f xs) ≡ some xs
  entries-back f g back [] = refl
  entries-back f g back (x ∷ xs) = rw (back x.1, entries-back f g back xs) refl

abbrev pub texts : List String → Json
texts ts = array (elements text ts)

abbrev pub texts_of : Json → Option (List String)
texts_of j = list_of text_of j

abbrev pub dict : List (String × String) → Json
dict entries_ = object (entries text entries_)

All-texts : (ts : List String) → All (λ t. Unit {0}) ts
All-texts [] = tt
All-texts (t ∷ ts) = (tt, All-texts ts)

pub texts-back : (ts : List String) → texts_of (texts ts) ≡ some ts
texts-back ts = elements-back text text_of (λ t. Unit {0}) (λ t u. refl) ts (All-texts ts)

pub dict-back : (es : List (String × String)) → dict_of text_of (dict es) ≡ some es
dict-back es = entries-back text text_of (λ t. refl) es
