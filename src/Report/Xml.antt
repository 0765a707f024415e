-- ===== src/Report/Xml.antt =====
-- The XML library, as src/report/junit.rs and src/framework/vitest.rs use it: documents are rendered from
-- written events, and read as events.
use Prim.Native.Char.{Char, code}
use offload.Base.{
  is_some, String, ◌≡◌, refl, ap, ◌∙◌, Bool, true, false, not, ◌&&◌, ◌||◌, Option, none, some, List,
  [], ◌∷◌, ◌++◌, map, leb, is_some, ◌==◌, comparable_number, comparable_text, eq_self, contains,
}
use offload.Report.Reader.{Event, start, empty, text, general_ref, end, other, Attributes, Decoding}
use offload.Report.Rereading.{SameText}

-- Attribute values are normalised on the way, and times rounded to the digits that are printed.
pub record XmlLibrary (D : Decoding) : Type 1 where
  pub Document : Type 0
  pub render : List Event → Document
  pub read : Document → List Event
  pub normalized : String → String
  pub rounded : D.F64 → D.F64

abbrev pub reread_attrs : (String → String) → Attributes → Attributes
reread_attrs f [] = []
reread_attrs f ((k, none) ∷ attrs) = (k, none) ∷ reread_attrs f attrs
reread_attrs f ((k, some v) ∷ attrs) = (k, some (f v)) ∷ reread_attrs f attrs

abbrev pub reread : (String → String) → Event → Event
reread f (start tag attrs) = start tag (reread_attrs f attrs)
reread f (empty tag attrs) = empty tag (reread_attrs f attrs)
reread f (text t) = text t
reread f (general_ref ch name) = general_ref ch name
reread f (end tag) = end tag
reread f other = other

abbrev is_letter : Char → Bool
is_letter c = (leb b'a' (code c) && leb (code c) b'z') || (leb b'A' (code c) && leb (code c) b'Z')

unfoldable pub are_letters : String → Bool
are_letters String.[] = true
are_letters (String.◌∷◌ c s) = is_letter c && are_letters s

-- Names of elements and attributes: of XML's names, those of letters only.
unfoldable pub is_name : String → Bool
unfolding are_letters
is_name s = not (s == "") && are_letters s

abbrev pub are_attributes : Attributes → Bool
are_attributes [] = true
are_attributes ((k, v) ∷ attrs) =
    is_name k && is_some v && not (contains k (map (λ a. a.0) attrs)) && are_attributes attrs

abbrev only_if : Bool → Option (List String) → Option (List String)
only_if true opened = opened
only_if false opened = none

-- The elements that are open after the events, the innermost first, if these close what they open, have
-- proper names, repeat no attribute, and are such as can be written.
unfoldable pub open_after : List Event → List String → Option (List String)
open_after [] opened = some opened
open_after (start tag attrs ∷ es) opened =
    only_if (is_name tag && are_attributes attrs) (open_after es (tag ∷ opened))
open_after (empty tag attrs ∷ es) opened =
    only_if (is_name tag && are_attributes attrs) (open_after es opened)
open_after (text none ∷ es) opened = none
open_after (text (some t) ∷ es) opened = open_after es opened
open_after (general_ref ch name ∷ es) opened = none
open_after (end tag ∷ es) [] = none
open_after (end tag ∷ es) (t ∷ opened) = only_if (tag == t) (open_after es opened)
open_after (other ∷ es) opened = open_after es opened

-- A document in which every element is closed.
abbrev pub IsWellFormed : List Event → Type 0
IsWellFormed es = open_after es [] ≡ some []

-- A well-formed document is read as it was written, but that attribute values are normalised and that
-- texts may be divided.
pub record IsFaithful {D : Decoding} (X : XmlLibrary D) : Type 0 where
  pub read-render :
      (es : List Event)
      → IsWellFormed es
      → SameText D (X.read (X.render es)) (map (reread X.normalized) es)

-- Events that leave the open elements as they are.
abbrev pub IsBalanced : List Event → Type 0
IsBalanced es = (opened : List String) → open_after es opened ≡ some opened

abbrev go_on : List Event → Option (List String) → Option (List String)
go_on fs none = none
go_on fs (some opened) = open_after fs opened

only_if-go_on :
    (fs : List Event) (b : Bool) (x y : Option (List String))
    → y ≡ go_on fs x
    → only_if b y ≡ go_on fs (only_if b x)
only_if-go_on fs true x y h = h
only_if-go_on fs false x y h = refl

open_after-append :
    (es fs : List Event) (opened : List String)
    → open_after (es ++ fs) opened ≡ go_on fs (open_after es opened)
unfolding open_after
open_after-append [] fs opened = refl
open_after-append (start tag attrs ∷ es) fs opened =
    only_if-go_on fs (is_name tag && are_attributes attrs) _ _
      (open_after-append es fs (tag ∷ opened))
open_after-append (empty tag attrs ∷ es) fs opened =
    only_if-go_on fs (is_name tag && are_attributes attrs) _ _ (open_after-append es fs opened)
open_after-append (text none ∷ es) fs opened = refl
open_after-append (text (some t) ∷ es) fs opened = open_after-append es fs opened
open_after-append (general_ref ch name ∷ es) fs opened = refl
open_after-append (end tag ∷ es) fs [] = refl
open_after-append (end tag ∷ es) fs (t ∷ opened) =
    only_if-go_on fs (tag == t) _ _ (open_after-append es fs opened)
open_after-append (other ∷ es) fs opened = open_after-append es fs opened

pub append-IsBalanced : (es fs : List Event) → IsBalanced es → IsBalanced fs → IsBalanced (es ++ fs)
append-IsBalanced es fs h k opened =
    open_after-append es fs opened ∙ ap (go_on fs) (h opened) ∙ k opened

pub element-IsBalanced :
    (tag : String) (attrs : Attributes) (es fs : List Event)
    → (is_name tag && are_attributes attrs) ≡ true
    → IsBalanced es
    → IsBalanced fs
    → IsBalanced (start tag attrs ∷ (es ++ end tag ∷ fs))
unfolding open_after
element-IsBalanced tag attrs es fs d h k opened = rw d (
    open_after-append es (end tag ∷ fs) (tag ∷ opened)
    ∙ ap (go_on (end tag ∷ fs)) (h (tag ∷ opened))
    ∙ rw (eq_self tag) (k opened))
