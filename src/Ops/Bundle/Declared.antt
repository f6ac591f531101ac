-- ===== src/Ops/Bundle/Declared.antt =====
-- Which resources the documents of a bundle declare, found by looking through their mappings, and that
-- the set which `check_references` collects has the same.
use payments_data_platform.Base.{
  ◌≡◌, refl, ◌∙◌, String, Bool, false, Option, some, List, [], ◌∷◌, ◌++◌, str_eq, ◌&&◌, ◌||◌, arith,
}
use payments_data_platform.Ops.Bundle.{
  Yaml, text, plain, mapping, sequence, Entries, end, entry, get, names_of, kind_names, kinds_names,
  has_pair,
}

-- A mapping has the key.
abbrev pub has_name : String → Entries → Bool
has_name name end = false
has_name name (entry k v es) = str_eq k name || has_name name es

abbrev pub names : String → Yaml → Bool
names name (mapping es) = has_name name es
names name _ = false

abbrev pub has_resource : String × String → Entries → Bool
has_resource r end = false
has_resource r (entry kind v es) = (str_eq kind r.0 && names r.1 v) || has_resource r es

abbrev pub resources_of : Option Yaml → Entries
resources_of (some (mapping es)) = es
resources_of _ = end

module _ {P : Type 0} where
  -- Some document declares the resource of that kind and name.
  unfoldable pub declares : List (P × Entries) → String × String → Bool
  unfolding get
  declares [] r = false
  declares (d ∷ ds) r = has_resource r (resources_of (get "resources" d.1)) || declares ds r

pub has_pair-append :
    (xs ys : List (String × String)) (r : String × String)
    → has_pair (xs ++ ys) r ≡ (has_pair xs r || has_pair ys r)
unfolding has_pair
has_pair-append [] ys r = refl
has_pair-append (x ∷ xs) ys r = grind (arith, has_pair-append xs ys r)

has_pair-names_of :
    (kind : String) (es : Entries) (r : String × String)
    → has_pair (names_of kind es) r ≡ (str_eq kind r.0 && has_name r.1 es)
unfolding has_pair
has_pair-names_of kind end r = ground arith
has_pair-names_of kind (entry k v es) r = grind (arith, has_pair-names_of kind es r)

has_pair-kind_names :
    (kind : String) (v : Yaml) (r : String × String)
    → has_pair (kind_names kind v) r ≡ (str_eq kind r.0 && names r.1 v)
unfolding has_pair
has_pair-kind_names kind (mapping es) r = has_pair-names_of kind es r
has_pair-kind_names kind (text s) r = ground arith
has_pair-kind_names kind (plain b) r = ground arith
has_pair-kind_names kind (sequence xs) r = ground arith

pub has_pair-kinds_names :
    (es : Entries) (r : String × String) → has_pair (kinds_names es) r ≡ has_resource r es
unfolding has_pair
has_pair-kinds_names end r = refl
has_pair-kinds_names (entry kind v es) r =
    has_pair-append (kind_names kind v) (kinds_names es) r
    ∙ rw (has_pair-kind_names kind v r, has_pair-kinds_names es r) refl
