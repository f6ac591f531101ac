-- ===== src/Ops/Bundle.antt =====
-- scripts/validate_databricks_bundle.py on parsed YAML. A parsed document is a tree; a scalar that is no text
-- is kept by its truth value, and keys are texts. The files, `glob`, `resolve`, the YAML parser and
-- the regular expression are parameters.
pub mod Checks
pub mod Walked
pub mod Declared
pub mod Structural
use payments_data_platform.Base.{
  String, Bool, true, false, not, Option, none, some, List, [], ◌∷◌, ◌++◌, filter, any, map, str_eq,
  ◌&&◌, Result, ok, err, ◌>>=◌, if◌then◌else◌,
}
use payments_data_platform.Base.Order.{text_lt}
use payments_data_platform.Base.Sort.{sorted}
use payments_data_platform.Medallion.Rules.{contains}
use payments_data_platform.Ops.Text.{starts_with, is_empty}

mutual
  pub data Yaml : Type 0 where
    text : String → Yaml
    plain : Bool → Yaml
    mapping : Entries → Yaml
    sequence : Items → Yaml

  pub data Entries : Type 0 where
    end : Entries
    entry : String → Yaml → Entries → Entries

  pub data Items : Type 0 where
    nil : Items
    item : Yaml → Items → Items

-- What `walk` yields, in its order.
unfoldable mutual
  pub walk : Yaml → List (String × String)
  walk (text s) = []
  walk (plain b) = []
  walk (mapping es) = walk_entries es
  walk (sequence xs) = walk_items xs

  pub walk_entries : Entries → List (String × String)
  walk_entries end = []
  walk_entries (entry key (text value) es) = (key, value) ∷ walk_entries es
  walk_entries (entry key (plain b) es) = walk_entries es
  walk_entries (entry key (mapping fs) es) = walk_entries fs ++ walk_entries es
  walk_entries (entry key (sequence xs) es) = walk_items xs ++ walk_entries es

  pub walk_items : Items → List (String × String)
  walk_items nil = []
  walk_items (item x xs) = walk x ++ walk_items xs

pub data BundleError : Type 0 where
  missing_resources : String → BundleError
  missing_path : String → String → String → BundleError
  undeclared : String → String → String → BundleError

-- The exit of `main` or of what it calls, or another exception.
pub data Failure : Type 0 where
  no_bundle_file : Failure
  not_a_mapping : String → Failure
  no_bundle_name : Failure
  no_targets : Failure
  many_defaults : List String → Failure
  no_match : String → Failure
  invalid : List BundleError → Failure
  raised : Failure

pub record Checkout (P : Type 0) : Type 0 where
  pub bundle_file : P
  pub is_file : P → Bool
  pub read : P → Result Failure Yaml
  pub sorted_glob : String → Result Failure (List P)
  pub path_eq : P → P → Bool
  pub name : P → String
  pub resolve : P → String → P
  pub findall : String → String → List (String × String)

unfoldable pub get : String → Entries → Option Yaml
get key end = none
get key (entry k v es) = if str_eq key k then some v else get key es

abbrev pub or_empty_text : String → Result Failure Entries
or_empty_text s = if is_empty s then ok end else err raised

-- `(value or {})` where a mapping's method is called on it: AttributeError on what is no mapping.
abbrev pub or_empty : Option Yaml → Result Failure Entries
or_empty none = ok end
or_empty (some (text s)) = or_empty_text s
or_empty (some (plain b)) = if b then err raised else ok end
or_empty (some (mapping es)) = ok es
or_empty (some (sequence nil)) = ok end
or_empty (some (sequence (item x xs))) = err raised

abbrev pub truthy : Option Yaml → Bool
truthy none = false
truthy (some (text s)) = not (is_empty s)
truthy (some (plain b)) = b
truthy (some (mapping end)) = false
truthy (some (mapping (entry k v es))) = true
truthy (some (sequence nil)) = false
truthy (some (sequence (item x xs))) = true

abbrev pub path_keys : List String
path_keys = "notebook_path" ∷ "path" ∷ []

abbrev pub reference_pattern : String
reference_pattern = "\\$\\{resources\\.([a-z_]+)\\.([A-Za-z0-9_]+)\\.[A-Za-z0-9_.]+\\}"

abbrev pub is_mapping : Option Yaml → Bool
is_mapping (some (mapping es)) = true
is_mapping _ = false

abbrev pub names_of : String → Entries → List (String × String)
names_of kind end = []
names_of kind (entry name v es) = (kind, name) ∷ names_of kind es

-- The pairs that one kind of a document's `resources` adds; what is no mapping adds none.
abbrev pub kind_names : String → Yaml → List (String × String)
kind_names kind (mapping es) = names_of kind es
kind_names kind _ = []

abbrev pub kinds_names : Entries → List (String × String)
kinds_names end = []
kinds_names (entry kind v es) = kind_names kind v ++ kinds_names es

unfoldable pub has_pair : List (String × String) → String × String → Bool
has_pair declared r = any (λ d. str_eq d.0 r.0 && str_eq d.1 r.1) declared

abbrev pub characters : String → List (Option String)
characters String.[] = []
characters (String.◌∷◌ c s) = some (String.◌∷◌ c "") ∷ characters s

abbrev pub key_patterns : Entries → List (Option String)
key_patterns end = []
key_patterns (entry k v es) = some k ∷ key_patterns es

abbrev pub text_of : Yaml → Option String
text_of (text s) = some s
text_of _ = none

abbrev pub item_patterns : Items → List (Option String)
item_patterns nil = []
item_patterns (item x xs) = text_of x ∷ item_patterns xs

-- What iterating over `bundle.get("include", [])` yields, `none` being no text.
abbrev pub patterns : Option Yaml → Result Failure (List (Option String))
patterns none = ok []
patterns (some (text s)) = ok (characters s)
patterns (some (plain b)) = err raised
patterns (some (mapping es)) = ok (key_patterns es)
patterns (some (sequence xs)) = ok (item_patterns xs)

abbrev pub as_mapping : String → Yaml → Result Failure Entries
as_mapping path (mapping es) = ok es
as_mapping path _ = err (not_a_mapping path)

abbrev pub default_names : Entries → Result Failure (List String)
default_names end = ok []
default_names (entry name spec es) = or_empty (some spec) >>= λ fields.
    default_names es >>= λ rest. ok (if truthy (get "default" fields) then name ∷ rest else rest)

abbrev pub at_most_one : List String → Result Failure (Unit {0})
at_most_one [] = ok tt
at_most_one (d ∷ []) = ok tt
at_most_one (d ∷ e ∷ ds) = err (many_defaults (sorted text_lt (d ∷ e ∷ ds)))
