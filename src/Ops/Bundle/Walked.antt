-- ===== src/Ops/Bundle/Walked.antt =====
-- Where an entry stands in a YAML document, whatever order `walk` takes, and that `walk` misses none.
use payments_data_platform.Base.{◌↔◌, String, List, [], ◌∷◌, ◌++◌, All, All-append}
use payments_data_platform.Ops.Bundle.{
  Yaml, text, plain, mapping, sequence, Entries, end, entry, Items, nil, item, walk, walk_entries,
  walk_items,
}

-- A text stands under a key at some depth of a document, of a mapping or of a sequence.
mutual
  pub data Occurs (key value : String) : Yaml → Type 0 where
    in_mapping : {es : Entries} → Field key value es → Occurs key value (mapping es)
    in_sequence : {xs : Items} → Element key value xs → Occurs key value (sequence xs)

  pub data Field (key value : String) : Entries → Type 0 where
    here : {es : Entries} → Field key value (entry key (text value) es)
    below :
        {k : String} {v : Yaml} {es : Entries} → Occurs key value v → Field key value (entry k v es)
    later :
        {k : String} {v : Yaml} {es : Entries} → Field key value es → Field key value (entry k v es)

  pub data Element (key value : String) : Items → Type 0 where
    first : {x : Yaml} {xs : Items} → Occurs key value x → Element key value (item x xs)
    other : {x : Yaml} {xs : Items} → Element key value xs → Element key value (item x xs)

All-split :
    (P : String × String → Type 0) (xs ys : List (String × String))
    → All P (xs ++ ys)
    → All P xs × All P ys
All-split P [] ys h = (tt, h)
All-split P (x ∷ xs) ys h = let (l, r) = All-split P xs ys h.1 in ((h.0, l), r)

module _ (P : String × String → Type 0) where
  mutual
    unfolding walk

    at_occurs :
        (key value : String) (v : Yaml) → All P (walk v) → Occurs key value v → P (key, value)
    at_occurs key value (text _) h o = elim o [ ]
    at_occurs key value (plain _) h o = elim o [ ]
    at_occurs key value (mapping es) h (in_mapping f) = at_field key value es h f
    at_occurs key value (sequence xs) h (in_sequence e) = at_element key value xs h e

    at_field :
        (key value : String) (es : Entries)
        → All P (walk_entries es)
        → Field key value es
        → P (key, value)
    at_field key value end h f = elim f [ ]
    at_field key value (entry k (text s) es) h (below o) = elim o [ ]
    at_field key value (entry k (plain b) es) h (below o) = elim o [ ]
    at_field key value (entry _ (text _) es) h here = h.0
    at_field key value (entry k (text s) es) h (later f) = at_field key value es h.1 f
    at_field key value (entry k (plain b) es) h (later f) = at_field key value es h f
    at_field key value (entry k (mapping fs) es) h (below o) =
        at_occurs key value (mapping fs) (All-split P (walk_entries fs) (walk_entries es) h).0 o
    at_field key value (entry k (mapping fs) es) h (later f) =
        at_field key value es (All-split P (walk_entries fs) (walk_entries es) h).1 f
    at_field key value (entry k (sequence xs) es) h (below o) =
        at_occurs key value (sequence xs) (All-split P (walk_items xs) (walk_entries es) h).0 o
    at_field key value (entry k (sequence xs) es) h (later f) =
        at_field key value es (All-split P (walk_items xs) (walk_entries es) h).1 f

    at_element :
        (key value : String) (xs : Items)
        → All P (walk_items xs)
        → Element key value xs
        → P (key, value)
    at_element key value nil h e = elim e [ ]
    at_element key value (item x xs) h (first o) =
        at_occurs key value x (All-split P (walk x) (walk_items xs) h).0 o
    at_element key value (item x xs) h (other e) =
        at_element key value xs (All-split P (walk x) (walk_items xs) h).1 e

  mutual
    unfolding walk

    whole_document :
        (v : Yaml) → ((key value : String) → Occurs key value v → P (key, value)) → All P (walk v)
    whole_document (text s) h = tt
    whole_document (plain b) h = tt
    whole_document (mapping es) h = whole_mapping es (λ key value f. h key value (in_mapping f))
    whole_document (sequence xs) h = whole_sequence xs (λ key value e. h key value (in_sequence e))

    whole_mapping :
        (es : Entries)
        → ((key value : String) → Field key value es → P (key, value))
        → All P (walk_entries es)
    whole_mapping end h = tt
    whole_mapping (entry k (text s) es) h =
        (h k s here, whole_mapping es (λ key value f. h key value (later f)))
    whole_mapping (entry k (plain b) es) h = whole_mapping es (λ key value f. h key value (later f))
    whole_mapping (entry k (mapping fs) es) h =
        All-append P (walk_entries fs) (walk_entries es)
          (whole_mapping fs (λ key value f. h key value (below (in_mapping f))))
          (whole_mapping es (λ key value f. h key value (later f)))
    whole_mapping (entry k (sequence xs) es) h =
        All-append P (walk_items xs) (walk_entries es)
          (whole_sequence xs (λ key value e. h key value (below (in_sequence e))))
          (whole_mapping es (λ key value f. h key value (later f)))

    whole_sequence :
        (xs : Items)
        → ((key value : String) → Element key value xs → P (key, value))
        → All P (walk_items xs)
    whole_sequence nil h = tt
    whole_sequence (item x xs) h =
        All-append P (walk x) (walk_items xs)
          (whole_document x (λ key value o. h key value (first o)))
          (whole_sequence xs (λ key value e. h key value (other e)))

  -- Something holds of all that `walk` yields exactly where it holds of every entry of the document.
  pub walk-Field :
      (es : Entries)
      → All P (walk_entries es) ↔ ((key value : String) → Field key value es → P (key, value))
  walk-Field es = (λ h key value f. at_field key value es h f, whole_mapping es)
