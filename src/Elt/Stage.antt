-- ===== src/Elt/Stage.antt =====
-- Staging to S3 (snowflake_etl/src/stage_to_s3.py): records become parts of bounded length under the
-- prefix of their run. JSON, the clock and the S3 client are parameters.
pub mod Chunks
pub mod Staged
pub mod RunId
pub mod Command
use payments_data_platform.Base.{
  ℕ, zero, suc, ◌+◌, String, Bool, true, false, List, [], ◌∷◌, map, ltb, length, Result, ok, err,
  if◌then◌else◌, ◌-◌, ◌==◌, leb, ◌&&◌, ◌||◌, ◌>>=◌,
}
use payments_data_platform.Base.{◌++◌ as append}
use Prim.Native.String.{◌++◌, len}
use Prim.Native.Char.{Char, code}
use payments_data_platform.Base.Decimal.{decimal}

-- A part: its lines. `encoded` gives its bytes, `length` its row count.
abbrev pub Part : Type 0
Part = List String

-- `"\n".join(lines) + "\n"`
pub encoded : Part → String
encoded [] = "\n"
encoded (line ∷ []) = line ++ "\n"
encoded (line ∷ next ∷ lines) = line ++ "\n" ++ encoded (next ∷ lines)

-- What a generator gives: the parts it yields, and whether it ends or raises.
pub record Yields : Type 0 where
  pub parts : List Part
  pub ending : Result String (Unit {0})

abbrev pub yield_first : Part → Yields → Yields
yield_first p y = record y { parts = p ∷ y.parts }

-- After the loop: the lines that are left.
abbrev pub last_part : Part → Yields
last_part [] = record { parts = []; ending = ok tt }
last_part (line ∷ lines) = record { parts = (line ∷ lines) ∷ []; ending = ok tt }

-- One turn of the loop: `then_full` and `then_short` are the rest of the loop from no lines and from
-- the lines with the new one.
abbrev pub after_line : ℕ → Part → Yields → Yields → Yields
after_line chunk_rows lines then_full then_short =
    if ltb (length lines) chunk_rows then then_short else yield_first lines then_full

module _ {R : Type 0} (dumps : R → Result String String) where
  unfoldable pub chunk_loop : ℕ → Part → List R → Yields
  chunk_loop chunk_rows lines [] = last_part lines
  chunk_loop chunk_rows lines (r ∷ rs) = elim (dumps r) [
    | err e ↦ record { parts = []; ending = err e }
    | ok line ↦
        after_line chunk_rows (append lines (line ∷ [])) (chunk_loop chunk_rows [] rs)
          (chunk_loop chunk_rows (append lines (line ∷ [])) rs)
  ]

  unfoldable pub iter_jsonl_chunks : ℕ → List R → Yields
  unfolding chunk_loop
  iter_jsonl_chunks chunk_rows records =
      if ltb chunk_rows 1
      then record { parts = []; ending = err "chunk_rows must be at least 1" }
      else chunk_loop chunk_rows [] records

-- `[A-Za-z0-9_-]`
pub is_usable : Char → Bool
is_usable c =
    (leb 65 (code c) && leb (code c) 90)
    || (leb 97 (code c) && leb (code c) 122)
    || (leb 48 (code c) && leb (code c) 57)
    || (code c == 95)
    || (code c == 45)

abbrev pub is_dash : Char → Bool
is_dash c = code c == 45

-- `re.sub(r"[^A-Za-z0-9_-]+", "-", text)`: one dash for each run of other characters. The flag says
-- that the character before was one of them.
pub sub_runs : Bool → String → String
unfolding is_usable
sub_runs in_run String.[] = ""
sub_runs in_run (String.◌∷◌ c s) =
    let after_usable = sub_runs false s in
    let after_other = sub_runs true s in
    if is_usable c
    then String.◌∷◌ c after_usable
    else if in_run
    then after_other
    else String.◌∷◌ "-" after_other

-- `strip("-")`, from the left and from the right.
pub strip_left : String → String
strip_left String.[] = ""
strip_left (String.◌∷◌ c s) = if is_dash c then strip_left s else String.◌∷◌ c s

abbrev pub put_before : Char → String → String
put_before c String.[] = if is_dash c then "" else String.◌∷◌ c ""
put_before c (String.◌∷◌ d s) = String.◌∷◌ c (String.◌∷◌ d s)

pub strip_right : String → String
strip_right String.[] = ""
strip_right (String.◌∷◌ c s) = put_before c (strip_right s)

abbrev pub unless_blank : String → String → Result String String
unless_blank run_id String.[] = err ("run_id '" ++ run_id ++ "' has no usable characters")
unless_blank run_id (String.◌∷◌ c s) = ok (String.◌∷◌ c s)

unfoldable pub sanitize_run_id : String → Result String String
unfolding sub_runs strip_left strip_right
sanitize_run_id run_id = unless_blank run_id (strip_right (strip_left (sub_runs false run_id)))

-- The prefix, given the cleaned id of its run and the date in ISO form.
unfoldable pub snapshot_prefix : String → String → String → String → String
snapshot_prefix prefix dataset run_date cleaned =
    prefix ++ "/" ++ dataset ++ "/dt=" ++ run_date ++ "/run=" ++ cleaned ++ "/"

unfoldable pub zeros : ℕ → String
zeros zero = ""
zeros (suc n) = "0" ++ zeros n

-- `f"{key_prefix}part-{n:05d}.jsonl"`
unfoldable pub part_key : String → ℕ → String
unfolding zeros
part_key key_prefix n =
    key_prefix ++ "part-" ++ zeros (5 - len (decimal n)) ++ decimal n ++ ".jsonl"

pub record StagedSnapshot : Type 0 where
  pub dataset : String
  pub run_id : String
  pub run_date : String
  pub prefix : String
  pub parts : List String
  pub row_count : ℕ

abbrev pub part_count : StagedSnapshot → ℕ
part_count s = length s.parts

pub record S3 (W : Type 0) : Type 0 where
  -- bucket, key, body
  pub put_object : String → String → String → W → Result String W

abbrev pub total_rows : List Part → ℕ
total_rows [] = 0
total_rows (p ∷ ps) = length p + total_rows ps

module _ {W : Type 0} (c : S3 W) where
  open c use {put_object}

  -- The loop of `stage_dataset`: the keys of the parts that are written, the first numbered `n`. The
  -- generator's exception comes after its last part.
  unfoldable pub put_parts :
      String
      → String
      → ℕ
      → List Part
      → Result String (Unit {0})
      → W
      → Result String (List String × W)
  unfolding part_key encoded
  put_parts bucket key_prefix n [] ending w = ending >>= λ u. ok ([], w)
  put_parts bucket key_prefix n (p ∷ ps) ending w =
      put_object bucket (part_key key_prefix n) (encoded p) w >>= λ v.
      put_parts bucket key_prefix (suc n) ps ending v >>= λ (keys, u).
      ok (part_key key_prefix n ∷ keys, u)

  -- An empty extract still writes one part.
  unfoldable pub or_empty_part : String → String → List String × W → Result String (List String × W)
  unfolding part_key
  or_empty_part bucket key_prefix ([], w) =
      put_object bucket (part_key key_prefix 1) "" w >>= λ v. ok (part_key key_prefix 1 ∷ [], v)
  or_empty_part bucket key_prefix (key ∷ keys, w) = ok (key ∷ keys, w)

module _ {R W : Type 0} (dumps : R → Result String String) (c : S3 W) where
  unfoldable pub stage_dataset :
      String
      → String
      → List R
      → String
      → String
      → String
      → ℕ
      → W
      → Result String (StagedSnapshot × W)
  unfolding sanitize_run_id snapshot_prefix iter_jsonl_chunks put_parts or_empty_part
  stage_dataset bucket dataset records run_id run_date prefix chunk_rows w =
      sanitize_run_id run_id >>= λ cleaned.
      let key_prefix = snapshot_prefix prefix dataset run_date cleaned in
      let y = iter_jsonl_chunks dumps chunk_rows records in
      put_parts c bucket key_prefix 1 y.parts y.ending w
      >>= or_empty_part c bucket key_prefix
      >>= λ (keys, v). ok (
        record {
          dataset = dataset;
          run_id = cleaned;
          run_date = run_date;
          prefix = key_prefix;
          parts = keys;
          row_count = total_rows y.parts;
        },
        v,
      )
