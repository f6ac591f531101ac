-- ===== src/Ops/Trino.antt =====
-- The Trino client of the scripts (scripts/trino_http.py): settings, the splitting of a script, and
-- the poll loop. The HTTP session is a parameter that carries its own state; the pause between polls
-- is left out. The loop recurs on the polls left, and a run that exhausts them has no result.
pub mod Replies
pub mod Runs
pub mod Split
use payments_data_platform.Base.{
  ℕ, zero, suc, String, Bool, true, false, not, Option, none, some, List, [], ◌∷◌, ◌++◌, filter,
  leb, ◌&&◌, Result, ok, err, ◌>>=◌, if◌then◌else◌,
}
use payments_data_platform.Medallion.Settings.{env_get}
use payments_data_platform.Ops.Text.{
  splitlines, split_at, strip, is_empty, starts_with, join, isdigit,
}

-- What is raised: by the settings, by `requests`, by `raise_for_status`, by `json()`, and by
-- `raise_for_query_error` with the error's name and message.
pub data Failure : Type 0 where
  bad_port : String → Failure
  request_failed : Failure
  http_status : ℕ → Failure
  not_json : Failure
  query_failed : String → String → Failure

pub record TrinoSettings : Type 0 where
  pub host : String
  pub port : String
  pub user : String
  pub catalog : String
  pub schema : String

abbrev pub defaults : List (String × String) → TrinoSettings
defaults env = record {
  host = env_get env "TRINO_HTTP_HOST" "trino";
  port = env_get env "TRINO_HTTP_PORT" "8080";
  user = env_get env "TRINO_USER" "airflow";
  catalog = env_get env "TRINO_CATALOG" "iceberg";
  schema = env_get env "TRINO_SCHEMA" "analytics";
}

unfoldable pub settings : List (String × String) → Result Failure TrinoSettings
unfolding env_get isdigit
settings env =
    let resolved = defaults env in
    if not (isdigit resolved.port) then err (bad_port resolved.port) else ok resolved

unfoldable pub statement_url : List (String × String) → Result Failure String
unfolding settings join
statement_url env = settings env >>= λ resolved.
    ok (join "" ("http://" ∷ resolved.host ∷ ":" ∷ resolved.port ∷ "/v1/statement" ∷ []))

unfoldable pub request_headers : List (String × String) → Result Failure (List (String × String))
unfolding settings
request_headers env = settings env >>= λ resolved. ok (
    ("X-Trino-User", resolved.user)
    ∷ ("X-Trino-Catalog", resolved.catalog)
    ∷ ("X-Trino-Schema", resolved.schema)
    ∷ [])

-- `line.strip() and not line.strip().startswith("--")`
abbrev pub is_code : String → Bool
is_code line = not (is_empty (strip line)) && not (starts_with "--" (strip line))

abbrev pub statement_of : List String → List String
statement_of [] = []
statement_of (l ∷ ls) = strip (join "\n" (l ∷ ls)) ∷ []

unfoldable pub statements_of : List String → List String
unfolding splitlines strip starts_with join
statements_of [] = []
statements_of (chunk ∷ chunks) =
    statement_of (filter is_code (splitlines chunk)) ++ statements_of chunks

-- 59 is the semicolon.
unfoldable pub split_statements : String → List String
unfolding statements_of split_at
split_statements script = statements_of (split_at 59 script)

-- The parts of Trino's answer that the client reads; an error is a JSON object, and `[]` none.
pub record Page (R : Type 0) : Type 0 where
  pub next_uri : Option String
  pub rows : Option (List R)
  pub error : List (String × String)

-- What a request gives: a status and the body's page (`none` for a body that is no JSON), or an
-- exception.
pub data Reply (R : Type 0) : Type 0 where
  response : ℕ → Option (Page R) → Reply R
  exception : Reply R

pub record Session (S R : Type 0) : Type 0 where
  pub post : String → String → List (String × String) → S → Reply R × S
  pub get : String → S → Reply R × S

-- What a run leaves: its result, `none` if the polls ran out, and the session's state.
abbrev pub Outcome : Type 0 → Type 0 → Type 0
Outcome S A = Option (Result Failure A) × S

-- `page.get("nextUri")`, where an empty text counts as none.
abbrev pub truthy_uri : Option String → Option String
truthy_uri none = none
truthy_uri (some uri) = if is_empty uri then none else some uri

module _ {R : Type 0} where
  -- `page.get("data") or []`
  abbrev pub rows_of : Option (List R) → List R
  rows_of none = []
  rows_of (some rs) = rs

  unfoldable pub collect_rows : List (Page R) → List R
  collect_rows [] = []
  collect_rows (page ∷ pages) = rows_of page.rows ++ collect_rows pages

  abbrev pub raised_by : List (String × String) → Page R → Result Failure (Page R)
  raised_by [] page = ok page
  raised_by (e ∷ es) page = err (
      query_failed (env_get (e ∷ es) "errorName" "")
        (env_get (e ∷ es) "message" "unknown Trino error"))

  unfoldable pub raise_for_query_error : Page R → Result Failure (Page R)
  unfolding env_get
  raise_for_query_error page = raised_by page.error page

  abbrev pub body_of : Option (Page R) → Result Failure (Page R)
  body_of none = err not_json
  body_of (some page) = ok page

  -- `raise_for_status`, `json()` and `raise_for_query_error`, in this order.
  unfoldable pub answer : Reply R → Result Failure (Page R)
  unfolding raise_for_query_error
  answer exception = err request_failed
  answer (response status body) =
      if leb 400 status
      then err (http_status status)
      else (body_of body >>= λ page. raise_for_query_error page)

module _ {S R : Type 0} where
  abbrev pub with_page : Page R → Outcome S (List (Page R)) → Outcome S (List (Page R))
  with_page page (some (ok pages), s) = (some (ok (page ∷ pages)), s)
  with_page page (some (err e), s) = (some (err e), s)
  with_page page (none, s) = (none, s)

  abbrev pub go_on :
      Result Failure (Page R) → S → (Page R → Outcome S (List (Page R))) → Outcome S (List (Page R))
  go_on (err e) s rest = (some (err e), s)
  go_on (ok page) s rest = with_page page (rest page)

  abbrev pub rows_of_pages : Outcome S (List (Page R)) → Outcome S (List R)
  rows_of_pages (some (ok pages), s) = (some (ok (collect_rows pages)), s)
  rows_of_pages (some (err e), s) = (some (err e), s)
  rows_of_pages (none, s) = (none, s)

  abbrev pub unless_failed : Outcome S (List R) → (S → Outcome S (Unit {0})) → Outcome S (Unit {0})
  unless_failed (some (ok rows), s) rest = rest s
  unless_failed (some (err e), s) rest = (some (err e), s)
  unless_failed (none, s) rest = (none, s)

  module _ (http : Session S R) where
    -- `while page.get("nextUri")`: the pages after one with this `nextUri`.
    unfoldable pub poll : ℕ → Option String → S → Outcome S (List (Page R))
    unfolding answer
    poll fuel none s = (some (ok []), s)
    poll zero (some uri) s = (none, s)
    poll (suc fuel) (some uri) s =
        let r = Session.get http uri s in
        go_on (answer r.0) r.1 (λ page. poll fuel (truthy_uri page.next_uri) r.1)

    abbrev pub posted :
        Result Failure String
        → Result Failure (List (String × String))
        → String
        → S
        → Result Failure (Page R) × S
    posted (err e) headers sql s = (err e, s)
    posted (ok url) (err e) sql s = (err e, s)
    posted (ok url) (ok headers) sql s =
        let r = Session.post http url sql headers s in (answer r.0, r.1)

    -- The POST, whose page is the first.
    unfoldable pub first_page : String → List (String × String) → S → Result Failure (Page R) × S
    unfolding statement_url request_headers answer
    first_page sql env s = posted (statement_url env) (request_headers env) sql s

    unfoldable pub run_statement : ℕ → String → List (String × String) → S → Outcome S (List R)
    unfolding poll collect_rows first_page
    run_statement fuel sql env s =
        let p = first_page sql env s in
        rows_of_pages (go_on p.0 p.1 (λ page. poll fuel (truthy_uri page.next_uri) p.1))

    unfoldable pub run_statements :
        ℕ → List String → List (String × String) → S → Outcome S (Unit {0})
    unfolding run_statement
    run_statements fuel [] env s = (some (ok tt), s)
    run_statements fuel (sql ∷ sqls) env s =
        unless_failed (run_statement fuel sql env s) (λ s'. run_statements fuel sqls env s')

    unfoldable pub run_script : ℕ → String → List (String × String) → S → Outcome S (Unit {0})
    unfolding run_statements split_statements
    run_script fuel script env s = run_statements fuel (split_statements script) env s
