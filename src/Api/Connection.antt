-- ===== src/Api/Connection.antt =====
-- The API's Trino connection (api/src/trino_client.py): its settings, and a statement on a cursor.
-- The driver is a parameter that carries its own state.
use payments_data_platform.Base.{
  ℕ, suc, ◌≡◌, refl, ◌∙◌, String, not, Option, none, some, List, [], ◌∷◌, Result, ok, err, ◌>>=◌,
  if◌then◌else◌, Bool-cases, inl, inr,
}
use payments_data_platform.Medallion.Settings.{env_get}
use payments_data_platform.Api.Queries.{Param}
use payments_data_platform.Ops.Text.{isdigit, int_of}
use payments_data_platform.Ops.Trino.{Failure, bad_port, settings}

pub record ConnectionSettings : Type 0 where
  pub host : String
  pub port : ℕ
  pub user : String
  pub catalog : String
  pub schema : String

pub connection_settings : List (String × String) → Result Failure ConnectionSettings
unfolding env_get isdigit int_of
connection_settings env =
    let port = env_get env "TRINO_HTTP_PORT" "8080" in
    if not (isdigit port)
    then err (bad_port port)
    else ok record {
      host = env_get env "TRINO_HTTP_HOST" "trino";
      port = int_of port;
      user = env_get env "TRINO_USER" "api";
      catalog = env_get env "TRINO_CATALOG" "iceberg";
      schema = env_get env "TRINO_SCHEMA" "analytics";
    }

-- In every environment the API and the scripts agree: the same port text is refused by both, and
-- otherwise both have the same host, catalog and schema, the API's port is the number that the
-- scripts' port spells, and only the default of the user is the API's own.
connection_settings-settings :
    (env : List (String × String))
    → connection_settings env ≡ (
        settings env >>= λ r. ok (record {
          host = r.host;
          port = int_of r.port;
          user = env_get env "TRINO_USER" "api";
          catalog = r.catalog;
          schema = r.schema;
        }))
unfolding connection_settings settings
connection_settings-settings env =
    elim (Bool-cases (isdigit (env_get env "TRINO_HTTP_PORT" "8080"))) [
      | inl digits ↦ rw digits refl
      | inr other ↦ rw other refl
    ]

-- The cursor's methods; each may raise.
pub record Driver (S R E : Type 0) : Type 0 where
  pub cursor : S → S
  pub execute : String → Option (List Param) → S → Result E (Unit {0}) × S
  pub fetchall : S → Result E (List R) × S
  pub close : S → S

-- `if params:`
abbrev pub given_params : List Param → Option (List Param)
given_params [] = none
given_params (p ∷ ps) = some (p ∷ ps)

module _ {S R E : Type 0} (driver : Driver S R E) where
  abbrev pub fetched : Result E (Unit {0}) × S → Result E (List R) × S
  fetched (ok u, s) = Driver.fetchall driver s
  fetched (err e, s) = (err e, s)

  -- `finally: cursor.close()`
  abbrev pub closed : Result E (List R) × S → Result E (List R) × S
  closed (r, s) = (r, Driver.close driver s)

  pub run_query : String → List Param → S → Result E (List R) × S
  run_query sql params s =
      closed (fetched (Driver.execute driver sql (given_params params) (Driver.cursor driver s)))

  -- How many cursors are open: opening one and closing one are all that changes it.
  pub record Counts (opened : S → ℕ) : Type 0 where
    pub opens : (s : S) → opened (Driver.cursor driver s) ≡ suc (opened s)
    pub executes :
        (sql : String) (params : Option (List Param)) (s : S)
        → opened (Driver.execute driver sql params s).1 ≡ opened s
    pub fetches : (s : S) → opened (Driver.fetchall driver s).1 ≡ opened s
    pub closes : (s : S) (n : ℕ) → opened s ≡ suc n → opened (Driver.close driver s) ≡ n

  closed-fetched :
      (opened : S → ℕ)
      → Counts opened
      → (r : Result E (Unit {0}) × S) (n : ℕ) → opened r.1 ≡ suc n
      → opened (closed (fetched r)).1 ≡ n
  closed-fetched opened c (ok u, s) n h =
      Counts.closes c (Driver.fetchall driver s).1 n (Counts.fetches c s ∙ h)
  closed-fetched opened c (err e, s) n h = Counts.closes c s n h

  -- Whether the statement or the fetch raises or not, no cursor stays open.
  pub run_query-closes :
      (opened : S → ℕ)
      → Counts opened
      → (sql : String) (params : List Param) (s : S) → opened (run_query sql params s).1 ≡ opened s
  unfolding run_query
  run_query-closes opened c sql params s =
      let r = Driver.execute driver sql (given_params params) (Driver.cursor driver s) in
      closed-fetched opened c r (opened s)
        (Counts.executes c sql (given_params params) (Driver.cursor driver s) ∙ Counts.opens c s)
