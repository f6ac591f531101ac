-- ===== src/Airflow/Alerts.antt =====
-- `notify_failure` of airflow/dags/alerts.py. The context is taken by the parts that it reads, a part
-- being absent where the key or the attribute is; `requests.post` is a parameter.
use payments_data_platform.Base.{
  ℕ, String, Option, none, some, List, [], ◌∷◌, leb, Result, ok, err, if◌then◌else◌,
}
use payments_data_platform.Medallion.Settings.{env_get}
use payments_data_platform.Ops.Text.{is_empty, join}

-- `logical_date`, `execution_date` and `exception` by their `str`, none where they are falsy.
pub record Context : Type 0 where
  pub dag_id : Option String
  pub task_id : Option String
  pub logical_date : Option String
  pub execution_date : Option String
  pub exception : Option String
  pub log_url : Option String

pub record Payload : Type 0 where
  pub text : String
  pub dag_id : String
  pub task_id : String
  pub logical_date : String
  pub error : String
  pub log_url : Option String

abbrev pub or_else : Option String → String → String
or_else none s = s
or_else (some t) s = t

pub payload_of : Context → Payload
unfolding join
payload_of c =
    let dag = or_else c.dag_id "unknown" in
    let task = or_else c.task_id "unknown" in
    record {
      text = join "" (":red_circle: Airflow task failed: " ∷ dag ∷ "." ∷ task ∷ []);
      dag_id = dag;
      task_id = task;
      logical_date = or_else c.logical_date (or_else c.execution_date "");
      error = or_else c.exception "";
      log_url = c.log_url;
    }

-- What the callback ends with; it returns in each case.
pub data Notified : Type 0 where
  not_configured : Notified
  sent : Notified
  failed_to_send : Notified

-- `raise_for_status()` in the `try`.
abbrev pub after_post : Result String ℕ → Notified
after_post (err e) = failed_to_send
after_post (ok status) = if leb 400 status then failed_to_send else sent

-- The requests made, with the outcome.
pub notify_failure :
    (String → Payload → Result String ℕ)
    → List (String × String)
    → Context
    → List (String × Payload) × Notified
unfolding env_get payload_of
notify_failure post env c =
    let url = env_get env "ALERT_WEBHOOK_URL" "" in
    if is_empty url
    then ([], not_configured)
    else ((url, payload_of c) ∷ [], after_post (post url (payload_of c)))
