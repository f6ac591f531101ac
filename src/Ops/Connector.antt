-- ===== src/Ops/Connector.antt =====
-- The health check of scripts/validate_connector.py, of the connector's status as it was read.
use payments_data_platform.Base.{
  ◌≡◌, refl, ◌↔◌, String, Bool, true, not, Option, some, List, [], ◌∷◌, filter, All, opt_eq, str_eq,
  ◌||◌, Result, ok, err, if◌then◌else◌, Bool-cases, inl, inr,
}
use payments_data_platform.Medallion.Settings.{env_get}
use payments_data_platform.Ops.Text.{join}
use payments_data_platform.Ops.Catalog.{rstrip_slash}

-- The state of the connector, and of each task that is listed.
pub record Status : Type 0 where
  pub connector_state : String
  pub tasks : List (Option String)

pub data Unhealthy : Type 0 where
  tasks_unhealthy : List (Option String) → Unhealthy
  connector_not_healthy : String → Unhealthy

pub status_url : List (String × String) → String
unfolding env_get join rstrip_slash
status_url env = join "" (
    rstrip_slash (env_get env "CONNECT_URL" "http://kafka-connect:8083")
    ∷ "/connectors/postgres-payments-cdc/status"
    ∷ [])

abbrev pub not_running : Option String → Bool
not_running state = not (opt_eq state (some "RUNNING"))

abbrev pub after_tasks : String → List (Option String) → Result Unhealthy (Unit {0})
after_tasks state (t ∷ ts) = err (tasks_unhealthy (t ∷ ts))
after_tasks state [] =
    if not (str_eq state "RUNNING" || str_eq state "UNASSIGNED")
    then err (connector_not_healthy state)
    else ok tt

-- `main`, after the request.
pub check_status : Status → Result Unhealthy (Unit {0})
check_status s = after_tasks s.connector_state (filter not_running s.tasks)

abbrev pub IsRunning : Option String → Type 0
IsRunning state = opt_eq state (some "RUNNING") ≡ true

after_tasks-ok :
    (state : String) (ts : List (Option String))
    → (after_tasks state (filter not_running ts) ≡ ok tt)
      ↔ (All IsRunning ts × (str_eq state "RUNNING" || str_eq state "UNASSIGNED" ≡ true))
after_tasks-ok state [] = elim (Bool-cases (str_eq state "RUNNING" || str_eq state "UNASSIGNED")) [
  | inl fine ↦ rw fine ((λ h. (tt, refl)), λ h. refl)
  | inr bad ↦ rw bad ((λ h. absurd (cc h)), λ h. absurd (cc (h.1)))
]
after_tasks-ok state (t ∷ ts) = elim (Bool-cases (opt_eq t (some "RUNNING"))) [
  | inl runs ↦
      let (there, back) = after_tasks-ok state ts in
      rw runs ((λ h. ((refl, (there h).0), (there h).1)), λ h. back (h.0.1, h.1))
  | inr stands ↦ rw stands ((λ h. absurd (cc h)), λ h. absurd (cc (h.0.0)))
]

-- The check passes exactly where every listed task is RUNNING and the connector is RUNNING or
-- UNASSIGNED; a connector with no task at all passes too.
pub check_status-IsRunning :
    (s : Status)
    → (check_status s ≡ ok tt) ↔ (
        All IsRunning s.tasks
        × (str_eq s.connector_state "RUNNING" || str_eq s.connector_state "UNASSIGNED" ≡ true))
unfolding check_status
check_status-IsRunning s = after_tasks-ok s.connector_state s.tasks
