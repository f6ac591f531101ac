-- ===== src/Elt/Tasks/Same.antt =====
-- The statements of the task `load_raw` against the command line's load.
use payments_data_platform.Base.{
  ◌≡◌, refl, String, List, [], ◌∷◌, Result, ok, ◌>>=◌, Result-cases, inl, inr,
}
use payments_data_platform.Elt.Load.{
  Texts, Connection, create_raw_table_sql, copy_into_sql, load_dataset, default_prefix,
}
use payments_data_platform.Elt.Load.Command.{ConnectArgs, load_all}
use payments_data_platform.Elt.Tasks.{load_raw_statements}

module _ {W : Type 0} (c : Connection W) where
  -- An operator's statements, one after another, up to the first that raises.
  pub execute_all : List String → W → Result String W
  execute_all [] w = ok w
  execute_all (sql ∷ sqls) w = Connection.execute c sql [] w >>= execute_all sqls

  module _ (k : Texts) (connect : ConnectArgs → Result String (Connection W)) where
    -- On every connection and from every state of the warehouse, the statements of the DAG, rendered
    -- for a date, leave what the command line's load of that date leaves, or raise what it raises.
    pub load_all-load_raw_statements :
        (stage run_date : String) (tables : List (String × String)) (w : W)
        → load_all k connect c stage run_date tables w
          ≡ execute_all (load_raw_statements stage run_date tables) w
    unfolding load_all load_dataset execute_all load_raw_statements
    load_all-load_raw_statements stage run_date [] w = refl
    load_all-load_raw_statements stage run_date ((dataset, table) ∷ tables) w =
        elim (Result-cases (Connection.execute c (create_raw_table_sql table) [] w)) [
          | inl (v, e) ↦
              elim (Result-cases (
                Connection.execute c (copy_into_sql table stage dataset run_date default_prefix) []
                  v)) [
                    | inl (u, f) ↦
                        rw e (rw f (load_all-load_raw_statements stage run_date tables u))
                    | inr (x, f) ↦ rw e (rw f refl)
                  ]
          | inr (x, e) ↦ rw e refl
        ]
