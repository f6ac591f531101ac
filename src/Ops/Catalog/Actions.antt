-- ===== src/Ops/Catalog/Actions.antt =====
-- The requests and `main` of scripts/init_iceberg_catalog.py.
use payments_data_platform.Base.{
  String, Bool, true, false, Option, none, some, List, any, leb, opt_eq, ◌==◌, ◌||◌, Result, ok,
  err, if◌then◌else◌,
}
use payments_data_platform.Ops.Catalog.{
  CatalogError, CatalogSettings, WarehousePayload, Warehouse, Answer, Reply, response, exception,
  accept_terms, new_warehouse, storage, Session, bad_status, request_exception, creation_failed,
  signing_not_disabled, not_found, settings, warehouse_payload, rstrip_slash, info_url,
  bootstrap_url, warehouse_url, storage_url, json_of, id_of,
}

abbrev pub Action : Type 0 → Type 0 → Type 0
Action S A = S → Result CatalogError A × S

module _ {S : Type 0} where
  abbrev pub then_do :
      {A B : Type 0} → Result CatalogError A × S → (A → Action S B) → Result CatalogError B × S
  then_do (ok a, s) f = f a s
  then_do (err e, s) f = (err e, s)

  abbrev pub requested : Reply × S → Result CatalogError Answer × S
  requested (reply, s) = (json_of reply, s)

  -- 400 and 409 are taken as done by another.
  abbrev pub begun : Reply × S → Result CatalogError Bool × S
  begun (exception, s) = (err request_exception, s)
  begun (response status answer, s) =
      if status == 400 || status == 409
      then (ok false, s)
      else if leb 400 status
      then (err (bad_status status), s)
      else (ok true, s)

  -- 409 is success; else `response.ok` decides.
  abbrev pub created : Reply × S → Result CatalogError (Unit {0}) × S
  created (exception, s) = (err request_exception, s)
  created (response status answer, s) =
      if status == 409
      then (ok tt, s)
      else if leb 400 status
      then (err (creation_failed status), s)
      else (ok tt, s)

  abbrev pub applied : Reply × S → Result CatalogError (Unit {0}) × S
  applied (exception, s) = (err request_exception, s)
  applied (response status answer, s) =
      if leb 400 status then (err (signing_not_disabled status), s) else (ok tt, s)

  module _ (http : Session S) where
    unfoldable pub bootstrap : String → Action S Bool
    unfolding json_of info_url bootstrap_url
    bootstrap base s = then_do (requested (Session.get http (info_url base) s)) (λ info s'.
        if info.bootstrapped
        then (ok false, s')
        else begun (Session.post http (bootstrap_url base) accept_terms s'))

    unfoldable pub warehouse_exists : String → String → Action S Bool
    unfolding json_of warehouse_url
    warehouse_exists base name s =
        then_do (requested (Session.get http (warehouse_url base) s)) (λ answer s'.
          (ok (any (λ w. opt_eq (Warehouse.name w) (some name)) answer.warehouses), s'))

    unfoldable pub create_warehouse : String → WarehousePayload → Action S (Unit {0})
    unfolding warehouse_url
    create_warehouse base payload s =
        created (Session.post http (warehouse_url base) (new_warehouse payload) s)

    unfoldable pub warehouse_id : String → String → Action S (Option String)
    unfolding json_of warehouse_url id_of
    warehouse_id base name s =
        then_do (requested (Session.get http (warehouse_url base) s))
          (λ answer s'. (ok (id_of name answer.warehouses), s'))

    unfoldable pub disable_remote_signing : String → String → WarehousePayload → Action S (Unit {0})
    unfolding storage_url
    disable_remote_signing base id payload s = applied (
        Session.post http (storage_url base id)
          (storage payload.storage_profile payload.storage_credential) s)

    abbrev pub create_unless : Bool → String → WarehousePayload → Action S (Unit {0})
    create_unless true base payload s = (ok tt, s)
    create_unless false base payload s = create_warehouse base payload s

    abbrev pub apply_to : String → Option String → String → WarehousePayload → Action S (Unit {0})
    apply_to name none base payload s = (err (not_found name), s)
    apply_to name (some id) base payload s = disable_remote_signing base id payload s

    -- `main` after the settings.
    unfoldable pub register_warehouse : CatalogSettings → Action S (Unit {0})
    unfolding rstrip_slash warehouse_payload
    register_warehouse resolved s =
        let base = rstrip_slash resolved.rest_url in
        let name = resolved.warehouse in
        let payload = warehouse_payload resolved in
        then_do (bootstrap base s) (λ began s1. then_do (warehouse_exists base name s1) (λ there s2.
          then_do (create_unless there base payload s2) (λ done s3.
            then_do (warehouse_id base name s3) (λ id s4. apply_to name id base payload s4))))

    abbrev pub with_settings : Result CatalogError CatalogSettings → Action S (Unit {0})
    with_settings (err e) s = (err e, s)
    with_settings (ok resolved) s = register_warehouse resolved s

    unfoldable pub main : List (String × String) → Action S (Unit {0})
    unfolding settings
    main env s = with_settings (settings env) s
