-- ===== src/Ops/Catalog/Registered.antt =====
-- What `main` of scripts/init_iceberg_catalog.py leaves in the catalog.
use payments_data_platform.Base.{
  ℕ, ◌≡◌, refl, ◌∙◌, ap, ◌⊎◌, inl, inr, String, Bool, true, false, Option, some, List, any, opt_eq,
  ok, Bool-cases,
}
use payments_data_platform.Ops.Catalog.{
  CatalogSettings, StorageProfile, StorageCredential, WarehousePayload, Warehouse, Answer, Reply,
  response, accept_terms, new_warehouse, storage, Session, info_url, bootstrap_url, warehouse_url,
  storage_url, id_of, json_of, settings, warehouse_payload, rstrip_slash,
}
use payments_data_platform.Ops.Catalog.Actions.{
  begun, created, applied, bootstrap, warehouse_exists, create_warehouse, warehouse_id,
  disable_remote_signing, create_unless, register_warehouse, main,
}

module _ {S : Type 0} where
  begun-ok :
      (p : Reply × S) (status : ℕ) (answer : Option Answer)
      → p.0 ≡ response status answer
      → (status ≡ 204) ⊎ (status ≡ 400) ⊎ (status ≡ 409)
      → (b : Bool) × (begun p ≡ (ok b, p.1))
  begun-ok (reply, s) status answer e (inl h) = (true, rw e (rw h refl))
  begun-ok (reply, s) status answer e (inr (inl h)) = (false, rw e (rw h refl))
  begun-ok (reply, s) status answer e (inr (inr h)) = (false, rw e (rw h refl))

  created-ok :
      (p : Reply × S) (status : ℕ) (answer : Option Answer)
      → p.0 ≡ response status answer
      → (status ≡ 201) ⊎ (status ≡ 409)
      → created p ≡ (ok tt, p.1)
  created-ok (reply, s) status answer e (inl h) = rw e (rw h refl)
  created-ok (reply, s) status answer e (inr h) = rw e (rw h refl)

  applied-ok :
      (p : Reply × S) (answer : Option Answer)
      → p.0 ≡ response 200 answer
      → applied p ≡ (ok tt, p.1)
  applied-ok (reply, s) answer e = rw e refl

module _ {S : Type 0} (http : Session S) where
  -- A catalog as its management API documents it: the listing shows the registered warehouses with
  -- their ids, a bootstrap that comes too late is refused with 400 or 409, a creation registers the
  -- name, and the storage endpoint stores the profile that it is sent. `stored` is the profile of an
  -- id; the keys of an answer that its reader ignores are left open.
  pub record Lakekeeper (initialised : S → Bool) (listed : S → List Warehouse)
      (stored : S → String → Option StorageProfile) : Type 0 where
    pub other_warehouses : S → List Warehouse
    pub other_flag : S → Bool
    pub info :
        (base : String) (s : S)
        → Session.get http (info_url base) s ≡ (
          response 200
              (some (record { bootstrapped = initialised s; warehouses = other_warehouses s })),
          s,
        )
    pub start_status : S → ℕ
    pub start_answer : S → Option Answer
    pub start :
        (base : String) (s : S)
        → (Session.post http (bootstrap_url base) accept_terms s).0
          ≡ response (start_status s) (start_answer s)
    pub start_accepted :
        (s : S) → (start_status s ≡ 204) ⊎ (start_status s ≡ 400) ⊎ (start_status s ≡ 409)
    pub listing :
        (base : String) (s : S)
        → Session.get http (warehouse_url base) s
          ≡ (response 200 (some (record { bootstrapped = other_flag s; warehouses = listed s })), s)
    pub has_id :
        (name : String) (s : S)
        → any (λ w. opt_eq (Warehouse.name w) (some name)) (listed s) ≡ true
        → (id : String) × (id_of name (listed s) ≡ some id)
    pub creation_status : S → ℕ
    pub creation_answer : S → Option Answer
    pub storing_answer : S → Option Answer
    pub creation :
        (base : String) (payload : WarehousePayload) (s : S)
        → (Session.post http (warehouse_url base) (new_warehouse payload) s).0
          ≡ response (creation_status s) (creation_answer s)
    pub creation_accepted : (s : S) → (creation_status s ≡ 201) ⊎ (creation_status s ≡ 409)
    pub registers :
        (base : String) (payload : WarehousePayload) (s : S)
        → any
            (λ w. opt_eq (Warehouse.name w) (some payload.warehouse_name))
            (listed (Session.post http (warehouse_url base) (new_warehouse payload) s).1)
          ≡ true
    pub storing :
        (base id : String) (profile : StorageProfile) (credential : StorageCredential) (s : S)
        → (Session.post http (storage_url base id) (storage profile credential) s).0
          ≡ response 200 (storing_answer s)
    pub stores :
        (base id : String) (profile : StorageProfile) (credential : StorageCredential) (s : S)
        → stored (Session.post http (storage_url base id) (storage profile credential) s).1 id
          ≡ some profile
    pub keeps_listing :
        (base id : String) (profile : StorageProfile) (credential : StorageCredential) (s : S)
        → listed (Session.post http (storage_url base id) (storage profile credential) s).1
          ≡ listed s

  module _ {initialised : S → Bool} {listed : S → List Warehouse}
      {stored : S → String → Option StorageProfile} (k : Lakekeeper initialised listed stored) where
    bootstrap-ok :
        (base : String) (s : S) → (b : Bool) × (s' : S) × (bootstrap http base s ≡ (ok b, s'))
    unfolding bootstrap json_of
    bootstrap-ok base s = elim (Bool-cases (initialised s)) [
      | inl done ↦ (false, s, rw (Lakekeeper.info k base s) (rw done refl))
      | inr fresh ↦
          let p = Session.post http (bootstrap_url base) accept_terms s in
          let (b, e) =
            begun-ok p (Lakekeeper.start_status k s) (Lakekeeper.start_answer k s)
              (Lakekeeper.start k base s) (Lakekeeper.start_accepted k s) in
          (b, p.1, rw (Lakekeeper.info k base s) (rw fresh e))
    ]

    abbrev is_listed : String → S → Bool
    is_listed name s = any (λ w. opt_eq (Warehouse.name w) (some name)) (listed s)

    warehouse_exists-listed :
        (base name : String) (s : S)
        → warehouse_exists http base name s ≡ (ok (is_listed name s), s)
    unfolding warehouse_exists json_of
    warehouse_exists-listed base name s = rw (Lakekeeper.listing k base s) refl

    warehouse_id-listed :
        (base name : String) (s : S)
        → warehouse_id http base name s ≡ (ok (id_of name (listed s)), s)
    unfolding warehouse_id json_of
    warehouse_id-listed base name s = rw (Lakekeeper.listing k base s) refl

    -- After the creation, or where there is none to do, the name is listed.
    create_unless-lists :
        (base : String) (payload : WarehousePayload) (s : S)
        → (s' : S) × (create_unless http (is_listed payload.warehouse_name s) base payload s
            ≡ (ok tt, s'))
          × (is_listed payload.warehouse_name s' ≡ true)
    unfolding create_warehouse
    create_unless-lists base payload s =
        let p = Session.post http (warehouse_url base) (new_warehouse payload) s in
        elim (Bool-cases (is_listed payload.warehouse_name s)) [
          | inl old ↦ (s, rw old refl, old)
          | inr new ↦
              let e =
                created-ok p (Lakekeeper.creation_status k s) (Lakekeeper.creation_answer k s)
                  (Lakekeeper.creation k base payload s) (Lakekeeper.creation_accepted k s) in
              (p.1, rw new e, Lakekeeper.registers k base payload s)
        ]

    -- The catalog holds the warehouse of the settings with the profile that they give.
    pub record Registered (resolved : CatalogSettings) (s : S) : Type 0 where
      pub id : String
      pub is_known : id_of resolved.warehouse (listed s) ≡ some id
      pub profile :
          stored s id ≡ some (WarehousePayload.storage_profile (warehouse_payload resolved))
      pub signing_off :
          StorageProfile.remote_signing_enabled
            (WarehousePayload.storage_profile (warehouse_payload resolved))
          ≡ false

    -- With settings that have both keys, on a catalog as documented and in any state of it, `main`
    -- raises nothing, and afterwards the warehouse is listed under an id at which the catalog stores
    -- the profile of the settings, in which remote signing is off.
    pub main-Registered :
        (env : List (String × String)) (resolved : CatalogSettings) (s : S)
        → settings env ≡ ok resolved
        → (s' : S) × (main http env s ≡ (ok tt, s')) × Registered resolved s'
    unfolding main register_warehouse disable_remote_signing
    main-Registered env resolved s e =
        let base = rstrip_slash resolved.rest_url in
        let name = resolved.warehouse in
        let payload = warehouse_payload resolved in
        let (b, s1, e1) = bootstrap-ok base s in
        let (s3, e3, there) = create_unless-lists base payload s1 in
        let (id, known) = Lakekeeper.has_id k name s3 there in
        let p =
          Session.post http (storage_url base id)
            (storage payload.storage_profile payload.storage_credential) s3 in
        let e5 =
          applied-ok p (Lakekeeper.storing_answer k s3)
            (Lakekeeper.storing k base id payload.storage_profile payload.storage_credential s3) in
        (
          p.1,
          rw e (
              rw e1 (
                rw (warehouse_exists-listed base name s1)
                  (rw e3 (rw (warehouse_id-listed base name s3) (rw known e5))))),
          record {
            id = id;
            is_known =
                ap (id_of name) (
                  Lakekeeper.keeps_listing k base id payload.storage_profile
                    payload.storage_credential s3)
                ∙ known;
            profile =
                Lakekeeper.stores k base id payload.storage_profile payload.storage_credential s3;
            signing_off = unfold warehouse_payload in refl;
          },
        )
