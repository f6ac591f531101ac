-- ===== src/Ops/Buckets/Ensured.antt =====
-- What the bucket creation of scripts/init_object_store.py leaves in the store.
use payments_data_platform.Base.{◌≡◌, ◌⊎◌, String, Bool, true, ok, err}
use payments_data_platform.Medallion.Rules.{contains}
use payments_data_platform.Ops.Buckets.{Client, already_there}

module _ {S : Type 0} where
  -- S3 as documented: a bucket that was created is there, one whose creation is refused as a duplicate
  -- is there, no creation removes a bucket, and creating a bucket that is there succeeds (as in
  -- us-east-1) or is refused as a duplicate.
  pub record S3 (has : S → String → Bool) (client : Client S) : Type 0 where
    pub creates :
        (b : String) (s : S)
        → (Client.create_bucket client b s).0 ≡ ok tt
        → has (Client.create_bucket client b s).1 b ≡ true
    pub duplicates :
        (b name : String) (s : S)
        → (Client.create_bucket client b s).0 ≡ err name
        → contains already_there name ≡ true
        → has (Client.create_bucket client b s).1 b ≡ true
    pub keeps :
        (b c : String) (s : S) → has s c ≡ true → has (Client.create_bucket client b s).1 c ≡ true
    pub repeats :
        (b : String) (s : S)
        → has s b ≡ true
        → ((Client.create_bucket client b s).0 ≡ ok tt)
          ⊎ ((name : String) × ((Client.create_bucket client b s).0 ≡ err name)
              × (contains already_there name ≡ true))

  module _ {has : S → String → Bool} (client : Client S) (s3 : S3 has client) where
    abbrev pub Present : S → String → Type 0
    Present s b = has s b ≡ true

    abbrev after : String → S → S
    after b s = (Client.create_bucket client b s).1
