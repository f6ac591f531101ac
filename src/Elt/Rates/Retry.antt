-- ===== src/Elt/Rates/Retry.antt =====
-- How the request is retried.
use payments_data_platform.Base.{
  ℕ, zero, suc, ◌-◌, ◌^◌, ◌≤◌, ◌≡◌, refl, ap, sym, min, String, Option, none, some, List, [], ◌∷◌,
  Result, ok, err, arith, ◌∙◌, ltb, if◌then◌else◌,
}
use payments_data_platform.Elt.Rates.{
  Reply, response, request_exception, accepted, Attempted, attempt_result, attempts,
  get_json_with_retry,
}

-- The delays of so many failures in a row: each is twice the one before.
abbrev pub doubling : ℕ → ℕ → List ℕ
doubling attempt zero = []
doubling attempt (suc n) = 2 ^ (attempt - 1) ∷ doubling (suc attempt) n

pred-suc : (n : ℕ) → n ≡ suc n - 1
pred-suc n = omega arith

doubling-pos :
    (attempt n : ℕ)
    → 1 ≤ n
    → doubling attempt n ≡ 2 ^ (attempt - 1) ∷ doubling (suc attempt) (n - 1)
doubling-pos attempt zero h = absurd (omega (arith, h))
doubling-pos attempt (suc n) h = ap (λ m. 2 ^ (attempt - 1) ∷ doubling (suc attempt) m) (pred-suc n)

module _ {P : Type 0} where
  abbrev or_later : Option P → Option P → Option P
  or_later (some p) later = some p
  or_later none later = later

  -- A reply is taken if its status is below 400 and its body is JSON.
  abbrev pub taken : Reply P → Option P
  taken request_exception = none
  taken (response status body) = if ltb status 400 then body else none

  accepted_lem : (r : Reply P) → accepted r ≡ taken r
  accepted_lem request_exception = refl
  accepted_lem (response status body) = ground arith

  -- The first reply that is taken, among so many from an attempt on.
  pub first_accepted : (ℕ → Reply P) → ℕ → ℕ → Option P
  first_accepted replies attempt zero = none
  first_accepted replies attempt (suc left) =
      or_later (taken (replies attempt)) (first_accepted replies (suc attempt) left)

  abbrev pub outcome_of : Option P → Result String P
  outcome_of none = err "FX API failed"
  outcome_of (some p) = ok p

  -- The first accepted reply is the outcome, or there is none and the outcome is the exception; the
  -- delays double from 2 ^ (attempt - 1), one less than there are requests; and there are at most as
  -- many requests as attempts, and one at least if an attempt is left.
  pub record Retries (first : Option P) (attempt left : ℕ) (a : Attempted P) : Type 0 where
    pub result : a.outcome ≡ outcome_of first
    pub backs_off : a.slept ≡ doubling attempt (a.requests - 1)
    pub bounded : a.requests ≤ left
    pub asks : min 1 left ≤ a.requests

  one_more :
      (o first : Option P) (attempt left : ℕ) (rest : Attempted P)
      → (left ≡ 0 → first ≡ none)
      → Retries first (suc attempt) left rest
      → Retries
          (or_later o first)
          attempt
          (suc left)
          (attempt_result o left (2 ^ (attempt - 1)) rest)
  one_more (some p) first attempt left rest last r = record {
    result = refl;
    backs_off = refl;
    bounded = omega arith;
    asks = omega arith;
  }
  one_more none first attempt zero rest last r = record {
    result = rw (last refl) refl;
    backs_off = refl;
    bounded = omega arith;
    asks = omega arith;
  }
  one_more none first attempt (suc left) rest last r = record {
    result = r.result;
    backs_off =
        ap (λ ds. 2 ^ (attempt - 1) ∷ ds) r.backs_off
        ∙ sym (doubling-pos attempt rest.requests (omega (arith, r.asks)))
        ∙ ap (doubling attempt) (pred-suc rest.requests);
    bounded = omega (arith, r.bounded);
    asks = omega arith;
  }

  none_left :
      (replies : ℕ → Reply P) (attempt left : ℕ)
      → left ≡ 0
      → first_accepted replies attempt left ≡ none
  unfolding first_accepted
  none_left replies attempt zero e = refl
  none_left replies attempt (suc left) e = absurd (omega (arith, e))

  attempts-Retries :
      (replies : ℕ → Reply P) (attempt left : ℕ)
      → Retries (first_accepted replies attempt left) attempt left (attempts replies attempt left)
  unfolding attempts first_accepted
  attempts-Retries replies attempt zero = record {
    result = refl;
    backs_off = refl;
    bounded = omega arith;
    asks = omega arith;
  }
  attempts-Retries replies attempt (suc left) = rw (accepted_lem (replies attempt)) (
      one_more (taken (replies attempt)) (first_accepted replies (suc attempt) left) attempt left
        (attempts replies (suc attempt) left) (none_left replies (suc attempt) left)
        (attempts-Retries replies (suc attempt) left))

  -- The request gives the first reply with a status below 400 and a JSON body, or the exception if
  -- none of so many as the bound is such a reply; every other reply, a client error such as 404 too,
  -- is asked for again. It makes at most as many requests as the bound, and sleeps between two requests,
  -- first once the base delay and then twice as long each time.
  pub get_json_with_retry-Retries :
      (replies : ℕ → Reply P) (max_attempts : ℕ)
      → Retries
          (first_accepted replies 1 max_attempts)
          1
          max_attempts
          (get_json_with_retry replies max_attempts)
  unfolding get_json_with_retry
  get_json_with_retry-Retries replies max_attempts = attempts-Retries replies 1 max_attempts

  all_refused :
      (body : Option P) (attempt left : ℕ)
      → (attempts (λ n. response 404 body) attempt left).requests ≡ left
  unfolding attempts
  all_refused body attempt zero = refl
  all_refused body attempt (suc zero) = refl
  all_refused body attempt (suc (suc left)) = ap suc (all_refused body (suc attempt) (suc left))

  -- A reply with a client error is asked for again as any failure is: if every status is 404, then as
  -- many requests are made as the bound allows.
  pub client_errors_retried :
      (body : Option P) (max_attempts : ℕ)
      → (get_json_with_retry (λ n. response 404 body) max_attempts).requests ≡ max_attempts
  unfolding get_json_with_retry
  client_errors_retried body max_attempts = all_refused body 1 max_attempts
