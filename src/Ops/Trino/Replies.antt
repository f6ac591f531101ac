-- ===== src/Ops/Trino/Replies.antt =====
-- What a reply of the server gives, and the page that it sends the client to next, apart from the code.
use payments_data_platform.Base.{
  ℕ, ◌<◌, ◌≡◌, refl, String, Option, none, some, List, [], ◌∷◌, Result, ok, err, arith, subst,
  false, leb, le→leb, ◌≤◌, ◌++◌, ◌>>=◌,
}
use native.Mathlib.Decide.{dec_le}
use Prim.Native.Char.{Char}
use payments_data_platform.Medallion.Settings.{env_get}
use payments_data_platform.Ops.Trino.{
  Reply, response, exception, request_failed, http_status, not_json, query_failed, raised_by,
  raise_for_query_error, body_of, Failure, Page, answer, truthy_uri, collect_rows,
}

-- The page to ask for next: none where `nextUri` is absent or empty.
pub data Next : Option String → Option String → Type 0 where
  absent : Next none none
  empty : Next (some "") none
  there : (c : Char) (uri : String) → Next (some (String.◌∷◌ c uri)) (some (String.◌∷◌ c uri))

pub truthy_uri-Next : (o : Option String) → Next o (truthy_uri o)
truthy_uri-Next none = absent
truthy_uri-Next (some String.[]) = empty
truthy_uri-Next (some (String.◌∷◌ c uri)) = there c uri

not_le→leb : (status : ℕ) → (400 ≤ status → ⊥) → leb 400 status ≡ false
not_le→leb status low = ground (arith, low)

module _ {R : Type 0} where
  abbrev pub put_page : Page R → Result Failure (List (Page R)) → Result Failure (List (Page R))
  put_page page (ok pages) = ok (page ∷ pages)
  put_page page (err e) = err e

  -- What a reply gives: a page without an error, or the failure that comes first of the request, the
  -- status, a body that is no JSON, and the error that the page carries.
  pub data Gives : Reply R → Result Failure (Page R) → Type 0 where
    no_reply : Gives exception (err request_failed)
    bad_status :
        (status : ℕ) (body : Option (Page R))
        → 400 ≤ status
        → Gives (response status body) (err (http_status status))
    no_page : (status : ℕ) → status < 400 → Gives (response status none) (err not_json)
    good_page :
        (status : ℕ) (page : Page R)
        → status < 400
        → page.error ≡ []
        → Gives (response status (some page)) (ok page)
    error_page :
        (status : ℕ) (page : Page R) (e : String × String) (es : List (String × String))
        → status < 400
        → page.error ≡ e ∷ es
        → Gives (response status (some page)) (
            err (
              query_failed
                (env_get (e ∷ es) "errorName" "")
                (env_get (e ∷ es) "message" "unknown Trino error")))

  raised-Gives :
      (status : ℕ) (page : Page R) (es : List (String × String))
      → status < 400
      → page.error ≡ es
      → Gives (response status (some page)) (raised_by es page)
  raised-Gives status page [] low e = good_page status page low e
  raised-Gives status page (x ∷ es) low e = error_page status page x es low e

  body-Gives :
      (status : ℕ) (body : Option (Page R))
      → status < 400
      → Gives (response status body) (body_of body >>= λ page. raise_for_query_error page)
  unfolding raise_for_query_error
  body-Gives status none low = no_page status low
  body-Gives status (some page) low = raised-Gives status page page.error low refl

  answer-Gives : (r : Reply R) → Gives r (answer r)
  unfolding answer raise_for_query_error
  answer-Gives exception = no_reply
  answer-Gives (response status body) = elim (dec_le 400 status) [
    | yes high ↦ rw (le→leb 400 status high) (bad_status status body high)
    | no low ↦ rw (not_le→leb status low) (body-Gives status body (omega arith))
  ]

  -- The rows of the pages, one after another.
  abbrev pub rows_in : List (Page R) → List R
  rows_in [] = []
  rows_in (page ∷ pages) = elim page.rows [ none ↦ rows_in pages | some rs ↦ rs ++ rows_in pages ]

  pub collect_rows_lem : (pages : List (Page R)) → collect_rows pages ≡ rows_in pages
  unfolding collect_rows
  collect_rows_lem [] = refl
  collect_rows_lem (page ∷ pages) = ground (arith, collect_rows_lem pages)

  pub given : (r : Reply R) (o : Result Failure (Page R)) → answer r ≡ o → Gives r o
  given r o e = subst (Gives r) e (answer-Gives r)

  abbrev pub put_rows : Page R → Result Failure (List (Page R)) → Result Failure (List R)
  put_rows page (ok pages) = ok (rows_in (page ∷ pages))
  put_rows page (err e) = err e
