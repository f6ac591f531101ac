-- ===== src/Ops/Trino/Runs.antt =====
-- The poll loop of `run_statement` and the order of `run_script`, against relations that know no fuel.
use payments_data_platform.Base.{
  ℕ, zero, suc, ◌<◌, ◌≡◌, refl, String, Option, none, some, List, [], ◌∷◌, Result, ok, err, ◌⊎◌,
  inl, inr, Result-cases, arith,
}
use payments_data_platform.Ops.Trino.{
  Failure, Page, Session, answer, truthy_uri, poll, first_page, run_statement, run_statements,
}
use payments_data_platform.Ops.Trino.Replies.{
  Next, truthy_uri-Next, Gives, given, put_page, put_rows, rows_in, collect_rows_lem,
}

module _ {S R : Type 0} where
  module _ (http : Session S R) where
    -- Following `nextUri` until a page has none or an answer fails: the pages read, and the states.
    pub data Polls : Option String → S → Result Failure (List (Page R)) → S → Type 0 where
      finished : (s : S) → Polls none s (ok []) s
      failed :
          (uri : String) (s : S) (e : Failure)
          → Gives (Session.get http uri s).0 (err e)
          → Polls (some uri) s (err e) (Session.get http uri s).1
      followed :
          (uri : String) (s s' : S) (page : Page R) (next : Option String)
          (r : Result Failure (List (Page R)))
          → Gives (Session.get http uri s).0 (ok page)
          → Next page.next_uri next
          → Polls next (Session.get http uri s).1 r s'
          → Polls (some uri) s (put_page page r) s'

    -- One statement: the POST fails, or its page is followed and the rows of all pages are the result.
    pub data Runs (sql : String) (env : List (String × String)) (s : S)
        : Result Failure (List R) → S → Type 0 where
      refused :
          (e : Failure)
          → (first_page http sql env s).0 ≡ err e
          → Runs sql env s (err e) (first_page http sql env s).1
      polled :
          (page : Page R) (next : Option String) (r : Result Failure (List (Page R))) (s' : S)
          → (first_page http sql env s).0 ≡ ok page
          → Next page.next_uri next
          → Polls next (first_page http sql env s).1 r s'
          → Runs sql env s (put_rows page r) s'

    -- Statements one after another, up to the first that fails.
    pub data RunsAll (env : List (String × String))
        : List String → S → Result Failure (Unit {0}) → S → Type 0 where
      all_done : (s : S) → RunsAll env [] s (ok tt) s
      stopped :
          (sql : String) (sqls : List String) (s s' : S) (e : Failure)
          → Runs sql env s (err e) s'
          → RunsAll env (sql ∷ sqls) s (err e) s'
      one_done :
          (sql : String) (sqls : List String) (s s' s'' : S) (rows : List R)
          (r : Result Failure (Unit {0}))
          → Runs sql env s (ok rows) s'
          → RunsAll env sqls s' r s''
          → RunsAll env (sql ∷ sqls) s r s''

    -- A server on which every statement comes to its end: a poll gives the last page, or brings the
    -- count of pages that are left down, and a POST that gives a page leaves fewer than the bound.
    pub record Progresses (left : S → ℕ) (bound : ℕ) : Type 0 where
      pub polls :
          (uri : String) (s : S) (page : Page R)
          → answer (Session.get http uri s).0 ≡ ok page
          → (truthy_uri page.next_uri ≡ none) ⊎ (left (Session.get http uri s).1 < left s)
      pub posts :
          (sql : String) (env : List (String × String)) (s : S) (page : Page R)
          → (first_page http sql env s).0 ≡ ok page
          → left (first_page http sql env s).1 < bound

    module _ (left : S → ℕ) (bound : ℕ) (progress : Progresses left bound) where
      abbrev Polled : ℕ → Option String → S → Type 0
      Polled fuel next s =
          (r : Result Failure (List (Page R))) × (s' : S) × (poll http fuel next s ≡ (some r, s'))
          × Polls next s r s'

      Polled-page :
          (fuel : ℕ) (uri : String) (s : S) (page : Page R)
          → answer (Session.get http uri s).0 ≡ ok page
          → Polled fuel (truthy_uri page.next_uri) (Session.get http uri s).1
          → Polled (suc fuel) (some uri) s
      unfolding poll
      Polled-page fuel uri s page e (ok pages, s', p, h) = (
        ok (page ∷ pages),
        s',
        rw e (rw p refl),
        followed uri s s' page (truthy_uri page.next_uri) (ok pages)
            (given (Session.get http uri s).0 (ok page) e) (truthy_uri-Next page.next_uri) h,
      )
      Polled-page fuel uri s page e (err x, s', p, h) = (
        err x,
        s',
        rw e (rw p refl),
        followed uri s s' page (truthy_uri page.next_uri) (err x)
            (given (Session.get http uri s).0 (ok page) e) (truthy_uri-Next page.next_uri) h,
      )

      poll-Polls :
          (fuel : ℕ) (next : Option String) (s : S)
          → (next ≡ none) ⊎ (left s < fuel)
          → Polled fuel next s
      unfolding poll
      poll-Polls zero none s h = (ok [], s, refl, finished s)
      poll-Polls (suc fuel) none s h = (ok [], s, refl, finished s)
      poll-Polls zero (some uri) s (inl h) = absurd (cc h)
      poll-Polls zero (some uri) s (inr h) = elim h [ ]
      poll-Polls (suc fuel) (some uri) s (inl h) = absurd (cc h)
      poll-Polls (suc fuel) (some uri) s (inr h) =
          elim (Result-cases (answer (Session.get http uri s).0)) [
            | inl (page, e) ↦ Polled-page fuel uri s page e (
                poll-Polls fuel (truthy_uri page.next_uri) (Session.get http uri s).1
                  (elim (Progresses.polls progress uri s page e) [
                    | inl last ↦ inl last
                    | inr fewer ↦ inr (omega arith)
                  ]))
            | inr (x, e) ↦ (
              err x,
              (Session.get http uri s).1,
              rw e refl,
              failed uri s x (given (Session.get http uri s).0 (err x) e),
            )
          ]

      rows-Polled :
          (sql : String) (env : List (String × String)) (s : S) (page : Page R)
          → (first_page http sql env s).0 ≡ ok page
          → Polled bound (truthy_uri page.next_uri) (first_page http sql env s).1
          → (r : Result Failure (List R)) × (s' : S) × (run_statement http bound sql env s
              ≡ (some r, s'))
            × Runs sql env s r s'
      unfolding run_statement
      rows-Polled sql env s page e (ok pages, s', p, h) = (
        ok (rows_in (page ∷ pages)),
        s',
        rw e (rw p (rw (collect_rows_lem (page ∷ pages)) refl)),
        polled page (truthy_uri page.next_uri) (ok pages) s' e (truthy_uri-Next page.next_uri) h,
      )
      rows-Polled sql env s page e (err x, s', p, h) = (
        err x,
        s',
        rw e (rw p refl),
        polled page (truthy_uri page.next_uri) (err x) s' e (truthy_uri-Next page.next_uri) h,
      )

      -- On a server that brings every statement to its end, with the bound as the polls, a statement
      -- has a result: that of its POST if it fails, else that of following `nextUri`, which is the rows
      -- of all pages in order, or the first failure.
      pub run_statement-Runs :
          (sql : String) (env : List (String × String)) (s : S)
          → (r : Result Failure (List R)) × (s' : S) × (run_statement http bound sql env s
              ≡ (some r, s'))
            × Runs sql env s r s'
      run_statement-Runs sql env s = elim (Result-cases (first_page http sql env s).0) [
        | inl (page, e) ↦ rows-Polled sql env s page e (
            poll-Polls bound (truthy_uri page.next_uri) (first_page http sql env s).1
              (inr (Progresses.posts progress sql env s page e)))
        | inr (x, e) ↦
            (err x, (first_page http sql env s).1, unfold run_statement in rw e refl, refused x e)
      ]

      abbrev pub RanAll : List String → List (String × String) → S → Type 0
      RanAll sqls env s =
          (r : Result Failure (Unit {0})) × (s' : S) × (run_statements http bound sqls env s
            ≡ (some r, s'))
          × RunsAll env sqls s r s'

      one_more :
          (sql : String) (sqls : List String) (env : List (String × String)) (s : S)
          → (r : Result Failure (List R)) × (s' : S) × (run_statement http bound sql env s
              ≡ (some r, s'))
            × Runs sql env s r s'
          → ((s' : S) → RanAll sqls env s')
          → RanAll (sql ∷ sqls) env s
      unfolding run_statements
      one_more sql sqls env s (ok rows, s', p, h) rest =
          let (r, s'', q, j) = rest s' in (r, s'', rw p q, one_done sql sqls s s' s'' rows r h j)
      one_more sql sqls env s (err x, s', p, h) rest =
          (err x, s', rw p refl, stopped sql sqls s s' x h)

      pub run_statements-RunsAll :
          (sqls : List String) (env : List (String × String)) (s : S) → RanAll sqls env s
      unfolding run_statements
      run_statements-RunsAll [] env s = (ok tt, s, refl, all_done s)
      run_statements-RunsAll (sql ∷ sqls) env s =
          one_more sql sqls env s (run_statement-Runs sql env s)
            (λ s'. run_statements-RunsAll sqls env s')
