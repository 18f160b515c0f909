-- ===== src/Database/Inserts.antt =====
-- What `Database::queryInsert` sends to the server, and how often.
use powerguru.Prelude.{
  ℕ, suc, ◌+◌, ◌≡◌, refl, ap, ◌∙◌, Bool, true, false, false≢true, Bool-cases, if◌then◌else◌, Option,
  none, some, List, [], ◌∷◌, ◌++◌, append_assoc, Text, length, length-append, ◌⊎◌, inl, inr,
}
use powerguru.Database.Maria.{
  Call, Answer, server_lost, commands_out_of_sync, server_gone_error, minus_one, unknown_error,
  other, mysql_init, mysql_close, mysql_real_connect, mysql_real_query, Maria, outcome, Server,
  call, open_db, close_db, reconnect, query_loop, query_insert,
}

-- The connection is made anew.
abbrev pub connection : Maria → List Call
connection db =
    mysql_close ∷ mysql_init ∷ mysql_real_connect db.dbhost db.dbuser db.dbpasswd db.dbname ∷ []

-- The result of a query and its calls, from the answers to the first try and to the second.
abbrev pub tries : Text → List Call → Option Bool → Option Bool → Bool × List Call
tries query again (some result) second = (result, mysql_real_query query ∷ [])
tries query again none (some result) =
    (result, mysql_real_query query ∷ again ++ mysql_real_query query ∷ [])
tries query again none none =
    (false, mysql_real_query query ∷ again ++ mysql_real_query query ∷ again)

-- The answers of a lost connection, and the answer of a query that was done.
abbrev pub is_lost : Answer → Bool
is_lost server_lost = true
is_lost commands_out_of_sync = true
is_lost server_gone_error = true
is_lost _ = false

abbrev pub succeeds : Answer → Bool
succeeds other = true
succeeds _ = false

-- The result and the calls, from the answers to the two tries.
abbrev pub expected : Text → List Call → Answer → Answer → Bool × List Call
expected query again first second =
    let last = if is_lost second then again else [] in
    if is_lost first
    then (succeeds second, mysql_real_query query ∷ again ++ mysql_real_query query ∷ last)
    else (succeeds first, mysql_real_query query ∷ [])

outcome_lem : (a : Answer) → outcome a ≡ (if is_lost a then none else some (succeeds a))
outcome_lem server_lost = refl
outcome_lem commands_out_of_sync = refl
outcome_lem server_gone_error = refl
outcome_lem minus_one = refl
outcome_lem unknown_error = refl
outcome_lem other = refl

lost_fails : (a : Answer) → is_lost a ≡ true → succeeds a ≡ false
lost_fails other e = absurd (false≢true e)
lost_fails _ e = refl

tries-expected :
    (query : Text) (again : List Call) (first second : Answer)
    → tries query again (outcome first) (outcome second) ≡ expected query again first second
tries-expected query again first second =
    rw (outcome_lem first, outcome_lem second)
      (elim (Bool-cases (is_lost first)) [
        | inr e ↦ rw e refl
        | inl e ↦ elim (Bool-cases (is_lost second)) [
          | inl e' ↦ rw (e, e', lost_fails second e') refl
          | inr e' ↦ rw (e, e') refl
        ]
      ])

option_cases {ℓ} : {A : Type ℓ} (o : Option A) → (o ≡ none) ⊎ ((a : A) × (o ≡ some a))
option_cases none = inl refl
option_cases (some a) = inr (a, refl)

module _ (server : Server) (query : Text) where
  one_round :
      (retries : ℕ) (db : Maria) (result : Bool)
      → outcome (server.answer (length db.calls)) ≡ some result
      → query_loop server (suc retries) query db ≡ (result, call (mysql_real_query query) db)
  unfolding query_loop
  one_round retries db result e = rw (e, query_loop) refl

  lost_round :
      (retries : ℕ) (db : Maria)
      → outcome (server.answer (length db.calls)) ≡ none
      → query_loop server (suc retries) query db
        ≡ query_loop server retries query (reconnect server (call (mysql_real_query query) db))
  unfolding query_loop
  lost_round retries db e = rw (e, query_loop) refl

  no_round : (db : Maria) → query_loop server 0 query db ≡ (false, db)
  unfolding query_loop
  no_round db = refl

  -- What a lost try adds.
  after_lost :
      (db : Maria)
      → let again = reconnect server (call (mysql_real_query query) db) in
        (again.calls ≡ db.calls ++ mysql_real_query query ∷ connection db)
        × (connection again ≡ connection db)
        × (length again.calls ≡ length db.calls + 4)
  unfolding reconnect open_db close_db call
  after_lost db =
      let longer = length-append db.calls (mysql_real_query query ∷ connection db) in
      let added : (reconnect server (call (mysql_real_query query) db)).calls
          ≡ db.calls ++ mysql_real_query query ∷ connection db =
        simp append_assoc refl in
      (added, refl, ap length added ∙ longer)

  after_call :
      (db : Maria)
      → let db' = call (mysql_real_query query) db in
        (db'.calls ≡ db.calls ++ mysql_real_query query ∷ []) × (connection db' ≡ connection db)
  unfolding call
  after_call db = (refl, refl)

  -- The calls and the result, from the outcomes of the two tries.
  pub query_insert-outcomes :
      (db : Maria)
      → let n = length db.calls in
        let first = outcome (server.answer n) in
        let second = outcome (server.answer (n + 4)) in
        let (result, sent) = tries query (connection db) first second in
        (db' : Maria) × (query_insert server query db ≡ (result, db'))
        × (db'.calls ≡ db.calls ++ sent)
        × (connection db' ≡ connection db)
  unfolding query_insert
  query_insert-outcomes db = elim (option_cases (outcome (server.answer (length db.calls)))) [
    | inr (result, e) ↦
        let (calls, same) = after_call db in
        (call (mysql_real_query query) db, rw e (one_round 1 db result e), rw e calls, same)
    | inl e ↦
        let again = reconnect server (call (mysql_real_query query) db) in
        let (calls, same, longer) = after_lost db in
        let tried = mysql_real_query query ∷ connection db in
        let next : outcome (server.answer (length again.calls))
            ≡ outcome (server.answer (length db.calls + 4)) =
          ap (λ n. outcome (server.answer n)) longer in
        elim (option_cases (outcome (server.answer (length db.calls + 4)))) [
          | inr (result, e') ↦
              let (calls', same') = after_call again in
              (
                call (mysql_real_query query) again,
                rw (e, e') (lost_round 1 db e ∙ one_round 0 again result (next ∙ e')),
                rw (e, e')
                    (calls'
                      ∙ ap (λ cs. cs ++ mysql_real_query query ∷ []) calls
                      ∙ append_assoc db.calls tried (mysql_real_query query ∷ [])),
                same' ∙ same,
              )
          | inl e' ↦
              let (calls', same', _) = after_lost again in
              (
                reconnect server (call (mysql_real_query query) again),
                rw (e, e')
                    (lost_round 1 db e
                      ∙ lost_round 0 again (next ∙ e')
                      ∙ no_round (reconnect server (call (mysql_real_query query) again))),
                rw (e, e')
                    (calls'
                      ∙ ap (λ c. again.calls ++ mysql_real_query query ∷ c) same
                      ∙ ap (λ cs. cs ++ tried) calls
                      ∙ append_assoc db.calls tried tried),
                same' ∙ same,
              )
        ]
  ]

  -- A query is sent once, or once more on a new connection where the answer is that of a lost one:
  -- a lost server, commands out of sync or a server that is gone. Its result is true only for an
  -- answer that is neither of these, nor -1, nor the code of an unknown error.
  pub query_insert-tries :
      (db : Maria)
      → let n = length db.calls in
        let (result, sent) =
          expected query (connection db) (server.answer n) (server.answer (n + 4)) in
        (db' : Maria) × (query_insert server query db ≡ (result, db'))
        × (db'.calls ≡ db.calls ++ sent)
        × (connection db' ≡ connection db)
  query_insert-tries db =
      let n = length db.calls in
      let (db', run, added, same) = query_insert-outcomes db in
      let e = tries-expected query (connection db) (server.answer n) (server.answer (n + 4)) in
      (db', run ∙ ap (λ r. (r.0, db')) e, added ∙ ap (λ r. db.calls ++ r.1) e, same)
