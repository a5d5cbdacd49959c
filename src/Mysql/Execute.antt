-- ===== src/Mysql/Execute.antt =====
-- `MySQLConnection::execute` and `ping`.
use uctool.Common.{
  ℕ, zero, suc, ◌+◌, ◌≤◌, ◌≡◌, ◌≢◌, refl, ap, ◌∙◌, ◌⊎◌, inl, inr, Bool, true, false, List, [], ◌∷◌,
  ◌++◌, Bytes, leb, ◌==◌, arith, ==_iff, Bool-cases, append_assoc,
}
use uctool.Mysql.Post.{replicate, Post, Post-bind, Post-mono, SameQueries}
use uctool.Mysql.{
  MysqlApi, Session, done, null_handle, attempt, reconnect, execute_loop, execute, ensure_open,
  query_once, ping_once, open_conn, close_conn, ping, ping_again, is_network_error, ConnectInfo,
}

module _ (mysql : MysqlApi) where
  open mysql use {World}

  open_conn-queries : (s : Session mysql) → Post mysql (SameQueries mysql s) (open_conn mysql s)
  unfolding open_conn
  open_conn-queries s = ground arith

  ensure_open-queries : (s : Session mysql) → Post mysql (SameQueries mysql s) (ensure_open mysql s)
  unfolding ensure_open
  ensure_open-queries s = ground arith

  -- After an attempt one more statement has been passed on, and the world is as the call that gave
  -- this error number left it.
  abbrev Tried : Bytes → Session mysql → ℕ → Session mysql → Type 0
  Tried sql s e t =
      (t.queries ≡ s.queries ++ sql ∷ [])
      × (t.conn ≡ true)
      × ((w : World) × (mysql.query sql w ≡ (e, t.world)))

  query_once-Tried :
      (sql : Bytes) (s : Session mysql) → Post mysql (Tried sql s) (query_once mysql sql s)
  unfolding query_once
  query_once-Tried sql s = elim (Bool-cases s.conn) [
    | inl live ↦ rw live (refl, refl, (s.world, refl))
    | inr shut ↦ rw shut tt
  ]

  attempt-Tried : (sql : Bytes) (s : Session mysql) → Post mysql (Tried sql s) (attempt mysql sql s)
  unfolding attempt
  attempt-Tried sql s =
      Post-bind mysql (SameQueries mysql s) (Tried sql s) (ensure_open mysql s) _
        (ensure_open-queries s) λ a t e. rw (← e) (query_once-Tried sql t)

  reconnect-queries : (s : Session mysql) → Post mysql (SameQueries mysql s) (reconnect mysql s)
  unfolding reconnect
  reconnect-queries s = ground arith

  -- From one to `n` copies of the statement have been passed on; and if the run gave true, the world
  -- is as a successful call of the library left it.
  abbrev pub Executed : ℕ → Bytes → Session mysql → Bool → Session mysql → Type 0
  Executed n sql s ok t =
      ((k : ℕ) × (1 ≤ k) × (k ≤ n) × (t.queries ≡ s.queries ++ replicate k sql))
      × (ok ≡ true → (w : World) × (mysql.query sql w ≡ (0, t.world)))

  first_try :
      (n : ℕ) (sql : Bytes) (s t : Session mysql) (e : ℕ) (ok : Bool)
      → Tried sql s e t
      → 1 ≤ n
      → (ok ≡ true → e ≡ 0)
      → Executed n sql s ok t
  first_try n sql s t e ok tried pos good =
      let (q, _, (w, call)) = tried in
      ((1, omega arith, pos, q), λ yes_ok. (w, call ∙ ap (λ (z : ℕ). (z, t.world)) (good yes_ok)))

  one_more :
      (n : ℕ) (sql : Bytes) (s t u v : Session mysql) (e : ℕ) (ok : Bool)
      → Tried sql s e t
      → SameQueries mysql t tt u
      → Executed n sql u ok v
      → Executed (suc n) sql s ok v
  one_more n sql s t u v e ok tried same ran =
      let (q, _, _) = tried in
      let ((k, lo, hi, more), good) = ran in
      (
        (
          suc k,
          omega arith,
          omega arith,
          more
              ∙ ap (λ (l : List Bytes). l ++ replicate k sql) (same ∙ q)
              ∙ append_assoc s.queries (sql ∷ []) (replicate k sql),
        ),
        good,
      )

  last_time : (times : ℕ) → times + 1 ≡ 4 → leb (suc times) 3 ≡ false
  last_time times h = ground arith

  not_last : (times fuel : ℕ) → times + suc (suc fuel) ≡ 4 → leb (suc times) 3 ≡ true
  not_last times fuel h = ground arith

  execute_loop-Executed :
      (fuel times : ℕ) (sql : Bytes) (s : Session mysql)
      → times + suc fuel ≡ 4
      → Post mysql (Executed (suc fuel) sql s) (execute_loop mysql (suc fuel) times sql s)
  unfolding execute_loop
  execute_loop-Executed zero times sql s room =
      Post-bind mysql (Tried sql s) (Executed 1 sql s) (attempt mysql sql s) _ (attempt-Tried sql s)
        λ e t tried. elim (Bool-cases (e == 0)) [
          | inl fine ↦
              rw fine (first_try 1 sql s t e true tried (omega arith) (λ _. (==_iff e 0).0 fine))
          | inr bad ↦ elim (Bool-cases (is_network_error mysql e)) [
            | inl lost ↦
                rw (bad, lost, last_time times room)
                  (first_try 1 sql s t e false tried (omega arith) (λ h. cc))
            | inr other ↦
                rw (bad, other) (first_try 1 sql s t e false tried (omega arith) (λ h. cc))
          ]
        ]
  execute_loop-Executed (suc fuel) times sql s room =
      Post-bind mysql (Tried sql s) (Executed (suc (suc fuel)) sql s) (attempt mysql sql s) _
        (attempt-Tried sql s)
        λ e t tried. elim (Bool-cases (e == 0)) [
          | inl fine ↦
              rw fine (first_try _ sql s t e true tried (omega arith) (λ _. (==_iff e 0).0 fine))
          | inr bad ↦ elim (Bool-cases (is_network_error mysql e)) [
            | inl lost ↦
                rw (bad, lost, not_last times fuel room)
                  (Post-bind mysql (SameQueries mysql t) (Executed (suc (suc fuel)) sql s)
                    (reconnect mysql t) _ (reconnect-queries t)
                    λ a u same.
                      Post-mono mysql (Executed (suc fuel) sql u) (Executed (suc (suc fuel)) sql s)
                        (execute_loop mysql (suc fuel) (suc times) sql u)
                        (execute_loop-Executed fuel (suc times) sql u (omega arith))
                        λ ok v. one_more (suc fuel) sql s t u v e ok tried same)
            | inr other ↦
                rw (bad, other) (first_try _ sql s t e false tried (omega arith) (λ h. cc))
          ]
        ]

  pub execute-Executed :
      (sql : Bytes) (s : Session mysql) → Post mysql (Executed 4 sql s) (execute mysql sql s)
  unfolding execute
  execute-Executed sql s = execute_loop-Executed 3 0 sql s refl

  attempt_live :
      (sql : Bytes) (s : Session mysql) (e : ℕ) (w : World)
      → s.conn ≡ true
      → mysql.query sql s.world ≡ (e, w)
      → attempt mysql sql s ≡ done e (record s { world = w; queries = s.queries ++ sql ∷ [] })
  unfolding attempt ensure_open query_once
  attempt_live sql s e w live call = simp (live, call)

  loop_refused :
      (fuel times : ℕ) (sql : Bytes) (s : Session mysql) (e : ℕ) (t : Session mysql)
      → attempt mysql sql s ≡ done e t
      → (e == 0) ≡ false
      → is_network_error mysql e ≡ false
      → execute_loop mysql (suc fuel) times sql s ≡ done false t
  unfolding execute_loop
  loop_refused fuel times sql s e t tried bad other = rw (tried, bad, other)

  -- A statement that fails on an open connection with an error other than 2006 and 2013 is not
  -- tried again: `execute` gives false after one call of the library.
  pub execute_refused :
      (sql : Bytes) (s : Session mysql) (e : ℕ) (w : World)
      → s.conn ≡ true
      → mysql.query sql s.world ≡ (e, w)
      → e ≢ 0
      → e ≢ 2006
      → e ≢ 2013
      → execute mysql sql s ≡ done false (record s { world = w; queries = s.queries ++ sql ∷ [] })
  unfolding execute
  execute_refused sql s e w live call h₀ h₁ h₂ =
      loop_refused 3 0 sql s e _ (attempt_live sql s e w live call) (ground arith) (ground arith)

  ensure_open_unreachable :
      (s : Session mysql)
      → s.conn ≡ false
      → ((i : ConnectInfo) (w : World) → (mysql.real_connect i w).0 ≡ false)
      → (ensure_open mysql s ≡ null_handle)
        ⊎ ((t : Session mysql) × (ensure_open mysql s ≡ done tt t) × (t.conn ≡ false))
  unfolding ensure_open
  ensure_open_unreachable s shut refused = elim (Bool-cases (mysql.init s.world).0) [
    | inl got ↦ inr (
      record s {
        conn = false;
        world = mysql.close (mysql.real_connect s.info (mysql.init s.world).1).1;
      },
      ground (arith, refused s.info (mysql.init s.world).1),
      refl,
    )
    | inr none_got ↦ inl (ground arith)
  ]

  attempt_unreachable :
      (sql : Bytes) (s : Session mysql)
      → s.conn ≡ false
      → ((i : ConnectInfo) (w : World) → (mysql.real_connect i w).0 ≡ false)
      → attempt mysql sql s ≡ null_handle
  unfolding attempt query_once
  attempt_unreachable sql s shut refused = elim (ensure_open_unreachable s shut refused) [
    | inl e ↦ rw e
    | inr (t, e, c) ↦ rw (e, c)
  ]

  loop_unreachable :
      (fuel times : ℕ) (sql : Bytes) (s : Session mysql)
      → attempt mysql sql s ≡ null_handle
      → execute_loop mysql (suc fuel) times sql s ≡ null_handle
  unfolding execute_loop
  loop_unreachable fuel times sql s e = rw e

  -- Where the server cannot be reached, `execute` and `ping` on a connection that is not open pass
  -- the null handle to the library: what `open` returns is not looked at.
  pub execute_unreachable :
      (sql : Bytes) (s : Session mysql)
      → s.conn ≡ false
      → ((i : ConnectInfo) (w : World) → (mysql.real_connect i w).0 ≡ false)
      → (execute mysql sql s ≡ null_handle) × (ping mysql s ≡ null_handle)
  unfolding execute ping ping_once
  execute_unreachable sql s shut refused = (
    loop_unreachable 3 0 sql s (attempt_unreachable sql s shut refused),
    elim (ensure_open_unreachable s shut refused) [ inl e ↦ rw e | inr (t, e, c) ↦ rw (e, c) ],
  )

  ping_once-queries : (s : Session mysql) → Post mysql (SameQueries mysql s) (ping_once mysql s)
  unfolding ping_once
  ping_once-queries s = ground arith

  ping_again-queries : (s : Session mysql) → Post mysql (SameQueries mysql s) (ping_again mysql s)
  unfolding ping_again
  ping_again-queries s = ground arith

  -- `ping` passes no statement on.
  pub ping-queries : (s : Session mysql) → Post mysql (SameQueries mysql s) (ping mysql s)
  unfolding ping
  ping-queries s =
      Post-bind mysql (SameQueries mysql s) (SameQueries mysql s) (ensure_open mysql s) _
        (ensure_open-queries s)
        λ a t e.
          Post-bind mysql (SameQueries mysql t) (SameQueries mysql s) (ping_once mysql t) _
            (ping_once-queries t)
            λ n u f. elim (Bool-cases (n == 0)) [
              | inl fine ↦ rw fine (f ∙ e)
              | inr bad ↦ rw bad (
                  Post-mono mysql (SameQueries mysql u) (SameQueries mysql s) (ping_again mysql u)
                    (ping_again-queries u) λ b v g. g ∙ f ∙ e)
            ]

  pub close_conn-queries :
      (s : Session mysql) → Post mysql (SameQueries mysql s) (close_conn mysql s)
  unfolding close_conn
  close_conn-queries s = ground arith
