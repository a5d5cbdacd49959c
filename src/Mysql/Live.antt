-- ===== src/Mysql/Live.antt =====
-- What a connection to a server that is up does: every call of the library answers, so that each run
-- comes to its end, and the contents of the database change by the statements alone. `contents` is
-- any view of the server's data.
use uctool.Common.{◌≡◌, refl, ap, ◌∙◌, inl, inr, Bool, true, List, Option, some, Bytes, Bool-cases}
use uctool.Mysql.{
  MysqlApi, ConnectInfo, Row, Session, Answer, done, null_handle, out_of_fuel, bind_answer,
  close_conn, ensure_open, ping_once, ping, query_once, attempt, execute_loop, execute, query_rows,
}

-- The documented answers of a server that is up.
pub record IsLive {Contents : Type 0} (mysql : MysqlApi) (contents : mysql.World → Contents)
    : Type 0 where
  pub init_ok : (w : mysql.World) → (mysql.init w).0 ≡ true
  pub connect_ok : (i : ConnectInfo) (w : mysql.World) → (mysql.real_connect i w).0 ≡ true
  pub ping_ok : (w : mysql.World) → (mysql.ping w).0 ≡ 0
  pub init_keeps : (w : mysql.World) → contents (mysql.init w).1 ≡ contents w
  pub connect_keeps :
      (i : ConnectInfo) (w : mysql.World) → contents (mysql.real_connect i w).1 ≡ contents w
  pub configure_keeps : (w : mysql.World) → contents (mysql.configure w) ≡ contents w
  pub close_keeps : (w : mysql.World) → contents (mysql.close w) ≡ contents w
  pub ping_keeps : (w : mysql.World) → contents (mysql.ping w).1 ≡ contents w
  pub store_keeps : (w : mysql.World) → contents (mysql.store_result w).1 ≡ contents w

module _ (mysql : MysqlApi) where
  -- The run comes to its end, with this of its result.
  abbrev pub Returns : {A : Type 0} → (A → Session mysql → Type 0) → Answer mysql A → Type 0
  Returns P (done a t) = P a t
  Returns P null_handle = ⊥
  Returns P out_of_fuel = ⊥

  pub Returns-bind :
      {A B : Type 0} (P : A → Session mysql → Type 0) (Q : B → Session mysql → Type 0)
      (r : Answer mysql A) (f : A → Session mysql → Answer mysql B)
      → Returns P r
      → ((a : A) (t : Session mysql) → P a t → Returns Q (f a t))
      → Returns Q (bind_answer mysql r f)
  Returns-bind P Q (done a t) f h k = k a t h
  Returns-bind P Q null_handle f h k = absurd h
  Returns-bind P Q out_of_fuel f h k = absurd h

  pub Returns-mono :
      {A : Type 0} (P Q : A → Session mysql → Type 0) (r : Answer mysql A)
      → Returns P r
      → ((a : A) (t : Session mysql) → P a t → Q a t)
      → Returns Q r
  Returns-mono P Q (done a t) h k = k a t h
  Returns-mono P Q null_handle h k = absurd h
  Returns-mono P Q out_of_fuel h k = absurd h

  pub Returns-done :
      {A : Type 0} (P : A → Session mysql → Type 0) (r : Answer mysql A)
      → Returns P r
      → (a : A) × (t : Session mysql) × (r ≡ done a t) × P a t
  Returns-done P (done a t) h = (a, t, refl, h)
  Returns-done P null_handle h = absurd h
  Returns-done P out_of_fuel h = absurd h

  module _ {Contents : Type 0} (contents : mysql.World → Contents)
      (live : IsLive mysql contents) where
    -- The call changes nothing in the database, and the connection is open behind it.
    abbrev Opened : {A : Type 0} → Session mysql → A → Session mysql → Type 0
    Opened s a t = (t.conn ≡ true) × (contents t.world ≡ contents s.world)

    pub close_conn-live :
        (s : Session mysql)
        → Returns (λ _ t. contents t.world ≡ contents s.world) (close_conn mysql s)
    unfolding close_conn
    close_conn-live s = elim (Bool-cases s.conn) [
      | inl is_open ↦ rw (is_open) (live.close_keeps s.world)
      | inr shut ↦ rw (shut) refl
    ]

    ensure_open-live : (s : Session mysql) → Returns (Opened s) (ensure_open mysql s)
    unfolding ensure_open
    ensure_open-live s = elim (Bool-cases s.conn) [
      | inl is_open ↦ rw (is_open) (refl, refl)
      | inr shut ↦
          let w = (mysql.init s.world).1 in
          rw (shut, live.init_ok s.world, live.connect_ok s.info w)
            (
              refl,
              live.configure_keeps (mysql.real_connect s.info w).1
                  ∙ live.connect_keeps s.info w
                  ∙ live.init_keeps s.world,
            )
    ]

    ping_once-live :
        (s : Session mysql)
        → s.conn ≡ true
        → Returns (λ e t. (e ≡ 0) × (contents t.world ≡ contents s.world)) (ping_once mysql s)
    unfolding ping_once
    ping_once-live s is_open = rw (is_open) (live.ping_ok s.world, live.ping_keeps s.world)

    pub ping-live :
        (s : Session mysql)
        → Returns (λ ok t. (ok ≡ true) × (contents t.world ≡ contents s.world)) (ping mysql s)
    unfolding ping
    ping-live s =
        Returns-bind (Opened s) _ (ensure_open mysql s) _ (ensure_open-live s) λ a t opened.
          Returns-bind (λ e u. (e ≡ 0) × (contents u.world ≡ contents t.world)) _
            (ping_once mysql t) _ (ping_once-live t opened.0)
            λ e u pinged. rw (pinged.0) (refl, pinged.1 ∙ opened.1)

    -- The statement was carried out once, by the server as it was with these contents.
    abbrev pub Carried : Bytes → Session mysql → Bool → Session mysql → Type 0
    Carried sql s ok t =
        (ok ≡ true)
        × ((w : mysql.World) × (contents w ≡ contents s.world) × (t.world ≡ (mysql.query sql w).1))

    -- The server accepts the statement, whatever else is the case, while it has these contents.
    abbrev pub Accepts : Bytes → Contents → Type 0
    Accepts sql c = (w : mysql.World) → contents w ≡ c → (mysql.query sql w).0 ≡ 0

    attempt-live :
        (sql : Bytes) (s : Session mysql)
        → Accepts sql (contents s.world)
        → Returns
            (λ e t.
              (e ≡ 0)
              × ((w : mysql.World) × (contents w ≡ contents s.world)
                  × (t.world ≡ (mysql.query sql w).1)))
            (attempt mysql sql s)
    unfolding attempt query_once
    attempt-live sql s accepts =
        Returns-bind (Opened s) _ (ensure_open mysql s) _ (ensure_open-live s)
          λ a t opened. rw (opened.0) (accepts t.world opened.1, (t.world, opened.1, refl))

    pub execute-live :
        (sql : Bytes) (s : Session mysql)
        → Accepts sql (contents s.world)
        → Returns (Carried sql s) (execute mysql sql s)
    unfolding execute execute_loop
    execute-live sql s accepts =
        Returns-bind
          (λ e t.
            (e ≡ 0)
            × ((w : mysql.World) × (contents w ≡ contents s.world)
                × (t.world ≡ (mysql.query sql w).1)))
          (Carried sql s) (attempt mysql sql s) _ (attempt-live sql s accepts)
          λ e t sent. rw (sent.0) (refl, sent.1)

    -- The rows are those of the statement, carried out once.
    abbrev pub Fetched : Bytes → Session mysql → Option (List Row) → Session mysql → Type 0
    Fetched sql s found t =
        (w : mysql.World) × (contents w ≡ contents s.world)
        × (found ≡ some (mysql.store_result (mysql.query sql w).1).0)
        × (contents t.world ≡ contents (mysql.query sql w).1)

    pub query_rows-live :
        (sql : Bytes) (s : Session mysql)
        → Accepts sql (contents s.world)
        → Returns (Fetched sql s) (query_rows mysql sql s)
    unfolding query_rows
    query_rows-live sql s accepts =
        Returns-bind (Carried sql s) (Fetched sql s) (execute mysql sql s) _
          (execute-live sql s accepts)
          λ ok t ran.
            let (good, (w, same, at)) = ran in
            rw (good) (
              w,
              same,
              ap (λ v. some (mysql.store_result v).0) at,
              live.store_keeps t.world ∙ ap contents at,
            )
