-- ===== src/Mysql/Insert.antt =====
-- `multiInsert` and `update` of common/MySQLConnection.cc.
use uctool.Common.{
  ℕ, ◌-◌, ◌≤◌, ◌≡◌, ◌≢◌, refl, sym, ap, subst, ◌∙◌, inl, inr, Bool, true, false, ◌||◌, List, [],
  ◌∷◌, ◌++◌, Bytes, codes, length, take, ltb, leb, ◌==◌, if◌then◌else◌, ℤ, pos, negsuc, arith,
  Bool-cases, append_assoc, append-nil, length-append, take-length_append,
}
use uctool.Mysql.{MysqlApi, Session, M, ◌>>=◌, pure, done, execute}
use uctool.Mysql.Post.{Post, Post-bind, Post-mono, replicate}
use uctool.Mysql.Execute.{Executed, execute-Executed}

abbrev pub max_sql : ℕ
max_sql = 16777216

abbrev pub item : Bytes → Bytes
item value = codes "(" ++ value ++ codes "),"

abbrev pub insert_prefix : Bytes → Bytes → Bytes
insert_prefix table fields =
    codes "INSERT INTO `" ++ table ++ codes "`(" ++ fields ++ codes ") VALUES "

-- `sql.resize(sql.length() - 1)`
abbrev pub shorten : Bytes → Bytes
shorten sql = take (length sql - 1) sql

module _ (mysql : MysqlApi) where
  -- `update`; the count of rows is that of the library.
  unfoldable pub update : Bytes → M mysql ℤ
  update sql =
      ◌>>=◌ mysql (execute mysql sql)
        λ ok s. done (if ok then pos (mysql.affected_rows s.world) else negsuc 0) s

  unfoldable pub insert_loop : Bytes → Bytes → List Bytes → M mysql Bool
  insert_loop prefix sql [] =
      if ltb (length prefix) (length sql) then execute mysql (shorten sql) else pure mysql true
  insert_loop prefix sql (value ∷ values) =
      let full = sql ++ item value in
      let afresh = insert_loop prefix prefix values in
      let onwards = insert_loop prefix full values in
      if leb max_sql (length full)
      then ◌>>=◌ mysql (execute mysql (shorten full))
          (λ ok. if ok then afresh else pure mysql false)
      else onwards

  unfoldable pub multi_insert : Bytes → Bytes → List Bytes → M mysql Bool
  unfolding insert_loop
  multi_insert table fields values =
      if length values == 0 || length fields == 0 || length table == 0
      then pure mysql false
      else insert_loop (insert_prefix table fields) (insert_prefix table fields) values

-- The rows of a statement, with a comma between two.
abbrev pub rows_text : List Bytes → Bytes
rows_text [] = []
rows_text (v ∷ []) = codes "(" ++ v ++ codes ")"
rows_text (v ∷ w ∷ ws) = codes "(" ++ v ++ codes ")," ++ rows_text (w ∷ ws)

-- The log of an insertion: the values in order, each in one statement, which is passed on one to
-- four times.
pub data Inserts (prefix : Bytes) : List Bytes → List Bytes → Type 0 where
  no_more : {vs log : List Bytes} → vs ≡ [] → log ≡ [] → Inserts prefix vs log
  inserts :
      {vs log : List Bytes} (row rest later : List Bytes) (k : ℕ)
      → vs ≡ row ++ rest
      → row ≢ []
      → 1 ≤ k
      → k ≤ 4
      → log ≡ replicate k (prefix ++ rows_text row) ++ later
      → Inserts prefix rest later
      → Inserts prefix vs log

items : List Bytes → Bytes
items [] = []
items (v ∷ vs) = item v ++ items vs

items-append : (vs : List Bytes) (v : Bytes) → items (vs ++ v ∷ []) ≡ items vs ++ item v
unfolding items
items-append [] v = append-nil (item v)
items-append (w ∷ vs) v =
    ap (λ (l : Bytes). item w ++ l) (items-append vs v)
    ∙ sym (append_assoc (item w) (items vs) (item v))

items-rows_text : (v : Bytes) (vs : List Bytes) → items (v ∷ vs) ≡ rows_text (v ∷ vs) ++ codes ","
unfolding items
items-rows_text v [] =
    append-nil (item v) ∙ sym (append_assoc (codes "(" ++ v) (codes ")") (codes ","))
items-rows_text v (w ∷ ws) =
    ap (λ (l : Bytes). item v ++ l) (items-rows_text w ws)
    ∙ sym (append_assoc (item v) (rows_text (w ∷ ws)) (codes ","))

append-cons : (row : List Bytes) (v : Bytes) → row ++ v ∷ [] ≢ []
append-cons [] v h = ground (arith, h)
append-cons (w ∷ row) v h = ground (arith, h)

-- Without its last comma the text is the statement.
shorten-items :
    (prefix : Bytes) (row : List Bytes)
    → row ≢ []
    → shorten (prefix ++ items row) ≡ prefix ++ rows_text row
shorten-items prefix [] h = absurd (h refl)
shorten-items prefix (v ∷ vs) h =
    let text : Bytes = prefix ++ rows_text (v ∷ vs) in
    let e : prefix ++ items (v ∷ vs) ≡ text ++ codes "," =
      ap (λ (l : Bytes). prefix ++ l) (items-rows_text v vs)
      ∙ sym (append_assoc prefix (rows_text (v ∷ vs)) (codes ",")) in
    let size : length (text ++ codes ",") - 1 ≡ length text =
      omega (arith, length-append text (codes ",")) in
    ap shorten e ∙ ap (λ n. take n (text ++ codes ",")) size ∙ take-length_append text (codes ",")

items-shorter :
    (prefix : Bytes) (row : List Bytes)
    → (ltb (length prefix) (length (prefix ++ items row)) ≡ true → row ≢ [])
      × (ltb (length prefix) (length (prefix ++ items row)) ≡ false → row ≡ [])
unfolding items
items-shorter prefix [] =
    let e : length (prefix ++ []) ≡ length prefix = ap length (append-nil prefix) in
    ((λ h. absurd (ground (arith, h, e))), λ h. refl)
items-shorter prefix (v ∷ vs) =
    let e = length-append prefix (items (v ∷ vs)) in
    ((λ h nil. absurd (ground (arith, nil))), λ h. absurd (ground (arith, h, e)))

module _ (mysql : MysqlApi) (prefix : Bytes) where
  -- Where the answer is true, these values have been inserted since `s`.
  abbrev Inserted : List Bytes → Session mysql → Bool → Session mysql → Type 0
  Inserted vs s ok t =
      ok ≡ true → (log : List Bytes) × (t.queries ≡ s.queries ++ log) × Inserts prefix vs log

  -- The loop from a text that has just grown.
  abbrev next : List Bytes → Bytes → M mysql Bool
  next vs full =
      if leb max_sql (length full)
      then ◌>>=◌ mysql (execute mysql (shorten full))
          (λ ok. if ok then insert_loop mysql prefix prefix vs else pure mysql false)
      else insert_loop mysql prefix full vs

  insert_loop-Inserted :
      (row vs : List Bytes) (s : Session mysql)
      → Post mysql (Inserted (row ++ vs) s) (insert_loop mysql prefix (prefix ++ items row) vs s)
  unfolding insert_loop items
  insert_loop-Inserted row [] s =
      elim (Bool-cases (ltb (length prefix) (length (prefix ++ items row)))) [
        | inl more ↦
            let filled : row ≢ [] = (items-shorter prefix row).0 more in
            rw more (
              Post-mono mysql (Executed mysql 4 (shorten (prefix ++ items row)) s) _ _
                (execute-Executed mysql (shorten (prefix ++ items row)) s)
                λ ok t ran good.
                  let ((k, lo, hi, q), _) = ran in
                  (
                    replicate k (shorten (prefix ++ items row)),
                    q,
                    inserts row [] [] k refl filled lo hi
                        (ap (replicate k) (shorten-items prefix row filled) ∙ sym (append-nil _))
                        (no_more refl refl),
                  ))
        | inr same ↦ rw same λ good. (
          [],
          sym (append-nil s.queries),
          no_more (append-nil row ∙ (items-shorter prefix row).1 same) refl,
        )
      ]
  insert_loop-Inserted row (v ∷ vs) s =
      let grown : List Bytes = row ++ v ∷ [] in
      let e : (prefix ++ items row) ++ item v ≡ prefix ++ items grown =
        append_assoc prefix (items row) (item v)
        ∙ ap (λ (l : Bytes). prefix ++ l) (sym (items-append row v)) in
      let filled : grown ≢ [] = append-cons row v in
      let all_of : grown ++ vs ≡ row ++ v ∷ vs = append_assoc row (v ∷ []) vs in
      subst
        (λ all.
          Post mysql (Inserted all s) (insert_loop mysql prefix (prefix ++ items row) (v ∷ vs) s))
        all_of
        (subst (λ full. Post mysql (Inserted (grown ++ vs) s) (next vs full s)) (sym e)
          (elim (Bool-cases (leb max_sql (length (prefix ++ items grown)))) [
            | inr fits ↦ rw fits (insert_loop-Inserted grown vs s)
            | inl big ↦ rw big (
                Post-bind mysql (Executed mysql 4 (shorten (prefix ++ items grown)) s) _ _ _
                  (execute-Executed mysql (shorten (prefix ++ items grown)) s)
                  λ ok t ran.
                    let ((k, lo, hi, q), _) = ran in
                    elim (Bool-cases ok) [
                      | inr bad ↦ rw bad (λ good. absurd (ground (arith, good)))
                      | inl good ↦ rw good (
                          Post-mono mysql (Inserted vs t) _ (insert_loop mysql prefix prefix vs t)
                            (subst
                              (λ start.
                                Post mysql (Inserted vs t) (insert_loop mysql prefix start vs t))
                              (append-nil prefix) (insert_loop-Inserted [] vs t))
                            λ ok' u more yes_ok.
                              let (log, q', ins) = more yes_ok in
                              (
                                replicate k (shorten (prefix ++ items grown)) ++ log,
                                q'
                                    ∙ ap (λ (l : List Bytes). l ++ log) q
                                    ∙ append_assoc s.queries _ log,
                                inserts grown vs log k refl filled lo hi
                                    (ap (λ text. replicate k text ++ log)
                                      (shorten-items prefix grown filled))
                                    ins,
                              ))
                    ])
          ]))

-- Where `multiInsert` answers true, each of the values has been passed on in exactly one statement
-- of the given table and fields, in order, which has the values' texts separated by commas and was
-- tried one to four times; and nothing else was passed on.
pub multi_insert-Inserts :
    (mysql : MysqlApi) (table fields : Bytes) (values : List Bytes) (s : Session mysql)
    → Post mysql
        (λ ok t.
          ok ≡ true
          → (log : List Bytes) × (t.queries ≡ s.queries ++ log)
            × Inserts (insert_prefix table fields) values log)
        (multi_insert mysql table fields values s)
unfolding multi_insert items
multi_insert-Inserts mysql table fields values s =
    elim (Bool-cases (length values == 0 || length fields == 0 || length table == 0)) [
      | inl nothing ↦ rw nothing (λ good. absurd (ground (arith, good)))
      | inr some_values ↦ rw some_values (
          subst
            (λ start.
              Post mysql (Inserted mysql (insert_prefix table fields) values s)
                (insert_loop mysql (insert_prefix table fields) start values s))
            (append-nil (insert_prefix table fields))
            (insert_loop-Inserted mysql (insert_prefix table fields) [] values s))
    ]
