-- ===== src/Tests/DbTests.antt =====
-- The database on a server that answers all, refuses all, or cannot be reached.
use uctool.Common.{
  ◌%◌, ◌^◌, ◌<◌, ◌≡◌, refl, ◌⊎◌, true, false, List, [], ◌∷◌, ◌++◌, none, some, Bytes, codes, pos,
  negsuc, signed32,
}
use uctool.Node.{MnCoin}
use uctool.Numbers.{atoi, show_int}
use uctool.Numbers.RoundTrip.{atoi-show_int}
use uctool.Mysql.{null_handle, execute, ping, Row}
use uctool.Mysql.Post.{Post}
use uctool.Mysql.Execute.{execute_unreachable}
use uctool.Mysql.Insert.{multi_insert, Inserts, insert_prefix, multi_insert-Inserts}
use uctool.Db.{DbConfig, update_licenses}
use uctool.Db.Updates.{Batch, Reached, update_licenses-Batch}
use uctool.Tests.Toys.{toy_chain, toy_mysql, toy_info, toy_session, bound_node}

abbrev toy_db : DbConfig
toy_db = record { tablename = codes "t"; dbinfo = toy_info; need_update_period = pos 50 }

execute_unreachable_example :
    (execute (toy_mysql 0 false) (codes "UPDATE") (toy_session 0 false false) ≡ null_handle)
    × (ping (toy_mysql 0 false) (toy_session 0 false false) ≡ null_handle)
execute_unreachable_example =
    execute_unreachable (toy_mysql 0 false) (codes "UPDATE") (toy_session 0 false false) refl
      (λ i w. refl)

update_licenses-Batch_example :
    Post
      (toy_mysql 0 true)
      (λ ok t.
        (Reached toy_chain (toy_mysql 0 true) toy_db (toy_session 0 true false) true
          × (ok ≡ true)
          × ((log : List Bytes) × (t.queries ≡ [] ++ log)
              × Batch toy_chain (toy_mysql 0 true) toy_db (bound_node (pos 400) ∷ []) log))
        ⊎ (Reached toy_chain (toy_mysql 0 true) toy_db (toy_session 0 true false) false
            × (ok ≡ false)
            × (t.queries ≡ [])))
      (update_licenses toy_chain
        (toy_mysql 0 true)
        toy_db
        (bound_node (pos 400) ∷ [])
        (toy_session 0 true false))
update_licenses-Batch_example =
    update_licenses-Batch toy_chain (toy_mysql 0 true) toy_db (bound_node (pos 400) ∷ [])
      (toy_session 0 true false)

abbrev short_row : Row
short_row = none ∷ some (codes "1") ∷ []

abbrev coin_a : MnCoin
coin_a = record { coin_txid = codes "a"; coin_voutid = 1 }

abbrev coin_b : MnCoin
coin_b = record { coin_txid = codes "ab"; coin_voutid = 0 }

abbrev coin_c : MnCoin
coin_c = record { coin_txid = codes "ab"; coin_voutid = 2 }

atoi-show_int_example :
    (42 < 2 ^ 31 → (atoi (show_int (pos 42)) ≡ pos 42) × (atoi (show_int (negsuc 42)) ≡ negsuc 42))
    × (42 < 2 ^ 63 → atoi (show_int (pos 42)) ≡ signed32 (42 % 2 ^ 32))
atoi-show_int_example = atoi-show_int 42

multi_insert-Inserts_example :
    Post
      (toy_mysql 0 true)
      (λ ok t.
        ok ≡ true
        → (log : List Bytes) × (t.queries ≡ [] ++ log)
          × Inserts (insert_prefix (codes "t") (codes "a")) (codes "1" ∷ codes "2" ∷ []) log)
      (multi_insert
        (toy_mysql 0 true)
        (codes "t")
        (codes "a")
        (codes "1" ∷ codes "2" ∷ [])
        (toy_session 0 true false))
multi_insert-Inserts_example =
    multi_insert-Inserts (toy_mysql 0 true) (codes "t") (codes "a") (codes "1" ∷ codes "2" ∷ [])
      (toy_session 0 true false)
