-- ===== src/Tests/StartTests.antt =====
-- The start of the center over the server of a table with one node.
use uctool.Common.{◌≡◌, refl, false, [], ◌∷◌, some, codes, pos, bytes_eq, bytes_eq_refl}
use uctool.KeyRing.{init_keys, load_keys, read_key}
use uctool.Keys.{from_encoded, unmask, mask, finish, get_key, set_key, is_valid, encode}
use uctool.Node.{coin_of}
use uctool.Mysql.Live.{Returns}
use uctool.Db.{select_sql, select_columns_sql, update_sql, conditions}
use uctool.Watcher.{need_update_filters}
use uctool.Center.{Center, find_node, stale_filters}
use uctool.Server.Main.{serves, threads_of, center_main}
use uctool.Server.Starting.{bound_columns, center_main-Starts}
use uctool.Tests.Toys.{key_bytes}
use uctool.Tests.KeysTests.{toy_watcher, keys_in_file}
use uctool.Tests.CenterTests.{toy_center}
use uctool.Tests.SystemTests.{session}
use uctool.Tests.TableServer.{
  keyed_chain, old_row, old_node, new_node, rows_decode, only, rows_of, test_of, server, kept_of,
  server-IsLive, only-own, only-Gives,
}

keyed_keys_load : init_keys keyed_chain keys_in_file 3 ≡ some ((1, key_bytes) ∷ [])
unfolding init_keys load_keys read_key from_encoded unmask mask finish get_key set_key is_valid
    encode bytes_eq
keyed_keys_load = refl

bound-other :
    (bytes_eq (select_columns_sql toy_center.db bound_columns) (update_sql toy_watcher.db new_node)
      ≡ false)
    × (bytes_eq
          (select_columns_sql toy_center.db bound_columns)
          (select_sql toy_watcher.db (need_update_filters toy_watcher (pos 400)))
        ≡ false)
    × (bytes_eq
          (select_columns_sql toy_center.db bound_columns)
          (select_sql toy_center.db (stale_filters toy_center (pos 500)))
        ≡ false)
unfolding select_columns_sql select_sql update_sql conditions stale_filters need_update_filters
    bytes_eq
bound-other = (refl, refl, refl)

bound-rows :
    rows_of (test_of (select_columns_sql toy_center.db bound_columns)) (some old_node)
    ≡ old_row ∷ []
bound-rows = rw (bound-other.1, bound-other.2, bytes_eq_refl (codes "tx")) refl

center_main-Starts_example :
    Returns server
      (λ r _.
        (c : Center) × (r ≡ serves (threads_of (pos 2)) c)
        × (c.ucenter_keys ≡ (1, key_bytes) ∷ [])
        × (find_node (coin_of old_node) c.mnode_list ≡ some old_node))
      (center_main keyed_chain server keys_in_file 3 toy_center.db (pos 2) session)
center_main-Starts_example =
    center_main-Starts keyed_chain server kept_of server-IsLive keys_in_file 3 toy_center.db (pos 2)
      ((1, key_bytes) ∷ []) old_node session keyed_keys_load
      (only-Gives (select_columns_sql toy_center.db bound_columns) _ old_node old_row
        (only old_node) bound-other.0 bound-rows rows_decode.0 (λ coin. refl) refl refl)
      (only-own old_node) refl
