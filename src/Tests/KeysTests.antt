-- ===== src/Tests/KeysTests.antt =====
-- Keys, the key loop and the signing of a licence on the chain of the tests.
use uctool.Common.{
  ℕ, ◌≤◌, ◌≡◌, ◌≢◌, refl, ◌⊎◌, true, false, List, [], ◌∷◌, ◌++◌, none, some, Bytes, codes,
  if◌then◌else◌, ◌==◌, pos, ◌+ℤ◌, arith,
}
use uctool.Keys.{KeyExtension, set_key, encode, from_encoded}
use uctool.Keys.Encoding.{from_encoded-encode}
use uctool.KeyRing.{key_at, read_key, init_keys}
use uctool.KeyRing.Loading.{Chained, init_keys-Chained}
use uctool.Node.{MNode}
use uctool.Watcher.{
  Watcher, needs_no_license, new_period, with_pubkey, dated, with_license, sign_word,
  sign_mn_license, update_db,
}
use uctool.Watcher.Signing.{IsDue, IsSigned, sign_mn_license-IsSigned, sign_mn_license_twice}
use uctool.Watcher.Rounds.{Writes, update_db-Writes}
use uctool.Mysql.Post.{Post}
use uctool.Tests.Toys.{toy_chain, toy_mysql, toy_info, toy_session, key_bytes, bound_node}

abbrev pub toy_key : KeyExtension
toy_key = record {
  vch_version = 128 ∷ [];
  vch_data = key_bytes ++ [];
  pubkey = 2 ∷ key_bytes;
  address = 2 ∷ key_bytes;
}

from_encoded-encode_example : from_encoded toy_chain 1 (encode toy_chain toy_key) ≡ some toy_key
from_encoded-encode_example =
    from_encoded-encode toy_chain key_bytes toy_key (unfold set_key in refl) refl (ground arith)
      (ground arith) (λ bs. refl) refl

abbrev pub keys_in_file : ℕ → Bytes
keys_in_file n = if n == 1 then encode toy_chain toy_key else []

init_keys-Chained_example :
    ((keys : List (ℕ × Bytes)) × (init_keys toy_chain keys_in_file 3 ≡ some keys)
      × (keys ≢ [])
      × Chained toy_chain keys_in_file 1 keys)
    ⊎ ((init_keys toy_chain keys_in_file 3 ≡ none)
        × ((keys_in_file 1 ≡ [])
            ⊎ ((n : ℕ) × (1 ≤ n)
                × (keys_in_file n ≢ [])
                × (read_key toy_chain keys_in_file n ≡ none))))
init_keys-Chained_example = init_keys-Chained toy_chain keys_in_file 1 3 (omega arith) refl

abbrev pub toy_watcher : Watcher
toy_watcher = record {
  lic_period_limit = pos 300;
  need_update_period = pos 50;
  db = record { tablename = codes "t"; dbinfo = toy_info; need_update_period = pos 50 };
  watcher_keys = (1, 7 ∷ []) ∷ [];
  key_version = 1;
}

abbrev signed_node : MNode
signed_node =
    let n = bound_node (pos 400) in
    record n {
      node_data = record n.node_data {
        licperiod = pos 700;
        licversion = pos 1;
        licence = 7 ∷ codes "tx";
      };
    }

node_is_signed :
    sign_mn_license toy_chain toy_watcher (pos 400) (bound_node (pos 400)) ≡ (true, signed_node)
unfolding sign_mn_license needs_no_license with_pubkey sign_word dated with_license new_period
    key_at ◌+ℤ◌
node_is_signed = refl

sign_mn_license-IsSigned_example :
    IsDue toy_watcher (pos 400) (bound_node (pos 400))
    × IsSigned toy_chain toy_watcher (pos 400) (bound_node (pos 400)) signed_node
sign_mn_license-IsSigned_example =
    sign_mn_license-IsSigned toy_chain toy_watcher (pos 400) (bound_node (pos 400)) signed_node
      node_is_signed

update_db-Writes_example :
    Post
      (toy_mysql 0 true)
      (λ _ t.
        (log : List Bytes) × (t.queries ≡ [] ++ log)
        × Writes toy_chain toy_watcher
            (λ n. pos 400)
            (bound_node (pos 400) ∷ bound_node (pos 900) ∷ [])
            log)
      (update_db toy_chain
        (toy_mysql 0 true)
        toy_watcher
        (λ n. pos 400)
        (bound_node (pos 400) ∷ bound_node (pos 900) ∷ [])
        (toy_session 0 true false))
update_db-Writes_example =
    update_db-Writes toy_chain toy_watcher (λ n. pos 400) (toy_mysql 0 true)
      (bound_node (pos 400) ∷ bound_node (pos 900) ∷ []) (toy_session 0 true false)

sign_mn_license_twice_example :
    sign_mn_license toy_chain toy_watcher (pos 401) signed_node ≡ (false, signed_node)
unfolding ◌+ℤ◌
sign_mn_license_twice_example =
    sign_mn_license_twice toy_chain toy_watcher (pos 400) (pos 401) (bound_node (pos 400))
      signed_node node_is_signed (omega arith)
