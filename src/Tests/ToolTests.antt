-- ===== src/Tests/ToolTests.antt =====
-- The tools on the chain of the tests.
use uctool.Common.{
  ◌%◌, ◌≡◌, refl, true, take, ◌++◌, subst, [], ◌∷◌, map, drop, none, some, Bytes, codes, arith,
  bytes_eq, pos, false,
}
use uctool.Chain.{ChainApi}
use uctool.Keys.{KeyExtension, encode, from_string, finish, is_valid, get_key}
use uctool.Keys.Encoding.{IsBytes}
use uctool.KeyTool.{
  KeyToolApi, matched, encoded, key_lines, key_lines_id, encodekey, decodekey, showkey, matchkey,
}
use uctool.KeyTool.RoundTrip.{encodekey-decodekey}
use uctool.Center.Requests.{un_serialize_boost}
use uctool.MasternodeTool.{mn_boost_un_serialize}
use uctool.MasternodeTool.Agreement.{Agrees, mn_boost_un_serialize-Agrees}
use uctool.Mysql.Post.{Post}
use uctool.LicenseTool.{run, lic_main}
use uctool.LicenseTool.Statements.{Traced, lic_main-Traced}
use uctool.Tests.KeysTests.{toy_watcher}
use uctool.Tests.Toys.{toy_chain, toy_mysql, toy_session, key_bytes}

-- The chain of the tests, with texts that decode to bytes.
abbrev byte_chain : ChainApi
byte_chain = record toy_chain {
  set_string = λ bs. some (take 1 bs, map (λ b. b % 256) (drop 1 bs));
}

reduced-IsBytes : (bs : Bytes) → IsBytes (map (λ b. b % 256) bs)
reduced-IsBytes [] = tt
reduced-IsBytes (b ∷ bs) = (omega arith, reduced-IsBytes bs)

set_string-IsBytes :
    (s version rest : Bytes) → byte_chain.set_string s ≡ some (version, rest) → IsBytes rest
set_string-IsBytes s version rest h =
    let e : map (λ b. b % 256) (drop 1 s) ≡ rest = ground (arith, h) in
    subst IsBytes e (reduced-IsBytes (drop 1 s))

abbrev toy_key_tool : KeyToolApi
toy_key_tool = record {
  to_string = λ version rest. version ++ rest;
  pub_id = λ bs. bs;
  set_hex = λ bs. bs;
  decode_base64 = λ bs. some bs;
  recover_compact = λ hash sig. none;
  address_is_valid = λ bs. true;
  get_index_key = λ bs. some bs;
}

abbrev wallet_key : KeyExtension
wallet_key = record {
  vch_version = 128 ∷ [];
  vch_data = key_bytes;
  pubkey = 2 ∷ key_bytes;
  address = 2 ∷ key_bytes;
}

encodekey-decodekey_example :
    let c = byte_chain in
    let a = toy_key_tool in
    (encodekey c a ([] ∷ [] ∷ (128 ∷ key_bytes) ∷ []) ≡ encoded (encode c wallet_key))
    × (decodekey c a ([] ∷ [] ∷ encode c wallet_key ∷ [])
        ≡ key_lines (128 ∷ key_bytes) (2 ∷ key_bytes) (2 ∷ key_bytes))
    × (showkey c a ([] ∷ [] ∷ (128 ∷ key_bytes) ∷ [])
        ≡ key_lines_id (128 ∷ key_bytes) (2 ∷ key_bytes) (2 ∷ key_bytes) (2 ∷ key_bytes))
    × (matchkey c a ([] ∷ [] ∷ (128 ∷ key_bytes) ∷ (2 ∷ key_bytes) ∷ []) ≡ matched)
encodekey-decodekey_example =
    encodekey-decodekey byte_chain toy_key_tool [] [] (128 ∷ key_bytes) wallet_key
      (unfold from_string finish is_valid get_key bytes_eq in refl) refl (omega arith, tt)
      (λ bs. refl) set_string-IsBytes (λ bs. refl) (λ k. refl)

mn_boost_un_serialize-Agrees_example :
    Agrees
      (un_serialize_boost toy_chain (codes "00"))
      (mn_boost_un_serialize toy_chain ([] ∷ [] ∷ codes "00" ∷ []))
mn_boost_un_serialize-Agrees_example = mn_boost_un_serialize-Agrees toy_chain [] [] (codes "00")

lic_main-Traced_example :
    Post
      (toy_mysql 0 true)
      (λ _ t.
        Traced toy_chain toy_watcher
          (toy_mysql 0 true)
          (λ n. record { now = pos 9; clock = λ mn. pos 9 })
          2
          run
          (toy_session 0 true false)
          t)
      (lic_main toy_chain
        (toy_mysql 0 true)
        toy_watcher
        (λ n. record { now = pos 9; clock = λ mn. pos 9 })
        2
        run
        (toy_session 0 true false))
lic_main-Traced_example =
    lic_main-Traced toy_chain toy_watcher (toy_mysql 0 true)
      (λ n. record { now = pos 9; clock = λ mn. pos 9 }) 2 run (toy_session 0 true false)
