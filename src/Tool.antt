-- ===== src/Tool.antt =====
-- tools/main.cpp: the table of commands and the choice of one. The commands are named here and run
-- elsewhere (Client, KeyTool, DbTool, Reward).
pub mod Dispatch
use uctool.Common.{
  ℕ, Bool, true, false, List, [], ◌∷◌, ◌++◌, map, foldl, Option, none, some, Bytes, codes, length,
  get_or, ltb, if◌then◌else◌,
}
use uctool.StdMap.{StdMap, find, insert}

-- The functions that are registered.
pub data Command : Type 0 where
  ask_license ask_key_version ask_license_new ask_key_version_new : Command
  show_addr show_base58_prefix new_key gen_key show_key decode_key encode_key : Command
  match_key recover_key mn_hash mn_boost_un_serialize get_pub_script : Command
  show_reward show_reward_status show_reward_block show_block_hash : Command
  db_check_node db_check_all db_get_all db_select db_mnhash : Command

-- The calls of `RegisterCmd` in their order, without and with MYSQL_ENABLE.
abbrev pub base_table : List (Bytes × Command)
base_table =
    (codes "asklicense", ask_license)
    ∷ (codes "askkeyversion", ask_key_version)
    ∷ (codes "asknewlic", ask_license_new)
    ∷ (codes "asknewversion", ask_key_version_new)
    ∷ (codes "addrshow", show_addr)
    ∷ (codes "base58prefix", show_base58_prefix)
    ∷ (codes "keynew", new_key)
    ∷ (codes "keymasternode", gen_key)
    ∷ (codes "keyshow", show_key)
    ∷ (codes "keydecode", decode_key)
    ∷ (codes "keyencode", encode_key)
    ∷ (codes "keymatch", match_key)
    ∷ (codes "keyrecover", recover_key)
    ∷ (codes "mnhash", mn_hash)
    ∷ (codes "mnbstunseri", mn_boost_un_serialize)
    ∷ (codes "scriptpub", get_pub_script)
    ∷ (codes "rewardshow", show_reward)
    ∷ (codes "rewardstatus", show_reward_status)
    ∷ (codes "rewardblock", show_reward_block)
    ∷ (codes "blockhash", show_block_hash)
    ∷ []

abbrev pub mysql_table : List (Bytes × Command)
mysql_table =
    (codes "dbcheck", db_check_node)
    ∷ (codes "dbcheckall", db_check_all)
    ∷ (codes "dbgetall", db_get_all)
    ∷ (codes "dbselect", db_select)
    ∷ (codes "dbmnhash", db_mnhash)
    ∷ []

abbrev pub command_table : Bool → List (Bytes × Command)
command_table mysql_enable = base_table ++ (if mysql_enable then mysql_table else [])

-- `RegisterCmd`
unfoldable pub register_cmd : Bool → StdMap Command
register_cmd mysql_enable =
    foldl (λ m (entry : Bytes × Command). insert entry.0 entry.1 m) [] (command_table mysql_enable)

-- `ShowCmds`: the names, in the order of the map.
unfoldable pub show_cmds : StdMap Command → List Bytes
show_cmds = map λ entry. entry.0

-- What a run of the program does.
pub data Ran : Type 0 where
  listed : List Bytes → Ran
  runs : Command → List Bytes → Ran
  unknown_method : Bytes → Ran

-- The test on `iterCMD`.
abbrev pub dispatch : Option Command → List Bytes → Ran
dispatch none args = unknown_method (get_or args 1 [])
dispatch (some command) args = runs command args

-- `main`, behind the set-up; `args` is `argv`.
unfoldable pub main_tool : Bool → List Bytes → Ran
main_tool mysql_enable args =
    if ltb (length args) 2
    then listed (show_cmds (register_cmd mysql_enable))
    else dispatch (find (get_or args 1 []) (register_cmd mysql_enable)) args
