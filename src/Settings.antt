-- ===== src/Settings.antt =====
-- common/utils.cc: `LoadConfigFile` and the helpers that read a `-no` setting. The lines of the file
-- come from boost's reader, as keys and values.
pub mod Loading
pub mod Files
use uctool.Common.{
  ℕ, suc, Bool, true, false, not, ◌&&◌, List, [], ◌∷◌, ◌++◌, foldl, Option, none, some, Bytes,
  codes, length, drop, get_or, ltb, ◌==◌, if◌then◌else◌, ℤ, pos, eqb_ℤ,
}
use uctool.Numbers.{atoi}
use uctool.StdMap.{StdMap, find, assign}

-- `ToolsInterpretBool`
unfoldable pub interpret_bool : Bytes → Bool
interpret_bool [] = true
interpret_bool (c ∷ cs) = not (eqb_ℤ (atoi (c ∷ cs)) (pos 0))

-- `ToolsInterpretNegativeSetting`: -noX becomes -X=0.
unfoldable pub interpret_negative_setting : Bytes × Bytes → Bytes × Bytes
interpret_negative_setting (key, value) =
    if ltb 3 (length key) && get_or key 0 0 == 45 && get_or key 1 0 == 110 && get_or key 2 0 == 111
    then (45 ∷ drop 3 key, if interpret_bool value then codes "0" else codes "1")
    else (key, value)

-- The two maps that `LoadConfigFile` fills.
pub record Settings : Type 0 where
  pub settings : StdMap Bytes
  pub multi_settings : StdMap (List Bytes)

abbrev pub values_of : Option (List Bytes) → List Bytes
values_of none = []
values_of (some vs) = vs

-- `if (mapSettingsRet.count(strKey) == 0) mapSettingsRet[strKey] = strValue`
unfoldable pub keep_first : Bytes → Bytes → StdMap Bytes → StdMap Bytes
keep_first key value m = elim (find key m) [ none ↦ assign key value m | some there ↦ m ]

-- A line whose -no is already read.
unfoldable pub add_setting : Settings → Bytes × Bytes → Settings
add_setting s (key, value) = record {
  settings = keep_first key value s.settings;
  multi_settings =
      assign key (values_of (find key s.multi_settings) ++ value ∷ []) s.multi_settings;
}

-- One line of the file.
unfoldable pub load_entry : Settings → Bytes × Bytes → Settings
unfolding add_setting
load_entry s (string_key, first_value) =
    add_setting s (interpret_negative_setting (45 ∷ string_key, first_value))

-- `LoadConfigFile`; none is a file that is not there.
unfoldable pub load_config_file : Settings → Option (List (Bytes × Bytes)) → Settings
load_config_file s none = s
load_config_file s (some lines) = foldl load_entry s lines
