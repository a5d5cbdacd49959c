-- ===== src/Tests/SettingsTests.antt =====
-- A configuration of three lines, and a text that is formatted.
use uctool.Common.{
  ℕ, zero, suc, List, ℤ, ◌≡◌, refl, some, [], ◌∷◌, ◌++◌, Bytes, codes, take, pos, arith,
}
use uctool.StdMap.{find}
use uctool.Settings.{Settings, values_of, load_config_file}
use uctool.Settings.Loading.{given, or_first, BothSorted, load_config_file-Loads}
use uctool.Formatting.{PrintfApi, format, append_format, append_format-Prints}

abbrev command_line : Settings
command_line = record {
  settings = (codes "-a", codes "7") ∷ [];
  multi_settings = (codes "-a", codes "7" ∷ []) ∷ [];
}

abbrev config_lines : List (Bytes × Bytes)
config_lines = (codes "noa", codes "1") ∷ (codes "b", codes "x") ∷ (codes "b", codes "y") ∷ []

load_config_file-Loads_example :
    let s' = load_config_file command_line (some config_lines) in
    (find (codes "-a") s'.settings
      ≡ or_first (find (codes "-a") command_line.settings) (given (codes "-a") config_lines))
    × (values_of (find (codes "-a") s'.multi_settings)
        ≡ values_of (find (codes "-a") command_line.multi_settings)
          ++ given (codes "-a") config_lines)
    × BothSorted s'
load_config_file-Loads_example =
    load_config_file-Loads command_line config_lines (codes "-a") ((tt, tt), (tt, tt))

abbrev print_into : ℕ → Bytes × ℤ
print_into zero = ([], pos 4)
print_into (suc n) = (take n (codes "id=7") ++ 0 ∷ [], pos 4)

abbrev toy_printf : PrintfApi
toy_printf = record { vsnprintf = print_into }

append_format-Prints_example :
    (append_format toy_printf (codes "> ") ≡ some (codes "> " ++ codes "id=7"))
    × (format toy_printf ≡ some (codes "id=7"))
append_format-Prints_example =
    append_format-Prints toy_printf (codes "> ") (codes "id=7") (omega arith, λ size. ([], refl))
