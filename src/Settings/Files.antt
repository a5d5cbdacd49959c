-- ===== src/Settings/Files.antt =====
-- common/utils.cc: the file of the configuration, `GetUtCenterDir`, `SetFilePath` and the part of
-- `LoadConfigFile` that opens it, on a Unix that is no Mac. The file system is a parameter.
use uctool.Common.{
  ◌≡◌, refl, Bool, List, [], Option, none, some, Bytes, codes, bytes_eq, if◌then◌else◌, ◌⊎◌, inl,
  inr, Option-cases,
}
use uctool.Settings.{Settings, load_config_file}

-- boost's paths, and the files as boost's reader gives their lines; none is a file that cannot be
-- opened.
pub record FileApi : Type 1 where
  pub World : Type 0
  pub join : Bytes → Bytes → Bytes
  pub create_directories : Bytes → World → World
  pub read_config : Bytes → World → Option (List (Bytes × Bytes))
  -- `fopen` for appending, false for NULL, and `fclose` of what it has opened.
  pub open_append : Bytes → World → Bool × World
  pub close_file : Bytes → World → World

-- `getenv("HOME")`, none where it is not set.
unfoldable pub home_path : Option Bytes → Bytes
home_path none = codes "/"
home_path (some home) = if bytes_eq home [] then codes "/" else home

module _ (api : FileApi) where
  open api use {World}

  unfoldable pub get_ut_center_dir : Option Bytes → Bytes
  get_ut_center_dir home = api.join (home_path home) (codes ".uttool")

  -- `SetFilePath`: the path that it keeps, and the directories that it makes.
  unfoldable pub set_file_path : Option Bytes → Bytes → World → Bytes × World
  set_file_path home filename w = (
    api.join (get_ut_center_dir home) filename,
    api.create_directories (get_ut_center_dir home) w,
  )

  -- `LoadConfigFile` on the path that is kept.
  unfoldable pub load_config_path : Bytes → Settings → World → Settings × World
  load_config_path path settings w = elim (api.read_config path w) [
    | none ↦
        let (opened, w') = api.open_append path w in
        (load_config_file settings none, if opened then api.close_file path w' else w')
    | some lines ↦ (load_config_file settings (some lines), w)
  ]

  -- Both, as the main programs call them.
  unfoldable pub start_config : Option Bytes → Bytes → Settings → World → Settings × World
  start_config home filename settings w =
      let (path, w') = set_file_path home filename w in load_config_path path settings w'

  -- At the start of a program, the directories are made first. Where boost can then read the file, its
  -- lines are loaded and no file is opened; where it cannot, the settings stay as they are, and a
  -- file that could be opened for appending is closed again.
  pub start_config-cases :
      (home : Option Bytes) (filename : Bytes) (settings : Settings) (w : World)
      → let made = api.create_directories (get_ut_center_dir home) w in
        let path = api.join (get_ut_center_dir home) filename in
        let opened = api.open_append path made in
        let (after, w') = start_config home filename settings w in
        ((lines : List (Bytes × Bytes)) × (api.read_config path made ≡ some lines)
          × (after ≡ load_config_file settings (some lines))
          × (w' ≡ made))
        ⊎ ((api.read_config path made ≡ none)
            × (after ≡ settings)
            × (w' ≡ (if opened.0 then api.close_file path opened.1 else opened.1)))
  unfolding start_config set_file_path load_config_path load_config_file
  start_config-cases home filename settings w =
      let made : World = api.create_directories (get_ut_center_dir home) w in
      elim (Option-cases (api.read_config (api.join (get_ut_center_dir home) filename) made)) [
        | inl e ↦ rw (e, load_config_path) (inr (refl, refl, refl))
        | inr (lines, e) ↦ rw (e, load_config_path) (inl (lines, refl, refl, refl))
      ]
