-- ===== src/Examples/Files.antt =====
-- A configuration file with one entry.
use cta_alristrol_gallardo_v.Base.{◌≡◌, refl, true, some, [], ◌∷◌, length}
use cta_alristrol_gallardo_v.Text.{decimal2}
use cta_alristrol_gallardo_v.Servers.{Config}
use cta_alristrol_gallardo_v.Settings.{KeyFile, read, read_config_file, key_name}
use cta_alristrol_gallardo_v.Settings.Entries.{Entries, read_config_file-Entries}

abbrev pub file : KeyFile
file = record {
  created = true;
  loads = true;
  get_integer = λ section key. some 1;
  get_string = λ section key. some key;
}

abbrev pub one_entry : Config
one_entry = record {
  server_count = 1;
  server_set = 1;
  server_info =
      record {
        host = 73 ∷ 80 ∷ 48 ∷ 49 ∷ [];
        para = 80 ∷ 79 ∷ 82 ∷ 84 ∷ 48 ∷ 49 ∷ [];
        name = 78 ∷ 65 ∷ 77 ∷ 69 ∷ 48 ∷ 49 ∷ [];
      }
      ∷ [];
}

file_read : read_config_file file [] ≡ read one_entry
unfolding read_config_file key_name decimal2
file_read = refl

read_config_file-Entries_example :
    (length one_entry.server_info ≡ 1) × Entries file [] 1 one_entry.server_info
read_config_file-Entries_example = read_config_file-Entries file [] one_entry file_read
