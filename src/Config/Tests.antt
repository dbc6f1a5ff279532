-- ===== src/Config/Tests.antt =====
-- Runs of configuration.c on a libconfig whose trees are tables.
use cjunk.Prelude.{
  not, ◌+◌, ◌<◌, ◌≡◌, refl, Bool, Option, none, some, [], ◌∷◌, arith, if◌then◌else◌, inl,
}
use cjunk.Config.Defs.{
  Setting, same_setting, config_path, Configuration, Rc, success, Store, software, application,
  max_no_of_configs, integration_time, asic_initial_value, intercolumn_delay,
}
use cjunk.Config.Read.{
  zero_configuration, zero_calibration, read_configuration_file, fill_ram, read_common, read_from,
  read_entry, read_one, read_hvps, read_channels, read_registers, read_misc, read_calibration,
}
use cjunk.Config.Edit.{edit_file, update_elements, update_element, add_elements, add_element}
use cjunk.Config.Update.{update_configuration, update_tree, need_configuration, set_channels}
use cjunk.Config.Flags.{
  flag_of, write_flag, set_in_tree, set_calibration_flag, get_calibration_flag,
}
use cjunk.Config.Written.{IsRepresentable, IsWritten, update_configuration-IsWritten}
use cjunk.Config.Save.{
  save_configuration, add_all, set_max, check_range, add_configuration, add_channels, add_groups,
  add_flag,
}
use cjunk.Config.Closing.{update_configuration-open_files}
use cjunk.Config.Flagged.{get_calibration_flag-set_calibration_flag}
use cjunk.Config.Paths.{buffer_size, path_size, register_path, register_paths_overflow}
use cjunk.Config.Runs.{Parsed}
use cjunk.Config.Tables.{Table, tables, tables-Lawful}

abbrev has_settings : Setting → Bool
has_settings p = not (same_setting p (config_path 9))

-- The number of configurations is 2, and every number is 7 else.
abbrev sample : Table
sample = record {
  there = has_settings;
  ints = λ p. if same_setting p (max_no_of_configs ∷ software ∷ application ∷ []) then 2 else 7;
  bools = λ p. 1;
  elems = λ p i. i;
}

abbrev store : Store tables
store = record {
  file = some sample;
  ram = record {
    c_config = record {
      debug = 0;
      profiling = 0;
      detector_version = 0;
      max_no_of_configs = 3;
      default_config_no = 0;
      snmp_agent = [];
      temp_max = 0;
      temp_min = 0;
      temp_hysteres = 0;
    };
    configurations = λ i. zero_configuration;
  };
  open_files = 0;
}

abbrev wanted : Configuration
wanted = record {
  description = [];
  channel = λ i. 1000 + i;
  registers = record {
    cmd = 1;
    setup = 2;
    frame_count = 3;
    integration_time = 4;
    reset_time = 5;
    trigger_delay = 6;
    asic_initial_value = 4294967295;
    intercolumn_delay = 8;
  };
  misc = record {
    frame_rate = 30;
    binning = 1;
    field_x0 = 0;
    field_y0 = 0;
    field_width = 1024;
    field_height = 1024;
  };
  calibration = zero_calibration;
}

wanted-IsRepresentable : IsRepresentable wanted
wanted-IsRepresentable = record {
  registers = (
    omega arith,
    (
      omega arith,
      (omega arith, (omega arith, (omega arith, (omega arith, (omega arith, (omega arith, tt)))))),
    ),
  );
  bytes = (omega arith, omega arith, omega arith, omega arith);
  shorts = (omega arith, omega arith);
  channel = λ i l. omega arith;
}

abbrev store_of : Option (Rc × Store tables) → Store tables
store_of none = store
store_of (some (rc, s)) = s

before : Store tables
before = store_of (read_configuration_file tables store)

reads : read_configuration_file tables store ≡ some (success, before)
unfolding read_configuration_file fill_ram read_common read_from read_entry read_one read_hvps
    read_channels read_registers read_misc read_calibration before
reads = refl

after : Store tables
after = (update_configuration tables store wanted 1).1

updates : update_configuration tables store wanted 1 ≡ (success, after)
unfolding after update_configuration edit_file update_tree need_configuration update_elements
    update_element set_channels
updates = refl

update_configuration-IsWritten_example :
    (t : tables.Tree) × (t' : tables.Tree) × Parsed tables store t
    × Parsed tables after t'
    × IsWritten tables (config_path 1) wanted t t'
update_configuration-IsWritten_example =
    update_configuration-IsWritten tables tables-Lawful store after wanted 1 wanted-IsRepresentable
      updates

-- Configuration 9 is not in the file.
update_configuration-open_files_example :
    (update_configuration tables store wanted 9).1.open_files ≡ 1
update_configuration-open_files_example =
    update_configuration-open_files tables store sample wanted 9
      (record { content = sample; held = refl; parsed = refl })

flagged : Store tables
flagged = (set_calibration_flag tables store 1 2 0).1

flags : set_calibration_flag tables store 1 2 0 ≡ (success, flagged)
unfolding flagged set_calibration_flag set_in_tree write_flag flag_of
flags = refl

-- The gain flag is set to 0, and is 2 afterwards.
get_calibration_flag-set_calibration_flag_example : get_calibration_flag tables flagged 1 2 ≡ inl 2
get_calibration_flag-set_calibration_flag_example =
    get_calibration_flag-set_calibration_flag tables store flagged 1 2 0 refl (omega arith) flags

saved : Store tables
saved = (save_configuration tables store wanted 0).1

saves : save_configuration tables store wanted 0 ≡ (success, saved)
unfolding saved save_configuration edit_file add_all set_max check_range add_configuration
    add_channels add_groups add_flag add_elements add_element
saves = refl

reread_saved : Store tables
reread_saved = store_of (read_configuration_file tables saved)

reads_saved : read_configuration_file tables saved ≡ some (success, reread_saved)
unfolding reread_saved saved save_configuration edit_file add_all set_max check_range
    add_configuration add_channels add_groups add_flag add_elements add_element
    read_configuration_file fill_ram read_common read_from read_entry read_one read_hvps
    read_channels read_registers read_misc read_calibration
reads_saved = refl

register_paths_overflow_example :
    (buffer_size < path_size (register_path 7 integration_time))
    × (buffer_size < path_size (register_path 7 asic_initial_value))
    × (buffer_size < path_size (register_path 7 intercolumn_delay))
register_paths_overflow_example = register_paths_overflow 7
