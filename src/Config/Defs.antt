-- ===== src/Config/Defs.antt =====
-- configuration.h: the structures of configuration.c, and libconfig as configuration.c uses it. A
-- dotted path such as "application.config3.regs" is the list of its names. An int is its bit pattern.
use cjunk.Prelude.{ℕ, ◌==◌, Bool, true, false, ◌&&◌, Option, List, [], ◌∷◌}

-- The names that the paths are made of.
pub data Name : Type 0 where
  application software debug profiling detector_version max_no_of_configs : Name
  default_config_no snmp_agent thresholds temp_max temp_min temp_hysteres : Name
  config : ℕ → Name  -- "config" and the number, as "%d" prints it
  description hvps channels regs misc calibration : Name
  cmd setup frame_count integration_time reset_time trigger_delay : Name
  asic_initial_value intercolumn_delay : Name
  frame_rate binning field_x0 field_y0 field_width field_height : Name
  valid_gain_frame valid_offset_frame valid_bad_pixel_map valid_simple_gain : Name

-- A number for each name, and the number of a configuration.
abbrev pub name_code : Name → ℕ × ℕ
name_code application = (0, 0)
name_code software = (1, 0)
name_code debug = (2, 0)
name_code profiling = (3, 0)
name_code detector_version = (4, 0)
name_code max_no_of_configs = (5, 0)
name_code default_config_no = (6, 0)
name_code snmp_agent = (7, 0)
name_code thresholds = (8, 0)
name_code temp_max = (9, 0)
name_code temp_min = (10, 0)
name_code temp_hysteres = (11, 0)
name_code (config n) = (12, n)
name_code description = (13, 0)
name_code hvps = (14, 0)
name_code channels = (15, 0)
name_code regs = (16, 0)
name_code misc = (17, 0)
name_code calibration = (18, 0)
name_code cmd = (19, 0)
name_code setup = (20, 0)
name_code frame_count = (21, 0)
name_code integration_time = (22, 0)
name_code reset_time = (23, 0)
name_code trigger_delay = (24, 0)
name_code asic_initial_value = (25, 0)
name_code intercolumn_delay = (26, 0)
name_code frame_rate = (27, 0)
name_code binning = (28, 0)
name_code field_x0 = (29, 0)
name_code field_y0 = (30, 0)
name_code field_width = (31, 0)
name_code field_height = (32, 0)
name_code valid_gain_frame = (33, 0)
name_code valid_offset_frame = (34, 0)
name_code valid_bad_pixel_map = (35, 0)
name_code valid_simple_gain = (36, 0)

abbrev pub same_name : Name → Name → Bool
same_name a b = (name_code a).0 == (name_code b).0 && (name_code a).1 == (name_code b).1

-- A path, the last name first.
abbrev pub Setting : Type 0
Setting = List Name

abbrev pub same_setting : Setting → Setting → Bool
same_setting [] [] = true
same_setting (a ∷ p) (b ∷ q) = same_name a b && same_setting p q
same_setting _ _ = false

-- "application.config<n>"
abbrev pub config_path : ℕ → Setting
config_path n = config n ∷ application ∷ []

abbrev pub max_no_of_channels : ℕ
max_no_of_channels = 27

-- (1<<16)-1
abbrev pub max_configs : ℕ
max_configs = 65535

pub record Registers : Type 0 where
  pub cmd : ℕ
  pub setup : ℕ
  pub frame_count : ℕ
  pub integration_time : ℕ
  pub reset_time : ℕ
  pub trigger_delay : ℕ
  pub asic_initial_value : ℕ
  pub intercolumn_delay : ℕ

pub record Misc : Type 0 where
  pub frame_rate : ℕ
  pub binning : ℕ
  pub field_x0 : ℕ
  pub field_y0 : ℕ
  pub field_width : ℕ
  pub field_height : ℕ

pub record Calibration : Type 0 where
  pub valid_gain_frame : ℕ
  pub valid_simple_gain : ℕ
  pub valid_offset_frame : ℕ
  pub valid_bad_pixel_map : ℕ

-- The structure `configuration`, by the groups that its comments name.
pub record Configuration : Type 0 where
  pub description : List ℕ
  pub channel : ℕ → ℕ
  pub registers : Registers
  pub misc : Misc
  pub calibration : Calibration

pub record CommonConfiguration : Type 0 where
  pub debug : ℕ
  pub profiling : ℕ
  pub detector_version : ℕ
  pub max_no_of_configs : ℕ
  pub default_config_no : ℕ
  pub snmp_agent : List ℕ
  pub temp_max : ℕ
  pub temp_min : ℕ
  pub temp_hysteres : ℕ

-- i_config
pub record Ram : Type 0 where
  pub c_config : CommonConfiguration
  pub configurations : ℕ → Configuration

-- What the functions return: 0, or a code.
pub data Failure : Type 0 where
  error file_open_failed file_parse_error configuration_not_found wrong_config_type : Failure
  setting_not_found no_root_not_found failed_create_config failed_create_group : Failure
  failed_parent_not_group outside_config_range flag_not_defined failed_create_list : Failure
  wrong_config_format group_not_found : Failure

pub data Rc : Type 0 where
  success : Rc
  failed : Failure → Rc

pub data Kind : Type 0 where
  type_int type_bool type_string type_group type_list : Kind

-- The calls of libconfig. `Tree` is a parsed file, `Content` what the file holds; a result `none` is
-- NULL or CONFIG_FALSE.
pub record Libconfig : Type 1 where
  pub Tree : Type 0
  pub Content : Type 0
  pub read : Content → Option Tree
  pub write : Tree → Option Content
  pub exists : Tree → Setting → Bool  -- config_lookup != NULL
  pub get_int : Tree → Setting → ℕ
  pub get_bool : Tree → Setting → ℕ
  pub get_string : Tree → Setting → Option (List ℕ)
  pub length : Tree → Setting → ℕ
  pub get_elem : Tree → Setting → ℕ → ℕ
  pub set_int : Tree → Setting → ℕ → Option Tree
  pub set_format : Tree → Setting → Option Tree
  pub set_bool : Tree → Setting → ℕ → Option Tree
  pub set_string : Tree → Setting → List ℕ → Option Tree
  pub set_elem : Tree → Setting → ℕ → ℕ → Option Tree
  pub add : Tree → Setting → Kind → Option Tree
  pub add_elem : Tree → Setting → Option Tree  -- config_setting_add to a list

-- The file, the copy in memory, and the number of files that were opened and not closed.
pub record Store (lib : Libconfig) : Type 0 where
  pub file : Option (lib.Content)
  pub ram : Ram
  pub open_files : ℕ
