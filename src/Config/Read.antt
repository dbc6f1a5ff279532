-- ===== src/Config/Read.antt =====
-- configuration.c: read_configuration_file, and the functions that hand out what it has read.
-- `none` is undefined behaviour: strcpy from NULL or of a text that is too long, or a write beyond an
-- array. The buffers in which the paths are built are taken to be large enough.
use cjunk.Prelude.{
  ℕ, zero, suc, ◌+◌, ◌==◌, ltb, leb, ℤ, pos, negsuc, ◌&&◌, Option, none, some, List, [], ◌∷◌,
  if◌then◌else◌, length,
}
use cjunk.Prelude.Word.{u8, u16, u32, has_bit}
use cjunk.Config.Defs.{
  Name, Setting, config_path, max_no_of_channels, max_configs, Registers, Misc, Calibration,
  Configuration, CommonConfiguration, Ram, Rc, failed, success, error, Libconfig, Store,
  application, software, debug, profiling, detector_version, max_no_of_configs, default_config_no,
  snmp_agent, thresholds, temp_max, temp_min, temp_hysteres, description, hvps, channels, regs,
  misc, calibration, cmd, setup, frame_count, integration_time, reset_time, trigger_delay,
  asic_initial_value, intercolumn_delay, frame_rate, binning, field_x0, field_y0, field_width,
  field_height, valid_gain_frame, valid_offset_frame, valid_bad_pixel_map, valid_simple_gain,
}

-- What memset leaves.
abbrev pub zero_registers : Registers
zero_registers = record {
  cmd = 0;
  setup = 0;
  frame_count = 0;
  integration_time = 0;
  reset_time = 0;
  trigger_delay = 0;
  asic_initial_value = 0;
  intercolumn_delay = 0;
}

abbrev pub zero_misc : Misc
zero_misc = record {
  frame_rate = 0;
  binning = 0;
  field_x0 = 0;
  field_y0 = 0;
  field_width = 0;
  field_height = 0;
}

abbrev pub zero_calibration : Calibration
zero_calibration = record {
  valid_gain_frame = 0;
  valid_simple_gain = 0;
  valid_offset_frame = 0;
  valid_bad_pixel_map = 0;
}

abbrev pub zero_configuration : Configuration
zero_configuration = record {
  description = [];
  channel = λ i. 0;
  registers = zero_registers;
  misc = zero_misc;
  calibration = zero_calibration;
}

abbrev pub update {ℓ} : {A : Type ℓ} → (ℕ → A) → ℕ → A → ℕ → A
update f i v j = if i == j then v else f j

-- What the lookups of a group store, with the casts of the code.
abbrev pub registers_of : (Name → ℕ) → Registers
registers_of value = record {
  cmd = u32 (value cmd);
  setup = u32 (value setup);
  frame_count = u32 (value frame_count);
  integration_time = u32 (value integration_time);
  reset_time = u32 (value reset_time);
  trigger_delay = u32 (value trigger_delay);
  asic_initial_value = u32 (value asic_initial_value);
  intercolumn_delay = u32 (value intercolumn_delay);
}

abbrev pub misc_of : (Name → ℕ) → Misc
misc_of value = record {
  frame_rate = u8 (value frame_rate);
  binning = u8 (value binning);
  field_x0 = u8 (value field_x0);
  field_y0 = u8 (value field_y0);
  field_width = u16 (value field_width);
  field_height = u16 (value field_height);
}

abbrev pub calibration_of : (Name → ℕ) → Calibration
calibration_of value = record {
  valid_gain_frame = u8 (value valid_gain_frame);
  valid_simple_gain = u8 (value valid_simple_gain);
  valid_offset_frame = u8 (value valid_offset_frame);
  valid_bad_pixel_map = u8 (value valid_bad_pixel_map);
}

abbrev pub common_of : Option (List ℕ) → (Name → ℕ) → (Name → ℕ) → Option CommonConfiguration
common_of none value threshold = none
common_of (some text) value threshold = some (record {
  debug = u32 (value debug);
  profiling = u32 (value profiling);
  detector_version = u32 (value detector_version);
  max_no_of_configs = u32 (value max_no_of_configs);
  default_config_no = u32 (value default_config_no);
  snmp_agent = text;
  temp_max = u32 (threshold temp_max);
  temp_min = u32 (threshold temp_min);
  temp_hysteres = u32 (threshold temp_hysteres);
})

abbrev pub entry_of :
    Option (List ℕ) → Option (ℕ → ℕ) → Registers → Misc → Calibration → Option Configuration
entry_of none channel r m k = none
entry_of (some text) none r m k = none
entry_of (some text) (some channel) r m k =
    some
      (record { description = text; channel = channel; registers = r; misc = m; calibration = k })

module _ (lib : Libconfig) where
  -- for(ch = 0; ch < config_setting_length(list); ch++), with `n` rounds left.
  unfoldable pub read_channels : lib.Tree → Setting → ℕ → ℕ → (ℕ → ℕ) → Option (ℕ → ℕ)
  read_channels t p zero ch f = some f
  read_channels t p (suc n) ch f =
      let rest = read_channels t p n (ch + 1) (update f ch (u16 (lib.get_elem t p ch))) in
      if ltb ch max_no_of_channels then rest else none

  unfoldable pub read_hvps : lib.Tree → Setting → Option (ℕ → ℕ)
  unfolding read_channels
  read_hvps t p =
      let list = channels ∷ hvps ∷ p in
      if lib.exists t (hvps ∷ p) && lib.exists t list
      then read_channels t list (lib.length t list) 0 (λ i. 0)
      else some (λ i. 0)

  -- The paths of integration_time, asic_initial_value and intercolumn_delay do not fit their buffers
  -- (Config/Paths); the reads are those of a program in which they do.
  unfoldable pub read_registers : lib.Tree → Setting → Registers
  read_registers t p =
      if lib.exists t (regs ∷ p)
      then registers_of (λ name. lib.get_int t (name ∷ regs ∷ p))
      else zero_registers

  unfoldable pub read_misc : lib.Tree → Setting → Misc
  read_misc t p =
      if lib.exists t (misc ∷ p)
      then misc_of (λ name. lib.get_int t (name ∷ misc ∷ p))
      else zero_misc

  unfoldable pub read_calibration : lib.Tree → Setting → Calibration
  read_calibration t p =
      if lib.exists t (calibration ∷ p)
      then calibration_of (λ name. lib.get_bool t (name ∷ calibration ∷ p))
      else zero_calibration

  -- strcpy into an array of `size` characters.
  abbrev pub copy_string : ℕ → Option (List ℕ) → Option (List ℕ)
  copy_string size none = none
  copy_string size (some s) = if ltb (length s) size then some s else none

  -- if (config_lookup_string(...)) strcpy(...)
  abbrev pub optional_string : ℕ → Option (List ℕ) → Option (List ℕ)
  optional_string size none = some []
  optional_string size (some s) = copy_string size (some s)

  -- The body of the loop, for a configuration that is in the file.
  unfoldable pub read_one : lib.Tree → ℕ → Option Configuration
  unfolding read_hvps read_registers read_misc read_calibration
  read_one t i =
      let p = config_path i in
      entry_of (copy_string 40 (lib.get_string t (description ∷ p))) (read_hvps t p)
        (read_registers t p) (read_misc t p) (read_calibration t p)

  -- One round: memset has cleared the entry, and only an entry of the array may be written.
  unfoldable pub read_entry : lib.Tree → ℕ → Option Configuration
  unfolding read_one
  read_entry t i =
      if lib.exists t (config_path i)
      then (if ltb i max_configs then read_one t i else none)
      else some zero_configuration

  -- while (i < max_no_of_configs), with `n` rounds left.
  unfoldable pub read_from : lib.Tree → ℕ → ℕ → (ℕ → Configuration) → Option (ℕ → Configuration)
  unfolding read_entry
  read_from t zero i f = some f
  read_from t (suc n) i f = elim (read_entry t i) [
    | none ↦ none
    | some c ↦ read_from t n (i + 1) (update f i c)
  ]

  unfoldable pub read_common : lib.Tree → Option CommonConfiguration
  read_common t =
      common_of (optional_string 20 (lib.get_string t (snmp_agent ∷ software ∷ application ∷ [])))
        (λ name. lib.get_int t (name ∷ software ∷ application ∷ []))
        (λ name. lib.get_int t (name ∷ thresholds ∷ application ∷ []))

  -- The number of rounds: max_no_of_configs is a signed number.
  abbrev pub no_of_rounds : ℕ → ℕ
  no_of_rounds max = if has_bit max 31 then 0 else max

  unfoldable pub fill_ram : lib.Tree → Option Ram
  unfolding read_common read_from
  fill_ram t = elim (read_common t) [
    | none ↦ none
    | some common ↦
        elim (read_from t (no_of_rounds common.max_no_of_configs) 0 (λ i. zero_configuration)) [
          | none ↦ none
          | some f ↦ some (record { c_config = common; configurations = f })
        ]
  ]

  -- The file has been parsed.
  abbrev pub read_tree : Store lib → lib.Tree → Option (Rc × Store lib)
  read_tree s t =
      if lib.exists t (application ∷ [])
      then elim (fill_ram t) [ none ↦ none | some ram ↦ some (success, record s { ram = ram }) ]
      else some (failed error, s)

  abbrev pub read_content : Store lib → lib.Content → Option (Rc × Store lib)
  read_content s content = elim (lib.read content) [
    | none ↦ some (failed error, s)
    | some t ↦ read_tree s t
  ]

  -- A file that cannot be opened is one that is not there.
  unfoldable pub read_configuration_file : Store lib → Option (Rc × Store lib)
  read_configuration_file s = elim s.file [
    | none ↦ some (failed error, s)
    | some content ↦ read_content s content
  ]

  unfoldable pub get_common_config : Store lib → CommonConfiguration
  get_common_config s = s.ram.c_config

  unfoldable pub get_default_configuration_number : Store lib → ℕ
  get_default_configuration_number s = s.ram.c_config.default_config_no

  -- 0 <= number && number <= max_no_of_configs, of signed numbers: the index of the entry.
  unfoldable pub get_configuration : Store lib → ℤ → Option ℕ
  get_configuration s (negsuc n) = none
  get_configuration s (pos n) =
      let max = s.ram.c_config.max_no_of_configs in
      if has_bit max 31 then none else if leb n max then some n else none
