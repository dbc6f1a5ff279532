-- ===== src/Config/Paths.antt =====
-- configuration.c: the texts of the paths that read_configuration_file builds with strcpy, sprintf and
-- strcat, and the buffers that it builds them in.
use Prim.Native.String.{String}
use Prim.Native.Char.{code}
use cjunk.Prelude.{
  ℕ, zero, suc, ◌+◌, ◌/◌, ◌%◌, ◌<◌, ◌≤◌, ◌≡◌, ltb, true, false, List, [], ◌∷◌, ◌++◌, length, arith,
}
use cjunk.Config.Defs.{
  Name, Setting, config_path, application, software, debug, profiling, detector_version,
  max_no_of_configs, default_config_no, snmp_agent, thresholds, temp_max, temp_min, temp_hysteres,
  config, description, hvps, channels, regs, misc, calibration, cmd, setup, frame_count,
  integration_time, reset_time, trigger_delay, asic_initial_value, intercolumn_delay, frame_rate,
  binning, field_x0, field_y0, field_width, field_height, valid_gain_frame, valid_offset_frame,
  valid_bad_pixel_map, valid_simple_gain,
}

abbrev codes : String → List ℕ
codes String.[] = []
codes (String.◌∷◌ c s) = code c ∷ codes s

-- sprintf(number, "%d", n), with fuel for each digit.
digits : ℕ → ℕ → List ℕ
digits zero n = []
digits (suc fuel) n = elim (ltb n 10) [
  | true ↦ (b'0' + n) ∷ []
  | false ↦ digits fuel (n / 10) ++ (b'0' + n % 10) ∷ []
]

unfoldable pub decimal : ℕ → List ℕ
unfolding digits
decimal n = digits (suc n) n

abbrev pub name_text : Name → List ℕ
name_text application = codes "application"
name_text software = codes "software"
name_text debug = codes "debug"
name_text profiling = codes "profiling"
name_text detector_version = codes "detector_version"
name_text max_no_of_configs = codes "max_no_of_configs"
name_text default_config_no = codes "default_config_no"
name_text snmp_agent = codes "snmp_agent"
name_text thresholds = codes "thresholds"
name_text temp_max = codes "temp_max"
name_text temp_min = codes "temp_min"
name_text temp_hysteres = codes "temp_hysteres"
name_text (config n) = codes "config" ++ decimal n
name_text description = codes "description"
name_text hvps = codes "hvps"
name_text channels = codes "channels"
name_text regs = codes "regs"
name_text misc = codes "misc"
name_text calibration = codes "calibration"
name_text cmd = codes "cmd"
name_text setup = codes "setup"
name_text frame_count = codes "frame_count"
name_text integration_time = codes "integration_time"
name_text reset_time = codes "reset_time"
name_text trigger_delay = codes "trigger_delay"
name_text asic_initial_value = codes "asic_initial_value"
name_text intercolumn_delay = codes "intercolumn_delay"
name_text frame_rate = codes "frame_rate"
name_text binning = codes "binning"
name_text field_x0 = codes "field_x0"
name_text field_y0 = codes "field_y0"
name_text field_width = codes "field_width"
name_text field_height = codes "field_height"
name_text valid_gain_frame = codes "valid_gain_frame"
name_text valid_offset_frame = codes "valid_offset_frame"
name_text valid_bad_pixel_map = codes "valid_bad_pixel_map"
name_text valid_simple_gain = codes "valid_simple_gain"

-- strcpy and strcat: the names from the first to the last, with dots between them.
abbrev pub path_text : Setting → List ℕ
path_text [] = []
path_text (x ∷ []) = name_text x
path_text (x ∷ y ∷ p) = path_text (y ∷ p) ++ b'.' ∷ name_text x

-- The bytes that a path takes, with the 0 at its end.
abbrev pub path_size : Setting → ℕ
path_size p = length (path_text p) + 1

-- The buffers of the paths of the elements of regs.
abbrev pub buffer_size : ℕ
buffer_size = 40

abbrev pub register_path : ℕ → Name → Setting
register_path n x = x ∷ regs ∷ config_path n

length-append {ℓ} : {A : Type ℓ} (xs ys : List A) → length (xs ++ ys) ≡ length xs + length ys
length-append [] ys = omega arith
length-append (x ∷ xs) ys = omega (arith, length-append xs ys)

digits-pos : (fuel n : ℕ) → 1 ≤ length (digits (suc fuel) n)
unfolding digits
digits-pos fuel n = ground (arith, length-append {0} (digits fuel (n / 10)) ((b'0' + n % 10) ∷ []))

decimal-pos : (n : ℕ) → 1 ≤ length (decimal n)
unfolding decimal
decimal-pos n = digits-pos n n

register_path_size :
    (n : ℕ) (x : Name)
    → path_size (register_path n x) ≡ length (decimal n) + (25 + length (name_text x))
register_path_size n x = omega (
  arith,
  length-append {0} (decimal n ++ b'.' ∷ name_text regs) (b'.' ∷ name_text x),
  length-append {0} (decimal n) (b'.' ∷ name_text regs),
)

-- The paths of integration_time, asic_initial_value and intercolumn_delay do not fit their buffers
-- of 40 bytes, whatever the number of the configuration is.
pub register_paths_overflow :
    (n : ℕ)
    → (buffer_size < path_size (register_path n integration_time))
      × (buffer_size < path_size (register_path n asic_initial_value))
      × (buffer_size < path_size (register_path n intercolumn_delay))
register_paths_overflow n = (
  omega (arith, register_path_size n integration_time, decimal-pos n),
  omega (arith, register_path_size n asic_initial_value, decimal-pos n),
  omega (arith, register_path_size n intercolumn_delay, decimal-pos n),
)
