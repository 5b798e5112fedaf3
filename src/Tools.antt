-- ===== src/Tools.antt =====
-- What the programs of Tools share: their options, and how they prepare the radio. TCPServer,
-- TCPClient and zmqPush repeat the same code; SigMFFileWriter does it on a stream to disk.
-- `getopt` is the C library's: the programs see the letters that it returns, each with `optarg`.
pub mod Options
pub mod Radio
pub mod Unstarted
pub mod Net
pub mod Push
pub mod Writer
pub mod Programs
pub mod Find
pub mod Server
pub mod Client
pub mod Scripted
mod Tests
use ic7610iq.Prelude.{
  ℕ, ℤ, pos, negsuc, Bool, true, false, ◌||◌, Option, none, some, List, [], ◌∷◌, if◌then◌else◌,
  String, str_eq, to_int32, to_uint32, is_positive, int_eq, is_zero, ◌^◌, ◌-◌, M, ◌>>=◌, ◌>>◌, pure,
  gets, ltb,
}
use ic7610iq.Common.{iq_in}
use ic7610iq.Driver.{Ftd3xx}
use ic7610iq.Port.{Port}
use ic7610iq.Port.Command.{icom_iq_command}
use ic7610iq.Port.Device.{init, get_device_serial_num, set_timeout}
use ic7610iq.Port.Levels.{get_rf_gain, set_frequency}

abbrev pub default_port : ℤ
default_port = pos 6789

abbrev pub int_min : ℤ
int_min = negsuc (2 ^ 31 - 1)

abbrev pub sub_vfo : ℕ
sub_vfo = 0x01

pub data Letter : Type 0 where
  option_f option_g option_i option_t option_v option_h missing_argument unrecognized : Letter

-- `atof` and the conversion of its result, in the C library: `none` where the value does not fit,
-- which is undefined behaviour.
pub record Numbers : Type 0 where
  -- `(uint32_t)atof(s)`
  pub to_frequency : String → Option ℕ
  -- `(int)(atof(s) * 10)`
  pub to_gain : String → Option ℤ
  -- `(int)atof(s)`
  pub to_int : String → Option ℤ

pub record Settings : Type 0 where
  pub gain : ℤ
  pub frequency : ℤ
  pub port : ℤ
  pub data_type : String
  pub vfo : ℕ
  pub interval : ℤ

abbrev pub default_settings : Settings
default_settings = record {
  gain = int_min;
  frequency = pos 0;
  port = pos 0;
  data_type = "";
  vfo = 0x00;
  interval = pos 1;
}

-- What the reading of options comes to: `usage`, which exits with code 1, settings, or undefined
-- behaviour.
pub data Parsed : Type 0 where
  usage : Parsed
  parsed : Settings → Parsed
  bad_number : Parsed

pub vfo_named : String → ℕ
vfo_named name =
    if str_eq name "main" || str_eq name "Main" || str_eq name "MAIN"
    then 0x00
    else if str_eq name "sub" || str_eq name "Sub" || str_eq name "SUB"
    then sub_vfo
    else 0x00

-- `-t` of zmqPush, and of SigMFFileWriter, which leaves an unknown type unset.
pub push_type : String → String
push_type optarg =
    if str_eq optarg "CS16"
    then "CS16"
    else if str_eq optarg "CF32"
    then "CF32"
    else if str_eq optarg "CF64"
    then "CF64"
    else "CS16"

pub writer_type : String → String → String
writer_type optarg old =
    if str_eq optarg "S16"
    then "S16"
    else if str_eq optarg "CS16"
    then "CS16"
    else if str_eq optarg "CF32"
    then "CF32"
    else if str_eq optarg "CF64"
    then "CF64"
    else old

module _ (numbers : Numbers) where
  frequency_option : String → Settings → Parsed
  frequency_option optarg s = elim (numbers.to_frequency optarg) [
    | none ↦ bad_number
    | some f ↦ parsed (record s { frequency = to_int32 f })
  ]

  gain_option : String → Settings → Parsed
  gain_option optarg s = elim (numbers.to_gain optarg) [
    | none ↦ bad_number
    | some g ↦ parsed (record s { gain = g })
  ]

  interval_option : String → Settings → Parsed
  interval_option optarg s = elim (numbers.to_int optarg) [
    | none ↦ bad_number
    | some i ↦ parsed (record s { interval = i })
  ]

  -- The switch of TCPServer and of TCPClient, whose case for `-t` is commented out.
  unfoldable pub server_option : Letter → String → Settings → Parsed
  unfolding frequency_option gain_option vfo_named
  server_option option_f optarg s = frequency_option optarg s
  server_option option_g optarg s = gain_option optarg s
  server_option option_v optarg s = parsed (record s { vfo = vfo_named optarg })
  server_option option_i optarg s = usage
  server_option option_t optarg s = usage
  server_option option_h optarg s = usage
  server_option missing_argument optarg s = usage
  server_option unrecognized optarg s = usage

  unfoldable pub push_option : Letter → String → Settings → Parsed
  unfolding frequency_option gain_option vfo_named push_type
  push_option option_f optarg s = frequency_option optarg s
  push_option option_g optarg s = gain_option optarg s
  push_option option_t optarg s = parsed (record s { data_type = push_type optarg })
  push_option option_v optarg s = parsed (record s { vfo = vfo_named optarg })
  push_option option_i optarg s = usage
  push_option option_h optarg s = usage
  push_option missing_argument optarg s = usage
  push_option unrecognized optarg s = usage

  unfoldable pub writer_option : Letter → String → Settings → Parsed
  unfolding frequency_option gain_option interval_option vfo_named writer_type
  writer_option option_f optarg s = frequency_option optarg s
  writer_option option_g optarg s = gain_option optarg s
  writer_option option_i optarg s = interval_option optarg s
  writer_option option_t optarg s = parsed (record s { data_type = writer_type optarg s.data_type })
  writer_option option_v optarg s = parsed (record s { vfo = vfo_named optarg })
  writer_option option_h optarg s = usage
  writer_option missing_argument optarg s = usage
  writer_option unrecognized optarg s = usage

-- The loop over `getopt`, for one of the switches.
unfoldable pub parse :
    (Letter → String → Settings → Parsed) → List (Letter × String) → Settings → Parsed
parse option [] s = parsed s
parse option ((letter, optarg) ∷ rest) s = elim (option letter optarg s) [
  | usage ↦ usage
  | bad_number ↦ bad_number
  | parsed s' ↦ parse option rest s'
]

-- The data type when no option has set it.
unfoldable pub with_data_type : Settings → Settings
with_data_type s = if str_eq s.data_type "" then record s { data_type = "CS16" } else s

-- The operand of TCPServer: its number is read from `optarg`, what `getopt` left there, and not
-- from `argv`. A null pointer there is undefined behaviour.
unfoldable pub server_port : Numbers → Option String → List String → Settings → Parsed
server_port numbers optarg [] s = parsed (record s { port = default_port })
server_port numbers none (operand ∷ []) s = bad_number
server_port numbers (some last) (operand ∷ []) s = elim (numbers.to_int last) [
  | none ↦ bad_number
  | some n ↦ parsed (record s { port = if is_zero n then default_port else n })
]
server_port numbers optarg (operand ∷ other ∷ rest) s = usage

-- What a program's preparation comes to: `exit` with a code, or its settings.
pub data Prepared : Type 0 where
  exits : ℕ → Prepared
  prepared : Settings → Prepared

module _ {W : Type 0} (ft : Ftd3xx W) where
  -- Frequency, gain and timeout. Both branches on the gain read the radio's.
  pub set_up_radio : ℤ → Settings → M (Port W) Settings
  set_up_radio timeout s = do
    if is_positive s.frequency
        then (do _ ← set_frequency ft s.vfo (to_uint32 s.frequency); pure tt)
        else pure tt
    gain ← if int_eq s.gain int_min then get_rf_gain ft s.vfo else get_rf_gain ft s.vfo
    set_timeout ft iq_in timeout
    pure (record s { gain = gain })

  -- With the device's serial number, or without one.
  prepare_device : Settings → Option String → M (Port W) Prepared
  unfolding set_up_radio
  prepare_device s none = pure (exits 1)
  prepare_device s (some number) = do
    init ft number false
    open' ← gets λ p. p.is_open
    if open'
        then (do
          (received, _) ← icom_iq_command ft (0x1a ∷ 0x0b ∷ []) []
          if ltb 0 received
              then (do s' ← set_up_radio (pos 5000) s; pure (prepared s'))
              else pure (exits 1))
        else pure (exits 2)

  -- From the device to its timeout, in TCPServer, TCPClient and zmqPush.
  unfoldable pub prepare : Settings → M (Port W) Prepared
  unfolding prepare_device
  prepare s = do serial ← get_device_serial_num ft; prepare_device s serial
