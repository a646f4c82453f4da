-- ===== src/Sdk/Channel/Options.antt =====
-- The configuration of the client: sdk/channel/options.go. Durations are not negative.
use k8s4claw.Base.{ℕ, ◌*◌, String, ℤ, pos, if◌then◌else◌, str_eq}
use k8s4claw.Controller.Ops.Types.{second}

abbrev pub default_socket_path : String
default_socket_path = "/var/run/claw/bus.sock"

abbrev pub default_buffer_size : ℤ
default_buffer_size = pos 256

abbrev pub default_reconnect_interval : ℕ
default_reconnect_interval = 2 * second

abbrev pub default_heartbeat_interval : ℕ
default_heartbeat_interval = 30 * second

abbrev pub max_reconnect_interval : ℕ
max_reconnect_interval = 60 * second

pub record ClientConfig : Type 0 where
  pub socket_path : String
  pub channel_name : String
  pub channel_mode : String
  pub buffer_size : ℤ
  pub reconnect_interval : ℕ
  pub heartbeat_interval : ℕ

-- `os.Getenv` gives the empty text for a variable that is not there.
unfoldable pub default_config : (String → String) → ClientConfig
default_config getenv = record {
  socket_path =
      if str_eq (getenv "IPC_SOCKET_PATH") ""
      then default_socket_path
      else getenv "IPC_SOCKET_PATH";
  channel_name = getenv "CHANNEL_NAME";
  channel_mode = getenv "CHANNEL_MODE";
  buffer_size = default_buffer_size;
  reconnect_interval = default_reconnect_interval;
  heartbeat_interval = default_heartbeat_interval;
}

-- `Option`: the settings that a caller may change.
pub data Setting : Type 0 where
  with_socket_path : String → Setting
  with_channel_name : String → Setting
  with_channel_mode : String → Setting
  with_buffer_size : ℤ → Setting
  with_reconnect_interval : ℕ → Setting
  with_heartbeat_interval : ℕ → Setting

unfoldable pub apply_setting : Setting → ClientConfig → ClientConfig
apply_setting (with_socket_path path) cfg = record cfg { socket_path = path }
apply_setting (with_channel_name name) cfg = record cfg { channel_name = name }
apply_setting (with_channel_mode mode) cfg = record cfg { channel_mode = mode }
apply_setting (with_buffer_size size) cfg = record cfg { buffer_size = size }
apply_setting (with_reconnect_interval d) cfg = record cfg { reconnect_interval = d }
apply_setting (with_heartbeat_interval d) cfg = record cfg { heartbeat_interval = d }
