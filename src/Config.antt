-- ===== src/Config.antt =====
-- crates/core/src/config.rs: the configuration of a node and its defaults.
pub mod Entries
pub mod Load
use percas.Base.{ℕ, ◌*◌, List, [], ◌∷◌, Option, none, some}
use percas.Text.{String, Url, FilePath, join}

-- An IPv4 socket address.
pub record SocketAddr : Type 0 where
  pub octets : List ℕ
  pub port : ℕ

pub data IopsCounter : Type 0 where
  per_io : IopsCounter
  per_io_size : ℕ → IopsCounter

pub record DiskThrottle : Type 0 where
  pub write_iops : Option ℕ
  pub read_iops : Option ℕ
  pub write_throughput : Option ℕ
  pub read_throughput : Option ℕ
  pub iops_counter : IopsCounter

pub record FileAppenderConfig : Type 0 where
  pub filter : String
  pub dir : String
  pub max_files : Option ℕ

pub record StderrAppenderConfig : Type 0 where
  pub filter : String

pub record OpentelemetryAppenderConfig : Type 0 where
  pub filter : String
  pub otlp_endpoint : String

pub record LogsConfig : Type 0 where
  pub file : Option FileAppenderConfig
  pub stderr : Option StderrAppenderConfig
  pub opentelemetry : Option OpentelemetryAppenderConfig

pub record OpentelemetryTracesConfig : Type 0 where
  pub otlp_endpoint : String

pub record TracesConfig : Type 0 where
  pub capture_log_filter : String
  pub opentelemetry : Option OpentelemetryTracesConfig

pub record OpentelemetryMetricsConfig : Type 0 where
  pub otlp_endpoint : String
  pub push_interval : ℕ

pub record MetricsConfig : Type 0 where
  pub opentelemetry : Option OpentelemetryMetricsConfig

pub record TelemetryConfig : Type 0 where
  pub logs : LogsConfig
  pub traces : Option TracesConfig
  pub metrics : Option MetricsConfig

pub record StorageConfig : Type 0 where
  pub data_dir : FilePath
  pub disk_capacity : ℕ
  pub memory_capacity : ℕ
  pub disk_throttle : Option DiskThrottle

pub record ServerConfig : Type 0 where
  pub dir : FilePath
  pub listen_data_addr : SocketAddr
  pub advertise_data_addr : Option SocketAddr
  pub listen_ctrl_addr : SocketAddr
  pub advertise_ctrl_addr : Option SocketAddr
  pub initial_peers : List Url
  pub cluster_id : String

pub record Config : Type 0 where
  pub server : ServerConfig
  pub storage : StorageConfig
  pub telemetry : TelemetryConfig

abbrev pub default_listen_data_addr : SocketAddr
default_listen_data_addr = record { octets = 0 ∷ 0 ∷ 0 ∷ 0 ∷ []; port = 7654 }

abbrev pub default_listen_ctrl_addr : SocketAddr
default_listen_ctrl_addr = record { octets = 0 ∷ 0 ∷ 0 ∷ 0 ∷ []; port = 7655 }

abbrev pub default_disk_capacity : ℕ
default_disk_capacity = 512 * 1024 * 1024

abbrev pub default_dir : FilePath
default_dir = "/var/lib/percas"

abbrev pub default_data_dir : FilePath
default_data_dir = "/var/lib/percas/data"

abbrev pub default_cluster_id : String
default_cluster_id = "percas-cluster"

unfoldable pub node_file_path : FilePath → FilePath
unfolding join
node_file_path base_dir = join base_dir "node.json"

-- In nanoseconds.
abbrev pub default_metrics_push_interval : ℕ
default_metrics_push_interval = 30 * 1_000_000_000

-- `available_memory` is what `default_memory_capacity` asks the system for.
unfoldable pub default : ℕ → Config
default available_memory = record {
  server = record {
    dir = default_dir;
    listen_data_addr = default_listen_data_addr;
    advertise_data_addr = none;
    listen_ctrl_addr = default_listen_ctrl_addr;
    advertise_ctrl_addr = none;
    initial_peers = [];
    cluster_id = default_cluster_id;
  };
  storage = record {
    data_dir = default_data_dir;
    disk_capacity = default_disk_capacity;
    memory_capacity = available_memory;
    disk_throttle = none;
  };
  telemetry = record {
    logs = record {
      file = some (record { filter = "INFO"; dir = "logs"; max_files = some 64 });
      stderr = some (record { filter = "INFO" });
      opentelemetry = some (record { filter = "INFO"; otlp_endpoint = "http://127.0.0.1:4317" });
    };
    traces = some (record {
      capture_log_filter = "INFO";
      opentelemetry = some (record { otlp_endpoint = "http://127.0.0.1:4317" });
    });
    metrics = some (record {
      opentelemetry = some (record {
        otlp_endpoint = "http://127.0.0.1:4317";
        push_interval = default_metrics_push_interval;
      });
    });
  };
}
