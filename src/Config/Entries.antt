-- ===== src/Config/Entries.antt =====
-- crates/core/src/config.rs: the options that an environment variable sets.
pub mod Names
use percas.Base.{List, [], ◌∷◌}
use percas.Text.{String}

pub record OptionEntry : Type 0 where
  pub env_name : String
  pub ent_path : String
  pub ent_type : String

unfoldable pub known_option_entries : List OptionEntry
known_option_entries =
    record {
      env_name = "PERCAS_CONFIG_SERVER_ADVERTISE_CTRL_ADDR";
      ent_path = "server.advertise_ctrl_addr";
      ent_type = "string";
    }
    ∷ record {
      env_name = "PERCAS_CONFIG_SERVER_ADVERTISE_DATA_ADDR";
      ent_path = "server.advertise_data_addr";
      ent_type = "string";
    }
    ∷ record {
      env_name = "PERCAS_CONFIG_SERVER_CLUSTER_ID";
      ent_path = "server.cluster_id";
      ent_type = "string";
    }
    ∷ record { env_name = "PERCAS_CONFIG_SERVER_DIR"; ent_path = "server.dir"; ent_type = "string" }
    ∷ record {
      env_name = "PERCAS_CONFIG_SERVER_INITIAL_PEERS";
      ent_path = "server.initial_peers";
      ent_type = "array";
    }
    ∷ record {
      env_name = "PERCAS_CONFIG_SERVER_LISTEN_CTRL_ADDR";
      ent_path = "server.listen_ctrl_addr";
      ent_type = "string";
    }
    ∷ record {
      env_name = "PERCAS_CONFIG_SERVER_LISTEN_DATA_ADDR";
      ent_path = "server.listen_data_addr";
      ent_type = "string";
    }
    ∷ record {
      env_name = "PERCAS_CONFIG_STORAGE_DATA_DIR";
      ent_path = "storage.data_dir";
      ent_type = "string";
    }
    ∷ record {
      env_name = "PERCAS_CONFIG_STORAGE_DISK_CAPACITY";
      ent_path = "storage.disk_capacity";
      ent_type = "string";
    }
    ∷ record {
      env_name = "PERCAS_CONFIG_STORAGE_DISK_THROTTLE_IOPS_COUNTER_MODE";
      ent_path = "storage.disk_throttle.iops_counter.mode";
      ent_type = "string";
    }
    ∷ record {
      env_name = "PERCAS_CONFIG_STORAGE_DISK_THROTTLE_IOPS_COUNTER_SIZE";
      ent_path = "storage.disk_throttle.iops_counter.size";
      ent_type = "integer";
    }
    ∷ record {
      env_name = "PERCAS_CONFIG_STORAGE_DISK_THROTTLE_READ_IOPS";
      ent_path = "storage.disk_throttle.read_iops";
      ent_type = "integer";
    }
    ∷ record {
      env_name = "PERCAS_CONFIG_STORAGE_DISK_THROTTLE_READ_THROUGHPUT";
      ent_path = "storage.disk_throttle.read_throughput";
      ent_type = "integer";
    }
    ∷ record {
      env_name = "PERCAS_CONFIG_STORAGE_DISK_THROTTLE_WRITE_IOPS";
      ent_path = "storage.disk_throttle.write_iops";
      ent_type = "integer";
    }
    ∷ record {
      env_name = "PERCAS_CONFIG_STORAGE_DISK_THROTTLE_WRITE_THROUGHPUT";
      ent_path = "storage.disk_throttle.write_throughput";
      ent_type = "integer";
    }
    ∷ record {
      env_name = "PERCAS_CONFIG_STORAGE_MEMORY_CAPACITY";
      ent_path = "storage.memory_capacity";
      ent_type = "string";
    }
    ∷ record {
      env_name = "PERCAS_CONFIG_TELEMETRY_LOGS_FILE_DIR";
      ent_path = "telemetry.logs.file.dir";
      ent_type = "string";
    }
    ∷ record {
      env_name = "PERCAS_CONFIG_TELEMETRY_LOGS_FILE_FILTER";
      ent_path = "telemetry.logs.file.filter";
      ent_type = "string";
    }
    ∷ record {
      env_name = "PERCAS_CONFIG_TELEMETRY_LOGS_FILE_MAX_FILES";
      ent_path = "telemetry.logs.file.max_files";
      ent_type = "integer";
    }
    ∷ record {
      env_name = "PERCAS_CONFIG_TELEMETRY_LOGS_OPENTELEMETRY_FILTER";
      ent_path = "telemetry.logs.opentelemetry.filter";
      ent_type = "string";
    }
    ∷ record {
      env_name = "PERCAS_CONFIG_TELEMETRY_LOGS_OPENTELEMETRY_OTLP_ENDPOINT";
      ent_path = "telemetry.logs.opentelemetry.otlp_endpoint";
      ent_type = "string";
    }
    ∷ record {
      env_name = "PERCAS_CONFIG_TELEMETRY_LOGS_STDERR_FILTER";
      ent_path = "telemetry.logs.stderr.filter";
      ent_type = "string";
    }
    ∷ record {
      env_name = "PERCAS_CONFIG_TELEMETRY_METRICS_OPENTELEMETRY_OTLP_ENDPOINT";
      ent_path = "telemetry.metrics.opentelemetry.otlp_endpoint";
      ent_type = "string";
    }
    ∷ record {
      env_name = "PERCAS_CONFIG_TELEMETRY_METRICS_OPENTELEMETRY_PUSH_INTERVAL";
      ent_path = "telemetry.metrics.opentelemetry.push_interval";
      ent_type = "string";
    }
    ∷ record {
      env_name = "PERCAS_CONFIG_TELEMETRY_TRACES_CAPTURE_LOG_FILTER";
      ent_path = "telemetry.traces.capture_log_filter";
      ent_type = "string";
    }
    ∷ record {
      env_name = "PERCAS_CONFIG_TELEMETRY_TRACES_OPENTELEMETRY_OTLP_ENDPOINT";
      ent_path = "telemetry.traces.opentelemetry.otlp_endpoint";
      ent_type = "string";
    }
    ∷ []
