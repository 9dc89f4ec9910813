-- ===== src/Performance.antt =====
-- odoo_manager_core/performance.py: what Docker is given of the computer, and the settings of
-- PostgreSQL that follow from it.
--
-- Sizes are whole numbers of bytes. The shares 0.35 and 0.9 are the exact fractions 35/100 and
-- 9/10, so that a comparison is one of multiples, where the code has floats.
pub mod Shares
pub mod Tests
use sdk_local_manager.Prelude.{
  ℕ, zero, suc, ◌+◌, ◌-◌, ◌*◌, ◌/◌, ◌%◌, min, max, Bool, true, false, not, ◌&&◌, ◌||◌, Option, none,
  some, List, [], ◌∷◌, ◌++◌, if◌then◌else◌, ltb, leb, nat_eq,
}
use sdk_local_manager.Prelude.Text.{Text, txt, has_prefix, words}
use sdk_local_manager.Prelude.Decimal.{decimal, int_of}
use sdk_local_manager.Prelude.Lines.{split_lines}
use sdk_local_manager.Prelude.Options.{◌>>=◌}

-- `none`: the line has no number, and the code raises.
abbrev pub second_number : List Text → Option ℕ
second_number (label ∷ number ∷ rest) = int_of number >>= λ n. some (n * 1024)
second_number _ = none

abbrev total_memory_in : List Text → Option ℕ
total_memory_in [] = some 0
total_memory_in (line ∷ lines) =
    if has_prefix (txt "MemTotal:") line then second_number (words line) else total_memory_in lines

unfoldable pub linux_total_memory : Text → Option ℕ
linux_total_memory meminfo = total_memory_in (split_lines meminfo)

unfoldable pub mib : ℕ
mib = 1048576

unfoldable pub gib : ℕ
gib = 1073741824

abbrev pub host_reserved_min : ℕ
host_reserved_min = 4 * gib

abbrev pub docker_memory_min : ℕ
docker_memory_min = 2 * gib

abbrev pub docker_memory_critical : ℕ
docker_memory_critical = 3 * gib

abbrev pub swap_min : ℕ
swap_min = 2 * gib

abbrev pub swap_max : ℕ
swap_max = 4 * gib

pub record DockerResources : Type 0 where
  pub memory : ℕ
  pub cpus : ℕ
  pub swap : ℕ

-- A hundred times what the system keeps.
unfoldable pub reserved_hundredths : ℕ → ℕ
reserved_hundredths host_memory = max (100 * host_reserved_min) (35 * host_memory)

unfoldable pub docker_memory : ℕ → ℕ
unfolding reserved_hundredths
docker_memory host_memory =
    max docker_memory_min
      ((100 * host_memory - reserved_hundredths host_memory) / (100 * gib) * gib)

unfoldable pub docker_cpus : ℕ → ℕ
docker_cpus host_cpus = max 1 (if leb host_cpus 4 then host_cpus else host_cpus - 2)

unfoldable pub docker_swap : ℕ → ℕ
docker_swap memory = min swap_max (max swap_min (memory / 4 / gib * gib))

unfoldable pub recommended_docker_resources : ℕ → ℕ → Option DockerResources
recommended_docker_resources zero host_cpus = none
recommended_docker_resources (suc m) host_cpus = some (record {
  memory = docker_memory (suc m);
  cpus = docker_cpus host_cpus;
  swap = docker_swap (docker_memory (suc m));
})

pub data ResourcesStatus : Type 0 where
  critical unknown low ok : ResourcesStatus

abbrev pub status_against : ℕ → ℕ → Option DockerResources → ResourcesStatus
status_against current_memory current_cpus none = unknown
status_against zero current_cpus (some r) = unknown
status_against (suc m) current_cpus (some r) =
    if ltb (10 * suc m) (9 * r.memory) || ltb current_cpus r.cpus then low else ok

unfoldable pub resources_status : ℕ → ℕ → Option DockerResources → ResourcesStatus
resources_status current_memory current_cpus recommended =
    if not (nat_eq current_memory 0) && ltb current_memory docker_memory_critical
    then critical
    else status_against current_memory current_cpus recommended

-- `value` is given as a number of bytes divided by `parts`.
unfoldable pub clamp_mib : ℕ → ℕ → ℕ → ℕ → ℕ
clamp_mib bytes parts minimum maximum = max minimum (min maximum (bytes / (parts * mib)))

pub record PostgresSettings : Type 0 where
  pub shared_buffers : Text
  pub effective_cache_size : Text
  pub maintenance_work_mem : Text
  pub work_mem : Text
  pub max_wal_size : Text
  pub min_wal_size : Text
  pub checkpoint_timeout : Text
  pub checkpoint_completion_target : Text
  pub synchronous_commit : Text
  pub random_page_cost : Text
  pub effective_io_concurrency : Text
  pub max_parallel_workers_per_gather : Text
  pub max_parallel_maintenance_workers : Option Text

-- `value or other`, and `int(cpus or 1)` not under 1
abbrev pub or_default : ℕ → ℕ → ℕ
or_default other zero = other
or_default other (suc n) = suc n

abbrev megabytes : ℕ → Text
megabytes n = decimal n ++ txt "MB"

abbrev settings_of : ℕ → ℕ → ℕ → PostgresSettings
settings_of memory cpus version = record {
  shared_buffers = megabytes (clamp_mib memory 8 128 2048);
  effective_cache_size = megabytes (clamp_mib memory 2 512 32768);
  maintenance_work_mem = megabytes (clamp_mib memory 16 64 1024);
  work_mem = if leb memory (4 * gib) then txt "16MB" else txt "32MB";
  max_wal_size = txt "2GB";
  min_wal_size = txt "256MB";
  checkpoint_timeout = txt "15min";
  checkpoint_completion_target = txt "0.9";
  synchronous_commit = txt "off";
  random_page_cost = txt "1.1";
  effective_io_concurrency = txt "200";
  max_parallel_workers_per_gather = decimal (min 2 (cpus / 2));
  max_parallel_maintenance_workers =
      if nat_eq version 0 || leb 110000 version then some (decimal (min 4 (cpus / 2))) else none;
}

unfoldable pub postgres_settings : ℕ → ℕ → ℕ → PostgresSettings
postgres_settings memory cpus server_version_num =
    settings_of (or_default (2 * gib) memory) (or_default 1 cpus) server_version_num
