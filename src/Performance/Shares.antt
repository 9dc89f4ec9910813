-- ===== src/Performance/Shares.antt =====
-- What Docker and PostgreSQL are given stays within what the computer has.
use mathlib.Core.Path.{subst}
use sdk_local_manager.Prelude.{
  ℕ, zero, suc, ◌+◌, ◌*◌, ◌%◌, ◌≤◌, ◌<◌, ◌⊎◌, max, ◌≡◌, some, arith, ltb, if◌then◌else◌,
}
use sdk_local_manager.Performance.{
  gib, reserved_hundredths, docker_memory, docker_cpus, docker_swap, DockerResources,
  recommended_docker_resources, resources_status, ok, critical, docker_memory_min,
  docker_memory_critical, swap_min, swap_max,
}

docker_memory-ge : (m : ℕ) → docker_memory_min ≤ docker_memory m
unfolding docker_memory gib
docker_memory-ge m = omega arith

docker_swap-ge : (m : ℕ) → swap_min ≤ docker_swap m
unfolding docker_swap gib
docker_swap-ge m = omega arith

docker_swap-le : (m : ℕ) → docker_swap m ≤ swap_max
unfolding docker_swap gib
docker_swap-le m = omega arith

docker_swap_mono : (m n : ℕ) → m ≤ n → docker_swap m ≤ docker_swap n
unfolding docker_swap gib
docker_swap_mono m n h = omega arith

status-enough :
    (memory cpus swap : ℕ)
    → docker_memory_min ≤ memory
    → resources_status memory cpus (some (record { memory = memory; cpus = cpus; swap = swap }))
      ≡ (if ltb memory docker_memory_critical then critical else ok)
unfolding resources_status gib
status-enough zero c s h = absurd (omega arith)
status-enough (suc m) c s h = ground arith

docker_memory-multiple : (m : ℕ) → docker_memory m % gib ≡ 0
unfolding docker_memory reserved_hundredths gib
docker_memory-multiple m = omega arith

docker_memory_mono : (m n : ℕ) → m ≤ n → docker_memory m ≤ docker_memory n
unfolding docker_memory reserved_hundredths gib
docker_memory_mono m n h = omega arith

abbrev gibibyte : ℕ
gibibyte = 1073741824

docker_memory-largest :
    (m : ℕ)
    → 6 * gibibyte ≤ m
    → (docker_memory m + 4 * gibibyte ≤ m)
      × (100 * docker_memory m + 35 * m ≤ 100 * m)
      × ((m < docker_memory m + 5 * gibibyte)
          ⊎ (100 * m < 100 * (docker_memory m + gibibyte) + 35 * m))
unfolding docker_memory reserved_hundredths gib
docker_memory-largest m h = (omega arith, omega arith, omega arith)

-- What the memory of a computer can and cannot be split into.
abbrev pub IsShare : ℕ → ℕ → DockerResources → Type 0
IsShare host_memory host_cpus r =
    (2 * gibibyte ≤ r.memory)
    × (r.memory % gibibyte ≡ 0)
    × (2 * gibibyte ≤ r.swap)
    × (r.swap ≤ 4 * gibibyte)
    × (1 ≤ r.cpus)
    × (r.cpus ≤ max 1 host_cpus)
    × (6 * gibibyte ≤ host_memory
        → (r.memory + 4 * gibibyte ≤ host_memory)
          × (100 * r.memory + 35 * host_memory ≤ 100 * host_memory)
          × ((host_memory < r.memory + 5 * gibibyte)
              ⊎ (100 * host_memory < 100 * (r.memory + gibibyte) + 35 * host_memory)))

-- Docker is offered whole gibibytes, at least two, a swap of two to four gibibytes, and at least
-- one processor but no more than there are; from six gibibytes of memory on, the computer keeps four
-- gibibytes and 35 % of its memory at least, and one gibibyte more for Docker would leave it less
-- than one of the two.
pub recommended_docker_resources-IsShare :
    (host_memory host_cpus : ℕ) (r : DockerResources)
    → recommended_docker_resources host_memory host_cpus ≡ some r
    → IsShare host_memory host_cpus r
unfolding recommended_docker_resources docker_cpus gib
recommended_docker_resources-IsShare zero c r h = absurd (ground arith)
recommended_docker_resources-IsShare (suc m) c r h =
    let e : record {
      memory = docker_memory (suc m);
      cpus = docker_cpus c;
      swap = docker_swap (docker_memory (suc m));
    }
        ≡ r =
      ground (arith, h) in
    subst (IsShare (suc m) c) e (
      docker_memory-ge (suc m),
      docker_memory-multiple (suc m),
      docker_swap-ge (docker_memory (suc m)),
      docker_swap-le (docker_memory (suc m)),
      ground arith,
      ground arith,
      docker_memory-largest (suc m),
    )

-- A computer with more memory gives Docker no less memory and no less swap.
pub recommended_docker_resources_mono :
    (m n c d : ℕ) (r s : DockerResources)
    → m ≤ n
    → recommended_docker_resources m c ≡ some r
    → recommended_docker_resources n d ≡ some s
    → (r.memory ≤ s.memory) × (r.swap ≤ s.swap)
unfolding recommended_docker_resources
recommended_docker_resources_mono zero n c d r s hm h k = absurd (ground arith)
recommended_docker_resources_mono (suc m) zero c d r s hm h k = absurd (ground arith)
recommended_docker_resources_mono (suc m) (suc n) c d r s hm h k = (
  ground (arith, docker_memory_mono (suc m) (suc n) hm, h, k),
  ground (
    arith,
    docker_swap_mono (docker_memory (suc m)) (docker_memory (suc n))
        (docker_memory_mono (suc m) (suc n) hm),
    h,
    k,
  ),
)

-- A Docker that was given what is recommended is not told to be low: its status is ok, but for the
-- computers of which it gets less than three gibibytes, where it is critical.
pub resources_status-recommended :
    (host_memory host_cpus : ℕ) (r : DockerResources)
    → recommended_docker_resources host_memory host_cpus ≡ some r
    → resources_status r.memory r.cpus (some r)
      ≡ (if ltb r.memory docker_memory_critical then critical else ok)
unfolding resources_status gib
resources_status-recommended m c r h =
    let share = recommended_docker_resources-IsShare m c r h in
    status-enough r.memory r.cpus r.swap share.0
