-- ===== src/Performance/Tests.antt =====
-- Computers of common sizes, and the theorems of the shares at them.
use sdk_local_manager.Prelude.{ℕ, ◌*◌, ◌≡◌, refl, sym, ap, some}
use sdk_local_manager.Prelude.Text.{txt, words, to_number}
use sdk_local_manager.Prelude.Lines.{split_lines}
use sdk_local_manager.Prelude.Decimal.{decimal, digits_before, int_of}
use sdk_local_manager.Performance.{
  linux_total_memory, gib, mib, DockerResources, recommended_docker_resources, docker_memory,
  docker_cpus, docker_swap, reserved_hundredths, postgres_settings, clamp_mib, PostgresSettings,
}
use sdk_local_manager.Performance.Shares.{IsShare, recommended_docker_resources-IsShare}

abbrev gibibytes : ℕ → ℕ → ℕ → DockerResources
gibibytes memory cpus swap = record { memory = memory * gib; cpus = cpus; swap = swap * gib }

recommended_8 : recommended_docker_resources (8 * gib) 4 ≡ some (gibibytes 4 4 2)
unfolding recommended_docker_resources docker_memory docker_cpus docker_swap reserved_hundredths gib
recommended_8 = refl

recommended_16 : recommended_docker_resources (16 * gib) 8 ≡ some (gibibytes 10 6 2)
unfolding recommended_docker_resources docker_memory docker_cpus docker_swap reserved_hundredths gib
recommended_16 = refl

buffers_10 :
    (s : PostgresSettings) → postgres_settings (10 * gib) 6 0 ≡ s → s.shared_buffers ≡ txt "1280MB"
unfolding postgres_settings clamp_mib mib gib decimal digits_before
buffers_10 s h = ap (λ x. x.shared_buffers) (sym h)

recommended_docker_resources-IsShare_example : IsShare (16 * gib) 8 (gibibytes 10 6 2)
recommended_docker_resources-IsShare_example =
    recommended_docker_resources-IsShare (16 * gib) 8 (gibibytes 10 6 2) recommended_16

meminfo : linux_total_memory (txt "MemTotal:       16 kB") ≡ some 16384
unfolding linux_total_memory words int_of to_number split_lines
meminfo = refl
