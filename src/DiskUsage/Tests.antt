-- ===== src/DiskUsage/Tests.antt =====
-- Lines of `du` and of Docker, and the theorem of the images at some.
use sdk_local_manager.Prelude.{◌≡◌, refl, some, none, List, [], ◌∷◌, ◌++◌, All, Eq_ℕ, Eq_List}
use sdk_local_manager.Prelude.Dict
use sdk_local_manager.Prelude.Text.{Text, txt, strip, to_number}
use sdk_local_manager.Prelude.Lines.{split_lines}
use sdk_local_manager.Prelude.Regex.{match_re, partition}
use sdk_local_manager.DiskUsage.{
  parse_du_output, du_lines, rstrip_slash, parse_docker_size, docker_size_re, docker_unit,
  trash_entry, trash_entry_re, Image, unused_images, is_kept, normalize_image_reference,
  normalize_stripped, last_part,
}
use sdk_local_manager.DiskUsage.Images.{IsUnused, unused_images-IsUnused}

sizes : parse_du_output (txt "12" ++ 9 ∷ txt "/p/demo/") ≡ (txt "/p/demo", 12288) ∷ []
unfolding parse_du_output du_lines rstrip_slash split_lines partition strip to_number Dict.put
sizes = refl

docker_sizes :
    (parse_docker_size (txt "1.25GB (3%)") ≡ 1250000000) × (parse_docker_size (txt "x") ≡ 0)
unfolding parse_docker_size docker_size_re docker_unit match_re partition to_number
docker_sizes = (refl, refl)

trash :
    trash_entry (txt "20261031_142530_demo")
    ≡ some (record {
      name = txt "20261031_142530_demo";
      project = txt "demo";
      deleted_at = txt "2026-10-31 14:25";
    })
unfolding trash_entry trash_entry_re match_re
trash = refl

abbrev image : Text → Text → Text → Image
image id repository tag = record { id = id; repository = repository; tag = tag }

abbrev images : List Image
images =
    image (txt "1") (txt "postgres") (txt "latest")
    ∷ image (txt "2") (txt "<none>") (txt "<none>")
    ∷ image (txt "3") (txt "redis") (txt "7")
    ∷ []

-- The first is declared without its tag, the third is in use.
unused :
    unused_images images (txt "3" ∷ []) (txt "postgres" ∷ [])
    ≡ record { image = image (txt "2") (txt "<none>") (txt "<none>"); reference = none } ∷ []
unfolding unused_images is_kept normalize_image_reference normalize_stripped last_part strip
unused = refl

unused_images-IsUnused_example :
    All
      (IsUnused (txt "3" ∷ []) (txt "postgres" ∷ []))
      (unused_images images (txt "3" ∷ []) (txt "postgres" ∷ []))
unused_images-IsUnused_example = unused_images-IsUnused images (txt "3" ∷ []) (txt "postgres" ∷ [])
