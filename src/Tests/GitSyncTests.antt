-- ===== src/Tests/GitSyncTests.antt =====
-- Runs of internal/common/git_sync.go on two entries.
use nifi_operator.Common.{true, false, List, [], ◌∷◌, map, ◌≡◌, refl, ok, All, arith, Distinct}
use nifi_operator.Kube.{volume_name}
use nifi_operator.Api.{GitSyncSpec}
use nifi_operator.GitSync.{build_git_sync_args, new_git_sync_resources}
use nifi_operator.GitSync.Args.{setting, own_settings, settings_of, build_git_sync_args_lem}
use nifi_operator.GitSync.Reserved.{given, values_of, build_git_sync_args-given}
use nifi_operator.GitSync.Loop.{resources_of, new_git_sync_resources_lem}
use nifi_operator.Common.Label.{IsLabel}
use nifi_operator.GitSync.Labels.{new_git_sync_resources-IsLabel}
use nifi_operator.GitSync.Names.{container_name, mount_path_of, new_git_sync_resources-Distinct}
use nifi_operator.Tests.Inputs.{flows, scripts}

abbrev two : List GitSyncSpec
two = flows ∷ scripts ∷ []

new_git_sync_resources_example : new_git_sync_resources two ≡ ok (resources_of two)
new_git_sync_resources_example = new_git_sync_resources_lem two

build_git_sync_args_example : build_git_sync_args flows true ≡ map setting (settings_of flows true)
build_git_sync_args_example = build_git_sync_args_lem flows true

new_git_sync_resources-Distinct_example :
    Distinct (map container_name (resources_of two).git_sync_containers)
    × Distinct (map container_name (resources_of two).git_sync_init_containers)
    × Distinct (map volume_name (resources_of two).git_sync_volumes)
    × Distinct (map mount_path_of (resources_of two).git_sync_volume_mounts)
new_git_sync_resources-Distinct_example =
    new_git_sync_resources-Distinct two (resources_of two) (new_git_sync_resources_lem two)

build_git_sync_args-given_example :
    given "--repo" (build_git_sync_args flows false) ≡ values_of "--repo" (own_settings flows false)
build_git_sync_args-given_example =
    build_git_sync_args-given flows false "--repo" (refl, (refl, tt)) refl

new_git_sync_resources-IsLabel_example :
    All IsLabel (map container_name (resources_of two).git_sync_containers)
    × All IsLabel (map container_name (resources_of two).git_sync_init_containers)
    × All IsLabel (map volume_name (resources_of two).git_sync_volumes)
new_git_sync_resources-IsLabel_example =
    new_git_sync_resources-IsLabel two (resources_of two) (omega arith)
      (new_git_sync_resources_lem two)
