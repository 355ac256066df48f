-- ===== src/Version.antt =====
-- internal/version/version.go: what the operator says of its build.
use nifi_operator.Common.{String, ◌<>◌, Result, ok, err, panic}

-- The variables that a build sets by `-ldflags`.
pub record Build : Type 0 where
  pub build_version : String
  pub build_time : String
  pub git_commit : String

abbrev pub default_build : Build
default_build = record { build_version = "0.0.0-dev"; build_time = "N/A"; git_commit = "N/A" }

-- What package runtime of Go says.
pub record GoRuntime : Type 0 where
  pub version : String
  pub compiler : String
  pub goos : String
  pub goarch : String

pub record AppInfo : Type 0 where
  pub name : String
  pub app_version : String
  pub build_time : String
  pub git_commit : String
  pub go_version : String
  pub compiler : String
  pub platform : String

unfoldable pub new_app_info : Build → GoRuntime → String → AppInfo
new_app_info b g name = record {
  name = name;
  app_version = b.build_version;
  git_commit = b.git_commit;
  build_time = b.build_time;
  go_version = g.version;
  compiler = g.compiler;
  platform = g.goos <> "/" <> g.goarch;
}

-- `String`, with `json.Marshal`.
unfoldable pub to_string : (AppInfo → Result String) → AppInfo → String
to_string marshal a = elim (marshal a) [
  | ok data' ↦ data'
  | err _ ↦ "Error marshaling AppInfo"
  | panic ↦ "Error marshaling AppInfo"
]
