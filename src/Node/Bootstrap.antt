-- ===== src/Node/Bootstrap.antt =====
-- bootstrap.conf, getBootstrapConfig of internal/controller/node/configmap.go.
pub mod RoundTrip
use nifi_operator.Common.{
  String, ◌<>◌, Option, some, List, [], ◌∷◌, ◌≡◌, refl, Result, ok, deref, ◌>>=◌,
}
use nifi_operator.Common.Ordered.{sort_by_name}
use nifi_operator.Api.{ConfigSpec}

-- The map that the source builds.
unfoldable pub bootstrap_settings : String → List (String × String)
bootstrap_settings graceful_shutdown_timeout =
    ("java", "java")
    ∷ ("run.as", "")
    ∷ ("preserve.environment", "false")
    ∷ ("lib.dir", "./lib")
    ∷ ("conf.dir", "./conf")
    ∷ ("graceful.shutdown.seconds", graceful_shutdown_timeout)
    ∷ []

-- The loop over the sorted keys.
unfoldable pub print_settings : String → List (String × String) → String
print_settings text [] = text
print_settings text ((key, value) ∷ more) =
    print_settings (text <> key <> "=" <> value <> "\n") more

-- The timeout is a field of an embedded pointer, which is followed without a test.
unfoldable pub get_bootstrap_config : Option ConfigSpec → Result String
get_bootstrap_config config = do
  c ← deref config
  r ← deref c.role_group_config
  ok (print_settings "" (sort_by_name (bootstrap_settings r.graceful_shutdown_timeout)))

bootstrap_test :
    get_bootstrap_config
      (some (record { role_group_config = some (record { graceful_shutdown_timeout = "30s" }) }))
    ≡ ok (
        "conf.dir=./conf\ngraceful.shutdown.seconds=30s\njava=java\nlib.dir=./lib\n"
        <> "preserve.environment=false\nrun.as=\n")
unfolding get_bootstrap_config print_settings bootstrap_settings sort_by_name
bootstrap_test = refl
