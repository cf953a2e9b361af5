-- ===== src/Profiles/Steps.antt =====
-- src/profiles.rs: the steps of the profiles and their images.
use gha_indie_worker_rs.Prelude.{List, [], ◌∷◌}
use gha_indie_worker_rs.Text.{Text, text}

pub record ProfileStep : Type 0 where
  pub name : Text
  pub image : Text
  pub subdirectory : Text
  pub script : Text

abbrev flutter_image : Text
flutter_image =
    text "710156900967.dkr.ecr.us-east-1.amazonaws.com/sonus-flutter-builder:3.44.2-c9a6c48423"

abbrev browser_image : Text
browser_image = text "mcr.microsoft.com/playwright:v1.60.0-noble"

abbrev rust_image : Text
rust_image = text "docker.io/library/rust:1.90-bookworm"

abbrev node_image : Text
node_image = text "docker.io/library/node:22-bookworm"

abbrev python_image : Text
python_image = text "docker.io/library/python:3.13-bookworm"

unfoldable pub rust_verify_steps : List ProfileStep
rust_verify_steps =
    record {
      name = text "Rust formatting, Clippy, and tests";
      image = rust_image;
      subdirectory = text ".";
      script =
          text
            "set -euo pipefail\ncrate_dir=.\nif [ ! -f \"$crate_dir/Cargo.toml\" ]; then\n  if [ -f remote/deployments/gha-clone-server-rs/Cargo.toml ]; then\n    crate_dir=remote/deployments/gha-clone-server-rs\n  else\n    echo \"rust-verify requires Cargo.toml at repository root or the reviewed gha-clone-server monorepo path\" >&2\n    exit 2\n  fi\nfi\ncd \"$crate_dir\"\nrustup component add rustfmt clippy\ncargo fmt --all -- --check\ncargo clippy --locked --all-targets --all-features -- -D warnings\ncargo test --locked --all-targets --all-features";
    }
    ∷ []

unfoldable pub node_verify_steps : List ProfileStep
node_verify_steps =
    record {
      name = text "Node dependency and test verification";
      image = node_image;
      subdirectory = text ".";
      script =
          text
            "set -euo pipefail\nif [ -f pnpm-lock.yaml ]; then\n  corepack enable\n  pnpm install --frozen-lockfile\n  pnpm test\nelif [ -f yarn.lock ]; then\n  corepack enable\n  yarn install --immutable\n  yarn test\nelif [ -f package-lock.json ] || [ -f npm-shrinkwrap.json ]; then\n  npm ci\n  npm test\nelse\n  echo \"node-verify requires pnpm-lock.yaml, yarn.lock, package-lock.json, or npm-shrinkwrap.json\" >&2\n  exit 2\nfi";
    }
    ∷ []

unfoldable pub python_verify_steps : List ProfileStep
python_verify_steps =
    record {
      name = text "Python compile and pytest verification";
      image = python_image;
      subdirectory = text ".";
      script =
          text
            "set -euo pipefail\npython -m compileall -q .\nif [ -f requirements.txt ]; then\n  python -m pip install --disable-pip-version-check --no-input -r requirements.txt\nelif [ -f pyproject.toml ]; then\n  python -m pip install --disable-pip-version-check --no-input .\nfi\npython -m pytest";
    }
    ∷ []

unfoldable pub flutter_verify_steps : List ProfileStep
flutter_verify_steps =
    record {
      name = text "flutter verify";
      image = flutter_image;
      subdirectory = text ".";
      script = text "flutter pub get && flutter analyze --no-fatal-infos && flutter test";
    }
    ∷ []

unfoldable pub flutter_android_steps : List ProfileStep
flutter_android_steps =
    record {
      name = text "flutter Android debug";
      image = flutter_image;
      subdirectory = text ".";
      script =
          text
            "flutter pub get && flutter analyze --no-fatal-infos && flutter test && flutter build apk --debug --dart-define=SONUS_BACKEND_BASE_URL=https://ci.invalid --dart-define=SONUS_SUPABASE_URL=https://ci.supabase.co --dart-define=SONUS_SUPABASE_ANON_KEY=sb_publishable_ci_compile_only";
    }
    ∷ []

unfoldable pub flutter_web_steps : List ProfileStep
flutter_web_steps =
    record {
      name = text "flutter web release";
      image = flutter_image;
      subdirectory = text ".";
      script =
          text
            "flutter pub get && flutter analyze --no-fatal-infos && flutter test && flutter build web --release";
    }
    ∷ []

unfoldable pub flutter_linux_steps : List ProfileStep
flutter_linux_steps =
    record {
      name = text "flutter Linux release";
      image = flutter_image;
      subdirectory = text ".";
      script =
          text
            "flutter config --enable-linux-desktop && flutter pub get && flutter analyze --no-fatal-infos && flutter test && flutter build linux --release";
    }
    ∷ []

unfoldable pub flutter_linux_desktop_entrypoint_steps : List ProfileStep
flutter_linux_desktop_entrypoint_steps =
    record {
      name = text "Flutter Linux desktop entrypoint release";
      image = flutter_image;
      subdirectory = text ".";
      script =
          text
            "flutter config --enable-linux-desktop && flutter pub get && flutter analyze --no-fatal-infos && flutter test && flutter build linux --release -t lib/main_desktop.dart --dart-define=SONUS_BACKEND_BASE_URL=https://ci.invalid --dart-define=SONUS_SUPABASE_URL=https://ci.supabase.co --dart-define=SONUS_SUPABASE_ANON_KEY=sb_publishable_ci_compile_only";
    }
    ∷ []

unfoldable pub flutter_web_e2e_steps : List ProfileStep
flutter_web_e2e_steps =
    record {
      name = text "flutter web release";
      image = flutter_image;
      subdirectory = text ".";
      script =
          text
            "flutter pub get && flutter analyze --no-fatal-infos && flutter test && flutter build web --release";
    }
    ∷ record {
      name = text "Puppeteer and Playwright end-to-end tests";
      image = browser_image;
      subdirectory = text "e2e";
      script = text "npm ci && npm test";
    }
    ∷ []

unfoldable pub playwright_steps : List ProfileStep
playwright_steps =
    record {
      name = text "Playwright tests";
      image = browser_image;
      subdirectory = text ".";
      script = text "npm ci && npx playwright test";
    }
    ∷ []

unfoldable pub puppeteer_steps : List ProfileStep
puppeteer_steps =
    record {
      name = text "Puppeteer tests";
      image = browser_image;
      subdirectory = text ".";
      script = text "npm ci && npm run test:puppeteer";
    }
    ∷ []

unfoldable pub browser_e2e_steps : List ProfileStep
browser_e2e_steps =
    record {
      name = text "browser end-to-end tests";
      image = browser_image;
      subdirectory = text ".";
      script = text "npm ci && npm test";
    }
    ∷ []
