-- ===== src/Profiles.antt =====
-- src/profiles.rs: the fixed, operator-reviewed CI profiles and their lookup by name.
pub mod Steps
pub mod Laws
use gha_indie_worker_rs.Prelude.{List, [], ◌∷◌, map, Option, find}
use gha_indie_worker_rs.Text.{Text, text, text_eq}
use gha_indie_worker_rs.Profiles.Steps.{
  ProfileStep, rust_verify_steps, node_verify_steps, python_verify_steps, flutter_verify_steps,
  flutter_android_steps, flutter_web_steps, flutter_linux_steps,
  flutter_linux_desktop_entrypoint_steps, flutter_web_e2e_steps, playwright_steps, puppeteer_steps,
  browser_e2e_steps,
}

pub record ProfileSpec : Type 0 where
  pub name : Text
  pub platform : Text
  pub description : Text
  pub steps : List ProfileStep
  pub artifact_paths : List Text

unfoldable pub specs : List ProfileSpec
unfolding rust_verify_steps node_verify_steps python_verify_steps flutter_verify_steps
    flutter_android_steps flutter_web_steps flutter_linux_steps
    flutter_linux_desktop_entrypoint_steps flutter_web_e2e_steps playwright_steps puppeteer_steps
    browser_e2e_steps
specs =
    record {
      name = text "rust-verify";
      platform = text "linux";
      description = text "Rust formatting, Clippy with warnings denied, and all-feature tests";
      steps = rust_verify_steps;
      artifact_paths = [];
    }
    ∷ record {
      name = text "node-verify";
      platform = text "linux";
      description = text "Lockfile-strict Node dependency installation and repository tests";
      steps = node_verify_steps;
      artifact_paths = [];
    }
    ∷ record {
      name = text "python-verify";
      platform = text "linux";
      description = text "Python bytecode compilation, declared dependency install, and pytest";
      steps = python_verify_steps;
      artifact_paths = [];
    }
    ∷ record {
      name = text "flutter-verify";
      platform = text "linux";
      description = text "Flutter dependency resolution, analysis, and unit tests";
      steps = flutter_verify_steps;
      artifact_paths = [];
    }
    ∷ record {
      name = text "flutter-android-debug";
      platform = text "linux";
      description = text "Flutter verification plus an Android debug APK";
      steps = flutter_android_steps;
      artifact_paths = text "build/app/outputs/flutter-apk/app-debug.apk" ∷ [];
    }
    ∷ record {
      name = text "flutter-web-release";
      platform = text "linux";
      description = text "Flutter verification plus a release web bundle";
      steps = flutter_web_steps;
      artifact_paths = text "build/web" ∷ [];
    }
    ∷ record {
      name = text "flutter-linux-release";
      platform = text "linux";
      description = text "Flutter verification plus a native Linux desktop bundle";
      steps = flutter_linux_steps;
      artifact_paths = text "build/linux" ∷ [];
    }
    ∷ record {
      name = text "flutter-linux-desktop-entrypoint";
      platform = text "linux";
      description = text "Flutter native Linux bundle using lib/main_desktop.dart";
      steps = flutter_linux_desktop_entrypoint_steps;
      artifact_paths = text "build/linux" ∷ [];
    }
    ∷ record {
      name = text "flutter-web-e2e";
      platform = text "linux";
      description =
          text "Flutter web release followed by the repository's Puppeteer and Playwright suite";
      steps = flutter_web_e2e_steps;
      artifact_paths = text "build/web" ∷ text "e2e/artifacts" ∷ [];
    }
    ∷ record {
      name = text "playwright";
      platform = text "linux";
      description = text "Node project Playwright suite";
      steps = playwright_steps;
      artifact_paths = [];
    }
    ∷ record {
      name = text "puppeteer";
      platform = text "linux";
      description = text "Node project test:puppeteer script";
      steps = puppeteer_steps;
      artifact_paths = [];
    }
    ∷ record {
      name = text "browser-e2e";
      platform = text "linux";
      description = text "Node project's default test suite in a browser-ready image";
      steps = browser_e2e_steps;
      artifact_paths = [];
    }
    ∷ []

-- `profiles::find`
unfoldable pub find_profile : Text → Option ProfileSpec
unfolding specs text_eq
find_profile name = find (λ profile. text_eq profile.name name) specs

-- `profiles::names`
unfoldable pub names : List Text
unfolding specs
names = map (λ profile. profile.name) specs
