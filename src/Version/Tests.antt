-- ===== src/Version/Tests.antt =====
-- Tests of the version detection of src/cc_version.rs.
use mur_model_gateway.Common.{
  ◌≡◌, refl, ℕ, true, List, [], ◌∷◌, Option, none, some, String, if◌then◌else◌,
}
use mur_model_gateway.Common.Text.{str_eq}
use mur_model_gateway.Version.{
  Output, Call, static, detect_from_claude, new, answers, parse_version,
}
use mur_model_gateway.Version.Fresh.{AllFresh, answers-AllFresh}
use mur_model_gateway.Version.Lookup.{Metadata, which_claude}

parses : parse_version "2.1.126 (Claude Code)\n" ≡ some "2.1.126"
unfolding parse_version
parses = refl

rejects_letters : parse_version "v2.1.0 build" ≡ none
unfolding parse_version
rejects_letters = refl

rejects_blank : parse_version "\n" ≡ none
unfolding parse_version
rejects_blank = refl

-- A binary that prints a version.
abbrev prints : String → String → Option Output
prints version bin = some record { success = true; stdout = some version }

abbrev call : ℕ → String → Call
call now version = record {
  now = now;
  bin = some "/usr/bin/claude";
  run = prints version;
  stored = now;
}

-- The second call is served, the third one comes 300 seconds after the first, and the last one does not
-- find the binary.
abbrev calls : List Call
calls =
    call 0 "2.1.0"
    ∷ call 299999999999 "2.1.1"
    ∷ call 300000000000 "2.1.2"
    ∷ (record { now = 900000000000; bin = none; run = prints ""; stored = 900000000001 })
    ∷ []

served : answers (new detect_from_claude) calls ≡ "2.1.0" ∷ "2.1.0" ∷ "2.1.2" ∷ "2.1.126" ∷ []
unfolding answers
served = refl

static_stays : answers (new (static "9.9.9")) calls ≡ "9.9.9" ∷ "9.9.9" ∷ "9.9.9" ∷ "9.9.9" ∷ []
unfolding answers
static_stays = refl

answers-AllFresh_example : AllFresh [] calls (answers (new detect_from_claude) calls)
answers-AllFresh_example = answers-AllFresh calls

-- A binary below the home directory, one that may not be executed on `PATH`.
unfoldable files : String → Option Metadata
unfolding str_eq
files p =
    if str_eq p "/bin/claude"
    then some record { is_file = true; mode = 420 }
    else if str_eq p "/home/u/.local/bin/claude"
    then some record { is_file = true; mode = 493 }
    else none

finds :
    which_claude files (some "/usr/bin:/bin") (some "/home/u") ≡ some "/home/u/.local/bin/claude"
unfolding which_claude files
finds = refl
