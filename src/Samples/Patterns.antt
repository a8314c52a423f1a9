-- ===== src/Samples/Patterns.antt =====
-- Patterns, diffs and targets, and what follows for them.
use jitgen.Adapters.Glob.{
  accept_first, accepts_char, glob_match, is_globstar, is_star_char, rounds, segment_match,
  star_first,
}
use jitgen.Adapters.Glob.Order.{Ends, Wanted, glob_match-Wanted}
use jitgen.Adapters.Glob.Wanted.{Matches}
use jitgen.Prelude.{List, Option, any, false, none, refl, some, true, ◌↔◌, ◌≡◌}
use jitgen.Prelude.Str.{Text, codes, text_eq}
use jitgen.Sandbox.User.{Output, current_uid_gid}

glob_match-Wanted_example :
    ((glob_match (codes "src/**/*.rs") (codes "src/a/b.rs") ≡ true)
      ↔ Wanted (codes "src/**/*.rs") (codes "src/a/b.rs"))
    × ((pat seg : Text)
        → any is_star_char seg ≡ false
        → (segment_match pat seg ≡ true) ↔ Matches is_star_char accepts_char pat seg)
    × ((pat path : List Text)
        → Ends (star_first is_globstar segment_match (rounds pat path) pat path none))
    × ((pat seg : Text)
        → any is_star_char seg ≡ false
        → Ends (accept_first is_star_char accepts_char (rounds pat seg) pat seg none))
glob_match-Wanted_example = glob_match-Wanted (codes "src/**/*.rs") (codes "src/a/b.rs")

glob_match_test : glob_match (codes "src/**/*.rs") (codes "src/a/b.rs") ≡ true
unfolding glob_match text_eq
glob_match_test = refl

abbrev original : Text
original = codes "a\nb\nc\n"

abbrev diff : Text
diff = codes "--- x\n@@ -2 +2 @@\n-b\n+d\n"

abbrev ids : Text → Text → Option Output
ids id_bin flag = some (record { success = true; stdout = some (codes "1000\n") })

current_uid_gid_test : current_uid_gid (λ p. true) ids ≡ some (codes "1000:1000")
unfolding current_uid_gid
current_uid_gid_test = refl
