-- ===== src/Feedback/Prompts.antt =====
-- crates/jitgen-feedback/src/prompts.rs: the fence around untrusted data in a prompt.
use jitgen.Prelude.{[], if◌then◌else◌, map, take, ℕ, ◌++◌, ◌==◌, ◌||◌, ◌∷◌}
use jitgen.Prelude.Str.{Text, codes, is_ascii_alphanumeric, replace}

abbrev pub fence_open : Text
fence_open = codes "<<<JITGEN-UNTRUSTED-DATA"

abbrev pub fence_close : Text
fence_close = codes "JITGEN-END-UNTRUSTED-DATA>>>"

abbrev pub max_meta_len : ℕ
max_meta_len = 256

abbrev slug_char : ℕ → ℕ
slug_char c =
    if is_ascii_alphanumeric c || c == b'.' || c == b'_' || c == b'/' || c == b'-' then c else b'_'

abbrev or_dash : Text → Text
or_dash [] = codes "-"
or_dash (c ∷ s) = c ∷ s

unfoldable pub slug : Text → Text
unfolding is_ascii_alphanumeric
slug s = or_dash (take max_meta_len (map slug_char s))

unfoldable pub neutralize : Text → Text
unfolding replace
neutralize content =
    replace (replace content fence_open (codes "<untrusted-fence-open>")) fence_close
      (codes "<untrusted-fence-close>")

unfoldable pub fenced_pre_redacted : Text → Text → Text
unfolding slug neutralize
fenced_pre_redacted kind content =
    fence_open
    ++ codes " kind="
    ++ slug kind
    ++ codes "\n"
    ++ neutralize content
    ++ codes "\n"
    ++ fence_close
    ++ codes "\n\n"
