-- ===== src/Llm/Prefix.antt =====
-- crates/jitgen-llm/src/util.rs: the longest prefix within a byte cap, cut at a character boundary.
use jitgen.Prelude.{if◌then◌else◌, leb, ℕ}
use jitgen.Prelude.Str.{Text, boundary_before, len, slice_to}

-- `char_prefix`, with the copies in llmstep.rs and packager.rs (`char_boundary_prefix`).
unfoldable pub char_prefix : Text → ℕ → Text
unfolding boundary_before slice_to
char_prefix s max_bytes =
    if leb (len s) max_bytes then s else slice_to s (boundary_before s max_bytes)
