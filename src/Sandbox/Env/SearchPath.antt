-- ===== src/Sandbox/Env/SearchPath.antt =====
-- The entries of the child's `PATH`.
use jitgen.Prelude.{All, All-map, List, [], any, false, inl, inr, refl, true, ◌==◌, ◌∷◌, ◌≡◌, ◌⊎◌}
use jitgen.Prelude.Split.{All-filter, split-join, split-pieces}
use jitgen.Prelude.Str.{Text, split}
use jitgen.Sandbox.Env.{fallback_path, filter_path, join_path, keeps_entry}

abbrev pub NoColon : Text → Type 0
NoColon e = any (λ c. c == b':') e ≡ false

-- An absolute entry that lies neither under the overlay nor under the state root.
abbrev pub SafeEntry : Text → Text → Text → Type 0
SafeEntry overlay_root state_root e = keeps_entry overlay_root state_root e ≡ true

join_path-entries :
    (P : Text → Type 0) (es : List Text)
    → All (λ e. NoColon e × P e) es
    → (join_path es ≡ fallback_path) ⊎ All P (split b':' (join_path es))
unfolding join_path
join_path-entries P [] h = inl refl
join_path-entries P (e ∷ es) h = inr (
    rw (split-join b':' e es (All-map (λ e. NoColon e × P e) (λ x q. q.0) (e ∷ es) h))
      (All-map (λ e. NoColon e × P e) (λ x q. q.1) (e ∷ es) h))

-- The filtered PATH is the fixed fallback, or all its entries between colons are absolute, not
-- empty and outside the overlay and the state root.
pub filter_path-SafeEntry :
    (value overlay_root state_root : Text)
    → (filter_path value overlay_root state_root ≡ fallback_path)
      ⊎ All
          (SafeEntry overlay_root state_root)
          (split b':' (filter_path value overlay_root state_root))
unfolding filter_path
filter_path-SafeEntry value overlay_root state_root =
    join_path-entries (SafeEntry overlay_root state_root) _ (
      All-filter NoColon (keeps_entry overlay_root state_root) (split b':' value)
        (split-pieces b':' value))
