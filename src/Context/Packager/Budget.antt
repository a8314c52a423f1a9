-- ===== src/Context/Packager/Budget.antt =====
-- A context bundle keeps to its budget, whatever is added to it.
use jitgen.Context.Packager.{
  ContextBuilder, add, build, chars_per_token, masked, new_builder, push_item, remaining, truncate,
  windowed,
}
use jitgen.Core.Model.{ContextBudget, ContextItem, ContextItemKind, Redaction}
use jitgen.Prelude.{
  All, All-append, Bool, Bool-cases, List, Option, [], arith, false, if_cases, inl, inr, is_empty,
  leb, length, length-append, min, not, refl, subst, ℕ, ◌&&◌, ◌*◌, ◌++◌, ◌+◌, ◌-◌, ◌<◌, ◌==◌, ◌||◌,
  ◌∙◌, ◌∷◌, ◌≡◌, ◌≤◌,
}
use jitgen.Prelude.Bytes.{len-append, len-cut-le}
use jitgen.Prelude.Str.{Text, boundary_before, len, slice_to}
use jitgen.Report.Escape.{truncation_marker}

-- The bytes of the items together.
unfoldable pub total_bytes : List ContextItem → ℕ
total_bytes [] = 0
total_bytes (i ∷ is) = len i.content + total_bytes is

-- At most as many items as files, none larger than a file may be, and no more bytes than tokens allow.
pub record InBudget (budget : ContextBudget) (items : List ContextItem) : Type 0 where
  pub few : length items ≤ budget.max_files
  pub small : All (λ i. len i.content ≤ budget.max_bytes_per_file) items
  pub bounded : total_bytes items ≤ budget.max_tokens * chars_per_token

-- The builder's items are in budget, and it has counted their bytes.
pub record IsValid (b : ContextBuilder) : Type 0 where
  pub in_budget : InBudget b.budget b.items
  pub counted : b.used_chars ≡ total_bytes b.items

total_bytes-append :
    (is : List ContextItem) (i : ContextItem)
    → total_bytes (is ++ i ∷ []) ≡ total_bytes is + len i.content
unfolding total_bytes
total_bytes-append [] i = omega arith
total_bytes-append (j ∷ is) i = omega (arith, total_bytes-append is i)

-- A truncated text has at most `max_bytes` bytes.
len-truncate-le : (s : Text) (max_bytes : ℕ) → len (truncate s max_bytes) ≤ max_bytes
unfolding truncate
len-truncate-le s max_bytes = ground (
  arith,
  len-cut-le truncation_marker max_bytes,
  len-cut-le s (max_bytes - len truncation_marker),
  len-append (slice_to s (boundary_before s (max_bytes - len truncation_marker))) truncation_marker,
)

push_item-IsValid :
    (kind : ContextItemKind) (path : Option Text) (content body : Text) (b : ContextBuilder)
    → IsValid b
    → length b.items < b.budget.max_files
    → len body ≤ b.budget.max_bytes_per_file
    → len body ≤ b.budget.max_tokens * chars_per_token - b.used_chars
    → IsValid (push_item kind path content body b).1
unfolding push_item
push_item-IsValid kind path content body b v room small fits =
    elim (Bool-cases (is_empty body && not (is_empty content))) [
      | inl e ↦ rw e v
      | inr e ↦ rw e (
          let i : ContextItem = record { kind = kind; path = path; content = body } in
          record {
            in_budget = record {
              few = omega (arith, length-append {0} b.items (i ∷ []));
              small = All-append _ b.items (i ∷ []) v.in_budget.small (small, tt);
              bounded = omega (arith, total_bytes-append b.items i, v.in_budget.bounded, v.counted);
            };
            counted = omega (arith, total_bytes-append b.items i, v.counted);
          })
    ]

room_left : (n max : ℕ) → leb max n ≡ false → n < max
room_left n max h = ground arith

-- Adding an item to a valid builder gives a valid builder of the same budget, whatever the content and
-- whatever redaction makes of it.
pub add-IsValid :
    (redact : Text → Redaction) (kind : ContextItemKind) (path : Option Text) (content : Text)
    (b : ContextBuilder)
    → IsValid b
    → IsValid (add redact kind path content b).1
unfolding add remaining
add-IsValid redact kind path content b v =
    if_cases (λ (r : Bool × ContextBuilder). IsValid r.1) (leb b.budget.max_files (length b.items))
      _ _ (λ full. v)
      λ room.
        if_cases (λ (r : Bool × ContextBuilder). IsValid r.1) (remaining b == 0) _ _ (λ spent. v)
          λ left.
            let cut =
              len-truncate-le (windowed redact content)
                (min b.budget.max_bytes_per_file (remaining b)) in
            push_item-IsValid kind path content _
              (record b { redacted = b.redacted || masked redact content })
              (record { in_budget = v.in_budget; counted = v.counted })
              (room_left (length b.items) b.budget.max_files room) (omega (arith, cut))
              (omega (arith, cut))

-- Additions one after the other.
unfoldable pub add_all :
    (Text → Redaction)
    → List (ContextItemKind × Option Text × Text)
    → ContextBuilder
    → ContextBuilder
unfolding add
add_all redact [] b = b
add_all redact (c ∷ cs) b = add_all redact cs (add redact c.0 c.1 c.2 b).1

new_builder-IsValid : (budget : ContextBudget) → IsValid (new_builder budget)
unfolding new_builder total_bytes
new_builder-IsValid budget = record {
  in_budget = record { few = omega arith; small = tt; bounded = omega arith };
  counted = refl;
}

add_all-IsValid :
    (redact : Text → Redaction) (cs : List (ContextItemKind × Option Text × Text))
    (b : ContextBuilder)
    → IsValid b
    → IsValid (add_all redact cs b)
unfolding add_all
add_all-IsValid redact [] b v = v
add_all-IsValid redact (c ∷ cs) b v =
    add_all-IsValid redact cs (add redact c.0 c.1 c.2 b).1 (add-IsValid redact c.0 c.1 c.2 b v)

push_item-budget :
    (kind : ContextItemKind) (path : Option Text) (content body : Text) (b : ContextBuilder)
    → (push_item kind path content body b).1.budget ≡ b.budget
unfolding push_item
push_item-budget kind path content body b = ground arith

add-budget :
    (redact : Text → Redaction) (kind : ContextItemKind) (path : Option Text) (content : Text)
    (b : ContextBuilder)
    → (add redact kind path content b).1.budget ≡ b.budget
unfolding add
add-budget redact kind path content b =
    if_cases (λ (r : Bool × ContextBuilder). r.1.budget ≡ b.budget)
      (leb b.budget.max_files (length b.items)) _ _ (λ full. refl)
      λ room.
        if_cases (λ (r : Bool × ContextBuilder). r.1.budget ≡ b.budget) (remaining b == 0) _ _
          (λ spent. refl) λ left. push_item-budget kind path content _ _

add_all-budget :
    (redact : Text → Redaction) (cs : List (ContextItemKind × Option Text × Text))
    (b : ContextBuilder)
    → (add_all redact cs b).budget ≡ b.budget
unfolding add_all
add_all-budget redact [] b = refl
add_all-budget redact (c ∷ cs) b =
    add_all-budget redact cs (add redact c.0 c.1 c.2 b).1 ∙ add-budget redact c.0 c.1 c.2 b

-- A bundle that is built from any sequence of additions to a new builder, whatever redaction
-- makes of the contents, has at most `max_files` items, none of more than `max_bytes_per_file`
-- bytes, and together at most four bytes for each of `max_tokens` tokens.
pub build-InBudget :
    (redact : Text → Redaction) (budget : ContextBudget)
    (contents : List (ContextItemKind × Option Text × Text)) (target : Text)
    → InBudget budget (build (add_all redact contents (new_builder budget)) target).items
unfolding build new_builder
build-InBudget redact budget contents target =
    subst (λ x. InBudget x (add_all redact contents (new_builder budget)).items)
      (add_all-budget redact contents (new_builder budget))
      (add_all-IsValid redact contents (new_builder budget) (new_builder-IsValid budget)).in_budget
