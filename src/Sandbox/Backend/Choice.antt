-- ===== src/Sandbox/Backend/Choice.antt =====
-- What the selection of a backend guarantees.
use jitgen.Prelude.{
  All, All-append_right, Bool, List, Option, [], ap, arith, false, if_cases, inl, inr, none, not,
  refl, some, some_inj, subst, true, ◌++◌, ◌∷◌, ◌≡◌, ◌⊎◌,
}
use jitgen.Prelude.Result.{Result, err, ok, ok_inj}
use jitgen.Sandbox.Backend.{
  Backend, auto_fallback, auto_preference, bwrap, constrained_local, container, docker, explicit,
  firejail, first_available, holds_backend, netns_helper, os_sandbox, podman, sandbox_exec, select,
  select_explicit, select_for, tier,
}
use jitgen.Sandbox.Policy.{
  ExecPolicy, SandboxBackend, SandboxError, auto_backend, use_bwrap, use_docker, use_firejail,
  use_local, use_netns_helper, use_podman, use_sandbox_exec,
}

-- The kernel or a container runtime confines the file system and the network.
abbrev pub Isolates : Backend → Type 0
Isolates b = (tier b ≡ os_sandbox) ⊎ (tier b ≡ container)

-- A backend that is there, and that isolates unless the operator accepted less.
abbrev pub Permitted : List Backend → Bool → Backend → Type 0
Permitted available allow b =
    ((holds_backend available b ≡ true) ⊎ (b ≡ constrained_local)) × (Isolates b ⊎ (allow ≡ true))

-- The first of a list that is available.
abbrev pub FirstOf : List Backend → List Backend → Backend → Type 0
FirstOf prefs available b =
    (front : List Backend) × (back : List Backend) × (prefs ≡ front ++ b ∷ back)
    × All (λ c. holds_backend available c ≡ false) front
    × (holds_backend available b ≡ true)

FirstOf-later :
    (c : Backend) (cs available : List Backend) (b : Backend)
    → holds_backend available c ≡ false
    → FirstOf cs available b
    → FirstOf (c ∷ cs) available b
FirstOf-later c cs available b e (front, back, parts, none_held, held) =
    (c ∷ front, back, ap (λ l. c ∷ l) parts, (e, none_held), held)

abbrev FoundIn : List Backend → List Backend → Option Backend → Type 0
FoundIn prefs available none = All (λ c. holds_backend available c ≡ false) prefs
FoundIn prefs available (some b) = FirstOf prefs available b

FoundIn-later :
    (c : Backend) (cs available : List Backend) (o : Option Backend)
    → holds_backend available c ≡ false
    → FoundIn cs available o
    → FoundIn (c ∷ cs) available o
FoundIn-later c cs available none e f = (e, f)
FoundIn-later c cs available (some b) e f = FirstOf-later c cs available b e f

first_available-FoundIn :
    (prefs available : List Backend) → FoundIn prefs available (first_available prefs available)
unfolding first_available
first_available-FoundIn [] available = tt
first_available-FoundIn (c ∷ cs) available =
    if_cases (FoundIn (c ∷ cs) available) (holds_backend available c) _ _
      (λ e. ([], cs, refl, tt, e))
      λ e. FoundIn-later c cs available _ e (first_available-FoundIn cs available)

isolates : Backend → Bool
isolates bwrap = true
isolates firejail = true
isolates sandbox_exec = true
isolates docker = true
isolates podman = true
isolates other = false

isolates-Isolates : (b : Backend) → isolates b ≡ true → Isolates b
unfolding isolates tier
isolates-Isolates bwrap h = inl refl
isolates-Isolates firejail h = inl refl
isolates-Isolates sandbox_exec h = inl refl
isolates-Isolates docker h = inr refl
isolates-Isolates podman h = inr refl
isolates-Isolates netns_helper h = ground arith
isolates-Isolates constrained_local h = ground arith

FirstOf-Isolates :
    (available : List Backend) (b : Backend)
    → FirstOf auto_preference available b
    → (holds_backend available b ≡ true) × Isolates b
unfolding auto_preference isolates
FirstOf-Isolates available b (front, back, parts, none_held, held) =
    let every : All (λ c. isolates c ≡ true) auto_preference =
      (refl, (refl, (refl, (refl, (refl, tt))))) in
    let tail =
      All-append_right (λ c. isolates c ≡ true) front (b ∷ back)
        (subst (All (λ c. isolates c ≡ true)) parts every) in
    (held, isolates-Isolates b tail.0)

-- Of a selection: a backend that is permitted, or an error.
abbrev Selects : List Backend → Bool → Result SandboxError Backend → Type 0
Selects available allow (ok b) = Permitted available allow b
Selects available allow (err e) = Unit

module _ (available : List Backend) (allow : Bool) where
  explicit-Selects :
      (o : Option Backend)
      → ((c : Backend) → o ≡ some c → isolates c ≡ true)
      → Selects available allow (select_explicit available o)
  unfolding select_explicit
  explicit-Selects none k = tt
  explicit-Selects (some c) k =
      if_cases (Selects available allow) (holds_backend available c) _ _
        (λ e. (inl e, inl (isolates-Isolates c (k c refl)))) λ e. tt

  fallback-Selects : Selects available allow (auto_fallback available allow)
  unfolding auto_fallback
  fallback-Selects =
      if_cases (Selects available allow) allow _ _
        (λ a.
          if_cases (Selects available allow) (holds_backend available netns_helper) _ _
            (λ e. (inl e, inr a)) λ e. (inr refl, inr a))
        λ a. tt

  auto-Selects :
      (o : Option Backend)
      → FoundIn auto_preference available o
      → Selects available allow (elim o [ some b ↦ ok b | none ↦ auto_fallback available allow ])
  auto-Selects none f = fallback-Selects
  auto-Selects (some b) f = let (held, i) = FirstOf-Isolates available b f in (inl held, inl i)

  explicit-isolates : (s : SandboxBackend) (c : Backend) → explicit s ≡ some c → isolates c ≡ true
  unfolding explicit isolates
  explicit-isolates use_bwrap c h = subst (λ z. isolates z ≡ true) (some_inj bwrap c h) refl
  explicit-isolates use_firejail c h = subst (λ z. isolates z ≡ true) (some_inj firejail c h) refl
  explicit-isolates use_sandbox_exec c h =
      subst (λ z. isolates z ≡ true) (some_inj sandbox_exec c h) refl
  explicit-isolates use_docker c h = subst (λ z. isolates z ≡ true) (some_inj docker c h) refl
  explicit-isolates use_podman c h = subst (λ z. isolates z ≡ true) (some_inj podman c h) refl
  explicit-isolates auto_backend c h = ground arith
  explicit-isolates use_local c h = ground arith
  explicit-isolates use_netns_helper c h = ground arith

  select_for-Selects : (s : SandboxBackend) → Selects available allow (select_for available allow s)
  unfolding select_for
  select_for-Selects auto_backend =
      auto-Selects _ (first_available-FoundIn auto_preference available)
  select_for-Selects use_local =
      if_cases (Selects available allow) allow _ _ (λ a. (inr refl, inr a)) λ a. tt
  select_for-Selects use_netns_helper =
      if_cases (Selects available allow) (not allow) _ _ (λ a. tt)
        λ a.
          if_cases (Selects available allow) (holds_backend available netns_helper) _ _
            (λ e. (inl e, inr (ground arith))) λ e. tt
  select_for-Selects other = explicit-Selects (explicit other) (explicit-isolates other)

abbrev Unconfined : Result SandboxError Backend → Type 0
Unconfined (ok b) = ¬ Isolates b
Unconfined (err e) = Unit

fallback-Unconfined :
    (available : List Backend) (allow : Bool) → Unconfined (auto_fallback available allow)
unfolding auto_fallback tier
fallback-Unconfined available allow =
    if_cases Unconfined allow _ _
      (λ a.
        if_cases Unconfined (holds_backend available netns_helper) _ _ (λ e. λ i. ground arith)
          λ e. λ i. ground arith)
      λ a. tt

auto_first :
    (available : List Backend) (allow : Bool) (o : Option Backend) (b : Backend)
    → FoundIn auto_preference available o
    → Isolates b
    → elim o [ some c ↦ ok c | none ↦ auto_fallback available allow ] ≡ ok b
    → FirstOf auto_preference available b
unfolding auto_fallback tier
auto_first available allow none b f i h =
    absurd ((subst Unconfined h (fallback-Unconfined available allow)) i)
auto_first available allow (some c) b f i h =
    subst (FirstOf auto_preference available) (ok_inj c b h) f

select-Permitted :
    (available : List Backend) (policy : ExecPolicy) (b : Backend)
    → select available policy ≡ ok b
    → Permitted available policy.allow_unsafe_local b
unfolding select
select-Permitted available policy b h =
    subst (Selects available policy.allow_unsafe_local) h
      (select_for-Selects available policy.allow_unsafe_local policy.backend)

select-FirstOf :
    (available : List Backend) (policy : ExecPolicy) (b : Backend)
    → policy.backend ≡ auto_backend
    → select available policy ≡ ok b
    → Isolates b
    → FirstOf auto_preference available b
unfolding select select_for
select-FirstOf available policy b e h i =
    auto_first available policy.allow_unsafe_local _ b
      (first_available-FoundIn auto_preference available) i (rw e at h)

-- What `select` promises of a backend that it returns.
pub record Chosen (available : List Backend) (policy : ExecPolicy) (b : Backend) : Type 0 where
  pub permitted : Permitted available policy.allow_unsafe_local b
  pub strongest : policy.backend ≡ auto_backend → Isolates b → FirstOf auto_preference available b

-- A selected backend was detected as available or is the constrained-local tier, and unless it is
-- an OS sandbox or a container runtime the operator has accepted unsafe local execution. If the
-- request is `auto` and the backend isolates, it is available and no backend before it in the
-- order bwrap, firejail, sandbox-exec, docker, podman is.
pub select-Chosen :
    (available : List Backend) (policy : ExecPolicy) (b : Backend)
    → select available policy ≡ ok b
    → Chosen available policy b
select-Chosen available policy b h = record {
  permitted = select-Permitted available policy b h;
  strongest = λ e i. select-FirstOf available policy b e h i;
}
