-- ===== src/Sandbox/Plans/Sound.antt =====
-- What every plan guarantees.
pub mod Whole
use jitgen.Prelude.{
  Any, List, Option, [], any, ap, arith, false, inl, inr, is_empty, none, not, refl, some, subst,
  sym, true, ◌++◌, ◌∙◌, ◌==◌, ◌∷◌, ◌≡◌,
}
use jitgen.Prelude.Result.{Result, bind_ok, guard_ok, ok, ok_inj}
use jitgen.Prelude.Str.{Text, codes}
use jitgen.Prelude.TextMap.{TextMap}
use jitgen.Sandbox.Backend.{
  Backend, bwrap, constrained_local, docker, firejail, netns_helper, podman, sandbox_exec,
}
use jitgen.Sandbox.Command.{PlanInput, SandboxPlan, is_digest_pinned, is_uid_gid}
use jitgen.Sandbox.Command.Checks.{NonRoot, Pinned, is_digest_pinned-Pinned, is_uid_gid-NonRoot}
use jitgen.Sandbox.Plans.{
  bwrap_before, container_args, container_env, container_flags, container_limits, container_name_of,
  container_plan, container_program, env_args, firejail_before, group_plan, ok_or, plan_bwrap,
  plan_container, plan_firejail, plan_for, plan_local, plan_netns_helper, plan_sandbox_exec,
  split_first,
}
use jitgen.Sandbox.Policy.{SandboxError}
use jitgen.Sandbox.Sbpl.{render_profile}

-- The command stands last, behind launcher flags that hold `flag`.
abbrev pub RunsBehind : Text → List Text → List Text → Type 0
RunsBehind flag args inner =
    (flags : List Text) × (args ≡ flags ++ inner) × Any (λ a. a ≡ flag) flags

-- A container: its image is pinned, its user is not root, its network is cut.
pub record Contained (input : PlanInput) (args inner : List Text) : Type 0 where
  pub image : Text
  pub user : Text
  pub entrypoint : Text
  pub rest : List Text
  pub before : List Text
  pub between : List Text
  pub image_given : input.policy.docker_image ≡ some image
  pub image_pinned : Pinned image
  pub user_given : input.run_as ≡ some user
  pub user_not_root : NonRoot user
  pub command : inner ≡ entrypoint ∷ rest
  pub layout :
      args
      ≡ before
        ++ codes "--user" ∷ user ∷ (between ++ codes "--entrypoint" ∷ entrypoint ∷ image ∷ rest)
  pub environment : between ≡ env_args (container_env input)
  pub network_cut : Any (λ a. a ≡ codes "--network=none") before
  pub overlay_mountable : any (λ c. c == b',') input.overlay_root ≡ false

-- How the inner command is confined, by the backend.
abbrev pub Launched : Backend → PlanInput → List Text → (program : Text) → List Text → Type 0
Launched sandbox_exec input inner program args =
    (profile : Text) × (render_profile input.overlay_root input.synthetic_tmp ≡ ok profile)
    × (args ≡ codes "-p" ∷ profile ∷ inner)
    × (program ≡ codes "sandbox-exec")
Launched bwrap input inner program args =
    (program ≡ codes "bwrap") × RunsBehind (codes "--unshare-all") args inner
Launched firejail input inner program args =
    (program ≡ codes "firejail") × RunsBehind (codes "--net=none") args inner
Launched docker input inner program args = (program ≡ codes "docker") × Contained input args inner
Launched podman input inner program args = (program ≡ codes "podman") × Contained input args inner
Launched netns_helper input inner program args =
    (program ≡ codes "unshare") × RunsBehind (codes "--net") args inner
Launched constrained_local input inner program args = program ∷ args ≡ inner

ok_or-some :
    {A : Type 0} (e : SandboxError) (o : Option A) (a : A)
    → Path (Result SandboxError A) (ok_or e o) (ok a)
    → o ≡ some a
unfolding ok_or
ok_or-some e none a h = ground arith
ok_or-some e (some b) a h = ap some (ok_inj b a h)

split_first-ok : (l : List Text) (p : Text × List Text) → split_first l ≡ ok p → l ≡ p.0 ∷ p.1
unfolding split_first
split_first-ok [] p h = ground arith
split_first-ok (a ∷ rest) p h = ap (λ (q : Text × List Text). q.0 ∷ q.1) (ok_inj (a, rest) p h)

container_plan-Contained :
    (input : PlanInput) (cwd image user : Text) (inner : List Text) (p : Text × List Text)
    → input.policy.docker_image ≡ some image
    → is_digest_pinned image ≡ true
    → input.run_as ≡ some user
    → is_uid_gid user ≡ true
    → not (any (λ c. c == b',') input.overlay_root) ≡ true
    → inner ≡ p.0 ∷ p.1
    → Contained input (container_plan input cwd image user p).args inner
unfolding container_plan container_args container_limits
container_plan-Contained input cwd image user inner (entrypoint, rest) i pinned u nonroot comma e =
    record {
      image = image;
      user = user;
      entrypoint = entrypoint;
      rest = rest;
      before =
          container_flags
          ++ codes "--name"
            ∷ container_name_of input
            ∷ codes "--network=none"
            ∷ codes "--read-only"
            ∷ codes "--tmpfs"
            ∷ codes "/tmp:rw,nosuid,nodev,size=64m"
            ∷ codes "--mount"
            ∷ (codes "type=bind,src=" ++ input.overlay_root ++ codes ",dst=" ++ input.overlay_root)
            ∷ codes "--workdir"
            ∷ cwd
            ∷ container_limits input.policy.limits;
      between = env_args (container_env input);
      image_given = i;
      image_pinned = is_digest_pinned-Pinned image pinned;
      user_given = u;
      user_not_root = is_uid_gid-NonRoot user nonroot;
      command = e;
      layout = refl;
      environment = refl;
      network_cut = inr (inr (inr (inr (inr (inl refl)))));
      overlay_mountable = ground arith;
    }

-- What a container plan was made of.
record ContainerParts (input : PlanInput) (cwd : Text) (inner : List Text) (plan : SandboxPlan)
    : Type 0 where
  image : Text
  user : Text
  parts : Text × List Text
  contained : Contained input (container_plan input cwd image user parts).args inner
  same : container_plan input cwd image user parts ≡ plan

plan_container-parts :
    (input : PlanInput) (cwd : Text) (inner : List Text) (plan : SandboxPlan)
    → plan_container input cwd inner ≡ ok plan
    → ContainerParts input cwd inner plan
unfolding plan_container
plan_container-parts input cwd inner plan h =
    let (image, e1, h1) = bind_ok _ _ plan h in
    let (u1, e2, h2) = bind_ok _ _ plan h1 in
    let (user, e3, h3) = bind_ok _ _ plan h2 in
    let (u2, e4, h4) = bind_ok _ _ plan h3 in
    let (u3, e5, h5) = bind_ok _ _ plan h4 in
    let (p, e6, h6) = bind_ok _ _ plan h5 in
    record {
      image = image;
      user = user;
      parts = p;
      contained =
          container_plan-Contained input cwd image user inner p (ok_or-some _ _ image e1)
            (guard_ok _ _ u1 e2) (ok_or-some _ _ user e3) (guard_ok _ _ u2 e4) (guard_ok _ _ u3 e5)
            (split_first-ok inner p e6);
      same = ok_inj _ plan h6;
    }

plan_container-Contained :
    (input : PlanInput) (cwd : Text) (inner : List Text) (plan : SandboxPlan)
    → plan_container input cwd inner ≡ ok plan
    → Contained input plan.args inner
plan_container-Contained input cwd inner plan h =
    let made = plan_container-parts input cwd inner plan h in
    subst (λ (q : SandboxPlan). Contained input q.args inner) made.same made.contained

plan_container-program :
    (input : PlanInput) (cwd : Text) (inner : List Text) (plan : SandboxPlan)
    → plan_container input cwd inner ≡ ok plan
    → plan.program ≡ container_program input.backend
unfolding container_plan
plan_container-program input cwd inner plan h =
    let made = plan_container-parts input cwd inner plan h in
    ap (λ (q : SandboxPlan). q.program) (sym made.same)

-- The fields that every plan takes from its input.
abbrev pub Kept : PlanInput → Text → TextMap → SandboxPlan → Type 0
Kept input cwd env plan = (plan.cwd ≡ cwd) × (plan.backend ≡ input.backend) × (plan.env ≡ env)

-- The environment of the launched program: for a container the one inside it.
abbrev pub env_for : Backend → PlanInput → TextMap
env_for docker input = container_env input
env_for podman input = container_env input
env_for other input = input.env

container_plan-Kept :
    (input : PlanInput) (cwd image user : Text) (p : Text × List Text)
    → Kept input cwd (container_env input) (container_plan input cwd image user p)
unfolding container_plan
container_plan-Kept input cwd image user (entrypoint, rest) = (refl, refl, refl)

plan_container-Kept :
    (input : PlanInput) (cwd : Text) (inner : List Text) (plan : SandboxPlan)
    → plan_container input cwd inner ≡ ok plan
    → Kept input cwd (container_env input) plan
plan_container-Kept input cwd inner plan h =
    let made = plan_container-parts input cwd inner plan h in
    subst (Kept input cwd (container_env input)) made.same
      (container_plan-Kept input cwd made.image made.user made.parts)

plan_sandbox_exec_lem :
    (input : PlanInput) (cwd : Text) (inner : List Text) (plan : SandboxPlan)
    → plan_sandbox_exec input cwd inner ≡ ok plan
    → Launched sandbox_exec input inner plan.program plan.args × Kept input cwd input.env plan
unfolding plan_sandbox_exec group_plan
plan_sandbox_exec_lem input cwd inner plan h =
    let made : Text → SandboxPlan =
      λ profile. group_plan input cwd (codes "sandbox-exec") (codes "-p" ∷ profile ∷ inner) in
    let (profile, e, k) =
      bind_ok (render_profile input.overlay_root input.synthetic_tmp) (λ profile. ok (made profile))
        plan h in
    let same = ok_inj (made profile) plan k in
    (
      (
        profile,
        e,
        ap (λ (q : SandboxPlan). q.args) (sym same),
        ap (λ (q : SandboxPlan). q.program) (sym same),
      ),
      subst (Kept input cwd input.env) same (refl, refl, refl),
    )

plan_local-Kept :
    (input : PlanInput) (cwd : Text) (inner : List Text)
    → Kept input cwd input.env (plan_local input cwd inner)
unfolding plan_local group_plan
plan_local-Kept input cwd [] = (refl, refl, refl)
plan_local-Kept input cwd (a ∷ rest) = (refl, refl, refl)

pub plan_for-Kept :
    (b : Backend) (input : PlanInput) (cwd : Text) (inner : List Text) (plan : SandboxPlan)
    → plan_for b input cwd inner ≡ ok plan
    → Kept input cwd (env_for b input) plan
unfolding plan_for plan_bwrap plan_firejail plan_netns_helper group_plan
plan_for-Kept sandbox_exec input cwd inner plan h = (plan_sandbox_exec_lem input cwd inner plan h).1
plan_for-Kept bwrap input cwd inner plan h =
    subst (Kept input cwd input.env) (ok_inj _ plan h) (refl, refl, refl)
plan_for-Kept firejail input cwd inner plan h =
    subst (Kept input cwd input.env) (ok_inj _ plan h) (refl, refl, refl)
plan_for-Kept docker input cwd inner plan h = plan_container-Kept input cwd inner plan h
plan_for-Kept podman input cwd inner plan h = plan_container-Kept input cwd inner plan h
plan_for-Kept netns_helper input cwd inner plan h =
    subst (Kept input cwd input.env) (ok_inj _ plan h) (refl, refl, refl)
plan_for-Kept constrained_local input cwd inner plan h =
    subst (Kept input cwd input.env) (ok_inj _ plan h) (plan_local-Kept input cwd inner)

bwrap-RunsBehind :
    (input : PlanInput) (cwd : Text) (inner : List Text)
    → RunsBehind (codes "--unshare-all") (bwrap_before input cwd ++ inner) inner
unfolding bwrap_before
bwrap-RunsBehind input cwd inner = (bwrap_before input cwd, refl, inl refl)

firejail-RunsBehind :
    (input : PlanInput) (inner : List Text)
    → RunsBehind (codes "--net=none") (firejail_before input ++ inner) inner
unfolding firejail_before
firejail-RunsBehind input inner = (firejail_before input, refl, inl refl)

local-Launched :
    (input : PlanInput) (cwd : Text) (inner : List Text)
    → is_empty inner ≡ false
    → Launched constrained_local input inner
        (plan_local input cwd inner).program
        (plan_local input cwd inner).args
unfolding plan_local group_plan
local-Launched input cwd [] f = ground arith
local-Launched input cwd (a ∷ rest) f = refl

pub plan_for-Launched :
    (b : Backend) (input : PlanInput) (cwd : Text) (inner : List Text) (plan : SandboxPlan)
    → input.backend ≡ b
    → is_empty inner ≡ false
    → plan_for b input cwd inner ≡ ok plan
    → Launched b input inner plan.program plan.args
unfolding plan_for plan_bwrap plan_firejail plan_netns_helper group_plan
plan_for-Launched sandbox_exec input cwd inner plan b f h =
    (plan_sandbox_exec_lem input cwd inner plan h).0
plan_for-Launched bwrap input cwd inner plan b f h =
    subst (λ (q : SandboxPlan). Launched bwrap input inner q.program q.args) (ok_inj _ plan h)
      (refl, bwrap-RunsBehind input cwd inner)
plan_for-Launched firejail input cwd inner plan b f h =
    subst (λ (q : SandboxPlan). Launched firejail input inner q.program q.args) (ok_inj _ plan h)
      (refl, firejail-RunsBehind input inner)
plan_for-Launched docker input cwd inner plan b f h = (
  plan_container-program input cwd inner plan h ∙ ap container_program b,
  plan_container-Contained input cwd inner plan h,
)
plan_for-Launched podman input cwd inner plan b f h = (
  plan_container-program input cwd inner plan h ∙ ap container_program b,
  plan_container-Contained input cwd inner plan h,
)
plan_for-Launched netns_helper input cwd inner plan b f h =
    subst (λ (q : SandboxPlan). Launched netns_helper input inner q.program q.args)
      (ok_inj _ plan h)
      (
        refl,
        (
          codes "--user" ∷ codes "--map-root-user" ∷ codes "--net" ∷ codes "--" ∷ [],
          refl,
          inr (inr (inl refl)),
        ),
      )
plan_for-Launched constrained_local input cwd inner plan b f h =
    subst (λ (q : SandboxPlan). Launched constrained_local input inner q.program q.args)
      (ok_inj _ plan h) (local-Launched input cwd inner f)
