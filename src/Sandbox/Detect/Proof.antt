-- ===== src/Sandbox/Detect/Proof.antt =====
-- What a backend that counts as available has shown.
use jitgen.Prelude.{
  Bool, List, Option, [], and_split, arith, false, not, refl, some, true, ℕ, ◌&&◌, ◌++◌, ◌∷◌, ◌≡◌,
}
use jitgen.Prelude.Str.{Text, codes, contains}
use jitgen.Sandbox.Backend.{Backend, stderr_shows_silent_degradation}
use jitgen.Sandbox.Detect.{
  BehavioralProbe, NetVerdict, behavioral_probe_confirms_isolation, denied, inconclusive, net_open,
  net_probe_script, net_probe_verdict, probe, probe_is_available, sentinel_net_denied,
  sentinel_net_ok, verdict_eq,
}
use jitgen.Sandbox.Os.{Os}
use jitgen.Sandbox.Run.{resolve_now}

-- The identical script reached the listener outside and did not reach it inside, in a run that
-- ended with success and without a degradation marker.
pub record Proven (b : Backend) (p : BehavioralProbe) : Type 0 where
  pub control_reached : p.control_verdict ≡ net_open
  pub isolated_denied : p.isolated_verdict ≡ denied
  pub succeeded_inside : p.outcome.success ≡ true
  pub unmarked : stderr_shows_silent_degradation b p.outcome.stderr ≡ false

verdict_eq→eq : (a b : NetVerdict) → verdict_eq a b ≡ true → a ≡ b
unfolding verdict_eq
verdict_eq→eq denied denied h = refl
verdict_eq→eq net_open net_open h = refl
verdict_eq→eq inconclusive inconclusive h = refl
verdict_eq→eq denied net_open h = ground arith
verdict_eq→eq denied inconclusive h = ground arith
verdict_eq→eq net_open denied h = ground arith
verdict_eq→eq net_open inconclusive h = ground arith
verdict_eq→eq inconclusive denied h = ground arith
verdict_eq→eq inconclusive net_open h = ground arith

pub confirms-Proven :
    (b : Backend) (p : BehavioralProbe)
    → behavioral_probe_confirms_isolation b p ≡ true
    → Proven b p
unfolding behavioral_probe_confirms_isolation probe_is_available
confirms-Proven b p h =
    let control = verdict_eq p.control_verdict net_open in
    let (front, isolated) =
      and_split (control && probe_is_available b p.outcome) (verdict_eq p.isolated_verdict denied)
        h in
    let (reached, clean) = and_split control (probe_is_available b p.outcome) front in
    let (ended_well, unmarked) =
      and_split p.outcome.success (not (stderr_shows_silent_degradation b p.outcome.stderr))
        clean in
    record {
      control_reached = verdict_eq→eq _ _ reached;
      isolated_denied = verdict_eq→eq _ _ isolated;
      succeeded_inside = ended_well;
      unmarked = not-true _ unmarked;
    }
  where
    not-true : (c : Bool) → not c ≡ true → c ≡ false
    not-true c e = ground arith

module _ {W : Type 0} (os : Os W) (lossy : List ℕ → Text) (listen : W → Option ℕ × W) where
  -- The two runs of one script that a probe is made of: by a plain shell, and by a shell behind the
  -- flags of the launcher, from a trusted directory.
  pub record Ran (p : BehavioralProbe) : Type 0 where
    pub port : ℕ
    pub script : Text
    pub launcher : Text
    pub absolute : Text
    pub flags : List Text
    pub listening : (w : W) × ((listen w).0 ≡ some port)
    pub connects : script ≡ net_probe_script port
    pub resolved : (w : W) × (resolve_now os launcher w ≡ some absolute)
    pub outside :
        (w : W) × (p.control_verdict
          ≡ net_probe_verdict
              (probe os lossy listen (codes "/bin/sh") (codes "-c" ∷ script ∷ []) false w).0.stdout)
    pub inside :
        (w : W) × (p.outcome
          ≡ (probe os lossy listen absolute
              (flags ++ codes "/bin/sh" ∷ codes "-c" ∷ script ∷ [])
              false
              w).0)
    pub judged : p.isolated_verdict ≡ net_probe_verdict p.outcome.stdout

  -- The script outside printed that it reached the listener; inside it printed that it did not, and not
  -- that it did, and ended with success and without a degradation marker.
  pub record Isolated (b : Backend) (p : BehavioralProbe) : Type 0 where
    pub ran : Ran p
    pub reached_outside :
        contains
          (probe os lossy listen
            (codes "/bin/sh")
            (codes "-c" ∷ ran.script ∷ [])
            false
            ran.outside.0).0.stdout
          sentinel_net_ok
        ≡ true
    pub denied_inside : contains p.outcome.stdout sentinel_net_denied ≡ true
    pub not_reached_inside : contains p.outcome.stdout sentinel_net_ok ≡ false
    pub succeeded_inside : p.outcome.success ≡ true
    pub unmarked : stderr_shows_silent_degradation b p.outcome.stderr ≡ false
