-- ===== src/Sandbox/User.antt =====
-- crates/jitgen-sandbox/src/user.rs: the user and group that a container runs as, on Unix.
-- The files that can be executed and the outputs of id(1) are parameters.
use jitgen.Prelude.{
  Bool, Option, [], all, and_split, any, arith, false, if_cases, if◌then◌else◌, is_empty, none, not,
  refl, some, some_inj, subst, true, ℕ, ◌&&◌, ◌++◌, ◌==◌, ◌||◌, ◌∷◌, ◌≡◌,
}
use jitgen.Prelude.Str.{Text, codes, is_ascii_digit, strip_prefix, trim}
use jitgen.Sandbox.Capstone.{run}
use jitgen.Sandbox.Command.{digits, found_at, is_uid_gid, split_once}
use jitgen.Sandbox.Which.{resolve_trusted}

-- `Command::output`: whether the command succeeded, and its output when that is UTF-8.
pub record Output : Type 0 where
  pub success : Bool
  pub stdout : Option Text

numeric : Text → Option Text
unfolding is_ascii_digit
numeric s = if is_empty s || not (all is_ascii_digit s) then none else some s

of_stdout : Option Text → Option Text
unfolding trim numeric
of_stdout none = none
of_stdout (some s) = numeric (trim s)

of_output : Option Output → Option Text
unfolding of_stdout
of_output none = none
of_output (some out) = if not out.success then none else of_stdout out.stdout

-- `run` is none when the program cannot be started.
module _ (executable : Text → Bool) (run : Text → Text → Option Output) where
  of_bin : Text → Option Text → Option Text
  unfolding of_output
  of_bin flag none = none
  of_bin flag (some id_bin) = of_output (run id_bin flag)

  unfoldable pub id_value : Text → Option Text
  unfolding resolve_trusted of_bin
  id_value flag = of_bin flag (resolve_trusted executable (codes "id"))

  paired : Option Text → Option Text → Option Text
  paired none gid = none
  paired (some uid) none = none
  paired (some uid) (some gid) = if all (λ b. b == b'0') uid then none else some (uid ++ b':' ∷ gid)

  unfoldable pub current_uid_gid : Option Text
  unfolding id_value paired
  current_uid_gid = paired (id_value (codes "-u")) (id_value (codes "-g"))

-- A text that `numeric` returns: digits, and at least one.
abbrev Numeric : Option Text → Type 0
Numeric none = Unit
Numeric (some s) = digits s ≡ true

numeric-Numeric : (s : Text) → Numeric (numeric s)
unfolding numeric digits
numeric-Numeric s =
    if_cases Numeric (is_empty s || not (all is_ascii_digit s)) _ _ (λ e. tt) λ e. ground arith

of_stdout-Numeric : (o : Option Text) → Numeric (of_stdout o)
unfolding of_stdout
of_stdout-Numeric none = tt
of_stdout-Numeric (some s) = numeric-Numeric (trim s)

of_output-Numeric : (o : Option Output) → Numeric (of_output o)
unfolding of_output
of_output-Numeric none = tt
of_output-Numeric (some out) =
    if_cases Numeric (not out.success) _ _ (λ e. tt) λ e. of_stdout-Numeric out.stdout

strip_prefix-digit :
    (c : ℕ) (s : Text) → is_ascii_digit c ≡ true → strip_prefix (c ∷ s) (codes ":") ≡ none
unfolding strip_prefix is_ascii_digit
strip_prefix-digit c s h = ground arith

split_once-digits :
    (uid gid : Text)
    → all is_ascii_digit uid ≡ true
    → split_once (codes ":") (uid ++ b':' ∷ gid) ≡ some (uid, gid)
unfolding split_once found_at strip_prefix
split_once-digits [] gid h = refl
split_once-digits (c ∷ uid) gid h =
    let (digit, others) = and_split (is_ascii_digit c) (all is_ascii_digit uid) h in
    rw (strip_prefix-digit c (uid ++ b':' ∷ gid) digit, split_once-digits uid gid others) refl

all-any : (s : Text) → all (λ b. b == b'0') s ≡ false → any (λ b. not (b == b'0')) s ≡ true
all-any [] h = ground arith
all-any (c ∷ s) h = of_first (c == b'0') h (all-any s)
  where
    of_first :
        (t : Bool)
        → (t && all (λ b. b == b'0') s) ≡ false
        → (all (λ b. b == b'0') s ≡ false → any (λ b. not (b == b'0')) s ≡ true)
        → (not t || any (λ b. not (b == b'0')) s) ≡ true
    of_first true e k = k e
    of_first false e k = refl

uid_gid-made :
    (uid gid : Text)
    → digits uid ≡ true
    → digits gid ≡ true
    → any (λ b. not (b == b'0')) uid ≡ true
    → is_uid_gid (uid ++ b':' ∷ gid) ≡ true
unfolding is_uid_gid digits
uid_gid-made uid gid n m h =
    let (filled, all_digits) = and_split (not (is_empty uid)) (all is_ascii_digit uid) n in
    rw (split_once-digits uid gid all_digits, n, m, h) refl

paired-is_uid_gid :
    (executable : Text → Bool) (run : Text → Text → Option Output) (uid gid : Option Text)
    (u : Text)
    → Numeric uid
    → Numeric gid
    → paired executable run uid gid ≡ some u
    → is_uid_gid u ≡ true
unfolding paired
paired-is_uid_gid executable run none gid u n m h = ground arith
paired-is_uid_gid executable run (some uid) none u n m h = ground arith
paired-is_uid_gid executable run (some uid) (some gid) u n m h =
    of_zeros (all (λ b. b == b'0') uid) refl h
  where
    of_zeros :
        (t : Bool)
        → all (λ b. b == b'0') uid ≡ t
        → Path (Option Text) (if t then none else some (uid ++ b':' ∷ gid)) (some u)
        → is_uid_gid u ≡ true
    of_zeros true e k = ground arith
    of_zeros false e k =
        subst (λ x. is_uid_gid x ≡ true) (some_inj (uid ++ b':' ∷ gid) u k)
          (uid_gid-made uid gid n m (all-any uid e))

module _ (executable : Text → Bool) (run : Text → Text → Option Output) where
  id_value-Numeric : (flag : Text) → Numeric (id_value executable run flag)
  unfolding id_value of_bin
  id_value-Numeric flag = of_found (resolve_trusted executable (codes "id"))
    where
      of_found : (o : Option Text) → Numeric (of_bin executable run flag o)
      of_found none = tt
      of_found (some id_bin) = of_output-Numeric (run id_bin flag)

  -- What `current_uid_gid` returns is accepted by `is_uid_gid`, which the container plan asks for.
  pub current_uid_gid-is_uid_gid :
      (u : Text) → current_uid_gid executable run ≡ some u → is_uid_gid u ≡ true
  unfolding current_uid_gid
  current_uid_gid-is_uid_gid u h =
      paired-is_uid_gid executable run (id_value executable run (codes "-u"))
        (id_value executable run (codes "-g")) u (id_value-Numeric (codes "-u"))
        (id_value-Numeric (codes "-g")) h
