-- ===== src/FileIdentity/Baseline.antt =====
-- The baseline of a write describes the target that was found (src/deepseek_mcp/file_identity.py).
use mathlib.Core.Path.{subst}
use deepseek_as_subagent.Prelude.{ℕ, ◌≡◌, refl, true, Option, none, some, arith}
use deepseek_as_subagent.Prelude.Results.{ok}
use deepseek_as_subagent.FileIdentity.{
  FileIdentity, StatResult, ExpectedIdentity, unknown, missing, identity, matches_stat, from_stat,
  write_baseline,
}

-- A missing target has no identity and gets the mode 0600; a target that exists is regular, keeps its
-- permissions, and has the identity's fields.
abbrev pub Describes : ℕ → Option FileIdentity → Option StatResult → Type 0
Describes mode none none = mode ≡ 0o600
Describes mode (some f) (some i) =
    (i.is_regular ≡ true)
    × (mode ≡ i.permissions)
    × (f.device ≡ i.device)
    × (f.inode ≡ i.inode)
    × (f.mode ≡ i.mode)
    × (f.size ≡ i.size)
    × (f.modified_ns ≡ i.modified_ns)
    × (f.changed_ns ≡ i.changed_ns)
Describes mode _ _ = ⊥

matches_stat_lem :
    (f : FileIdentity) (i : StatResult)
    → matches_stat f i ≡ true
    → (f.device ≡ i.device)
      × (f.inode ≡ i.inode)
      × (f.mode ≡ i.mode)
      × (f.size ≡ i.size)
      × (f.modified_ns ≡ i.modified_ns)
      × (f.changed_ns ≡ i.changed_ns)
unfolding matches_stat
matches_stat_lem f i h =
    (ground arith, ground arith, ground arith, ground arith, ground arith, ground arith)

-- Whatever the caller expected, a baseline that is accepted describes the target as it was found, field
-- by field.
pub write_baseline-Describes :
    (info : Option StatResult) (expected : ExpectedIdentity) {mode : ℕ} {b : Option FileIdentity}
    → write_baseline info expected ≡ ok (mode, b)
    → Describes mode b info
unfolding write_baseline from_stat
write_baseline-Describes none (identity f) h = absurd (ground arith)
write_baseline-Describes none unknown {mode} {b} h =
    let e : none ≡ b = ground arith in
    let m : mode ≡ 0o600 = ground arith in
    subst (λ (x : Option FileIdentity). Describes mode x none) e m
write_baseline-Describes none missing {mode} {b} h =
    let e : none ≡ b = ground arith in
    let m : mode ≡ 0o600 = ground arith in
    subst (λ (x : Option FileIdentity). Describes mode x none) e m
write_baseline-Describes (some i) unknown {mode} {b} h =
    let r : i.is_regular ≡ true = ground arith in
    let m : mode ≡ i.permissions = ground arith in
    let e : some (from_stat i) ≡ b = ground arith in
    subst (λ (x : Option FileIdentity). Describes mode x (some i)) e
      (r, m, refl, refl, refl, refl, refl, refl)
write_baseline-Describes (some i) missing h = absurd (ground arith)
write_baseline-Describes (some i) (identity f) {mode} {b} h =
    let r : i.is_regular ≡ true = ground arith in
    let m : mode ≡ i.permissions = ground arith in
    let e : some f ≡ b = ground arith in
    let s : matches_stat f i ≡ true = ground arith in
    let (p1, p2, p3, p4, p5, p6) = matches_stat_lem f i s in
    subst (λ (x : Option FileIdentity). Describes mode x (some i)) e (r, m, p1, p2, p3, p4, p5, p6)
