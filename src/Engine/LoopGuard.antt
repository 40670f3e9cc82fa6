-- ===== src/Engine/LoopGuard.antt =====
-- crates/snaca-engine/src/loop_guard.rs: the per-turn tally of identical tool calls. A call's input is
-- the digest of its serialised JSON, which serde_json and blake3 compute.
use snaca.Base.{
  ℕ, ◌+◌, String, Bool, ◌&&◌, List, [], ◌∷◌, ◌≡◌, refl, leb, str_eq, if◌then◌else◌, arith, eq_iff,
  eq_refl,
}

pub record Entry : Type 0 where
  pub tool : String
  pub digest : String
  pub count : ℕ

pub record LoopGuard : Type 0 where
  pub counts : List Entry
  pub limit : ℕ

pub data Verdict : Type 0 where
  ok : ℕ → Verdict
  err : String → ℕ → Verdict

abbrev pub new : ℕ → LoopGuard
new limit = record { counts = []; limit = limit }

abbrev pub same_call : String → String → Entry → Bool
same_call tool digest e = str_eq e.tool tool && str_eq e.digest digest

-- `entry(key).or_insert(0)`, then `+= 1`.
unfoldable pub increment : String → String → List Entry → List Entry
increment tool digest [] = record { tool = tool; digest = digest; count = 1 } ∷ []
increment tool digest (e ∷ es) =
    let rest = increment tool digest es in
    if same_call tool digest e then record e { count = e.count + 1 } ∷ es else e ∷ rest

unfoldable pub count_of : String → String → List Entry → ℕ
count_of tool digest [] = 0
count_of tool digest (e ∷ es) =
    let rest = count_of tool digest es in if same_call tool digest e then e.count else rest

-- `LoopGuard::record`.
unfoldable pub record_call : String → String → LoopGuard → Verdict × LoopGuard
record_call tool digest guard =
    let counts = increment tool digest guard.counts in
    let count = count_of tool digest counts in
    (if leb guard.limit count then err tool count else ok count, record guard { counts = counts })

pub record Call : Type 0 where
  pub tool : String
  pub digest : String

-- The guard of a turn that made these calls, the first one at the end.
pub replay : ℕ → List Call → LoopGuard
replay limit [] = new limit
replay limit (c ∷ earlier) = (record_call c.tool c.digest (replay limit earlier)).1

-- How many of the calls are this one.
pub occurrences : String → String → List Call → ℕ
occurrences tool digest [] = 0
occurrences tool digest (c ∷ cs) =
    let rest = occurrences tool digest cs in
    if str_eq c.tool tool && str_eq c.digest digest then rest + 1 else rest

count_of-increment :
    (tool digest t d : String) (es : List Entry)
    → count_of t d (increment tool digest es)
      ≡ (if str_eq tool t && str_eq digest d then count_of t d es + 1 else count_of t d es)
unfolding count_of increment
count_of-increment tool digest t d [] = ground arith
count_of-increment tool digest t d (e ∷ es) = ground (
  arith,
  eq_iff e.tool tool,
  eq_iff e.digest digest,
  eq_iff e.tool t,
  eq_iff e.digest d,
  eq_iff tool t,
  eq_iff digest d,
  count_of-increment tool digest t d es,
)

replay-limit : (limit : ℕ) (calls : List Call) → (replay limit calls).limit ≡ limit
unfolding replay record_call
replay-limit limit [] = refl
replay-limit limit (c ∷ calls) = replay-limit limit calls

replay-count_of :
    (limit : ℕ) (calls : List Call) (tool digest : String)
    → count_of tool digest (replay limit calls).counts ≡ occurrences tool digest calls
unfolding replay record_call occurrences count_of
replay-count_of limit [] tool digest = refl
replay-count_of limit (c ∷ calls) tool digest =
    rw
      (
        count_of-increment c.tool c.digest tool digest (replay limit calls).counts,
        replay-count_of limit calls tool digest,
      )
      refl

-- After any calls of a turn, the next call is counted with its earlier occurrences in the turn, and
-- the guard trips exactly when that count has reached the limit.
pub record_call-occurrences :
    (limit : ℕ) (calls : List Call) (tool digest : String)
    → let n : ℕ = occurrences tool digest calls + 1 in
      (record_call tool digest (replay limit calls)).0 ≡ (if leb limit n then err tool n else ok n)
unfolding record_call
record_call-occurrences limit calls tool digest =
    rw
      (
        count_of-increment tool digest tool digest (replay limit calls).counts,
        eq_refl tool,
        eq_refl digest,
        replay-count_of limit calls tool digest,
        replay-limit limit calls,
      )
      refl
