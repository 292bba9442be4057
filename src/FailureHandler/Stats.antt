-- ===== src/FailureHandler/Stats.antt =====
-- The statistics and the records over any sequence of commands.
use botmev.Prelude.{
  ℕ, ◌+◌, ◌%◌, ◌≤◌, ◌≡◌, String, List, [], ◌∷◌, arith, u64_mod, add64, ltb, Bool-cases, inl, inr,
}
use botmev.Prelude.Dict.{Dict, lookup, insert, AllValues, AllValues-insert, AllValues-retain}
use botmev.FailureHandler.Resolution.{settled, handle_failure-Resolved}
use botmev.FailureHandler.Switch.{halted}
use botmev.FailureHandler.Defs.{
  FailureHandler, FailureStats, FailureRecord, FailureType, Inputs, Command, fails, activates,
  deactivates, cleans, handle_failure, activate_kill_switch, deactivate_kill_switch,
  cleanup_old_records, step, run, nonce_collision, update_failure_stats, type_key, count_of,
  failure_record,
}

-- The sum of the counters.
unfoldable pub total : Dict ℕ → ℕ
total [] = 0
total ((k, n) ∷ m) = n + total m

total-insert :
    (k : String) (n : ℕ) (m : Dict ℕ) → total (insert k n m) + count_of (lookup k m) ≡ total m + n
unfolding total insert lookup
total-insert k n [] = omega arith
total-insert k n ((j, w) ∷ m) = ground (arith, total-insert k n m)

-- The failures counted are those counted by kind.
abbrev pub IsCounted : FailureStats → Type 0
IsCounted s = s.total_failures % u64_mod ≡ total s.failures_by_type % u64_mod

update_failure_stats-IsCounted :
    (t : FailureType) (s : FailureStats) → IsCounted s → IsCounted (update_failure_stats t s)
unfolding update_failure_stats
update_failure_stats-IsCounted t s v =
    let k = type_key t in
    let n = count_of (lookup k s.failures_by_type) in
    omega (arith, total-insert k (add64 n 1) s.failures_by_type)

-- No record was retried more than once.
abbrev pub TriedOnce : FailureRecord → Type 0
TriedOnce f = f.retry_count ≤ 1

abbrev Records : FailureHandler → Type 0
Records h = AllValues TriedOnce h.failures

handle_failure-IsCounted :
    (i : Inputs) (b : String) (t : FailureType) (m : Dict String) (h : FailureHandler)
    → IsCounted h.stats
    → IsCounted (handle_failure i b t m h).1.stats
unfolding handle_failure
handle_failure-IsCounted i b (nonce_collision e a) m h v =
    ground (arith, update_failure_stats-IsCounted (nonce_collision e a) h.stats v)
handle_failure-IsCounted i b t m h v = ground (arith, update_failure_stats-IsCounted t h.stats v)

settled-TriedOnce : (t : FailureType) (f : FailureRecord) → TriedOnce f → TriedOnce (settled t f)
settled-TriedOnce (nonce_collision e a) f h = omega arith
settled-TriedOnce t f h = ground arith

handle_failure-Records :
    (i : Inputs) (b : String) (t : FailureType) (m : Dict String) (h : FailureHandler)
    → Records h
    → Records (handle_failure i b t m h).1
handle_failure-Records i b t m h v = elim (Bool-cases h.kill_switch.activated) [
  | inl on ↦ rw (halted i b t m h on) v
  | inr off ↦ rw (handle_failure-Resolved i b t m h off).1 (
      AllValues-insert TriedOnce i.failure_id _ h.failures
        (settled-TriedOnce t (failure_record i b t m) (omega arith)) v)
]

-- What holds of the records and of the counters.
abbrev pub IsKept : FailureHandler → Type 0
IsKept h = IsCounted h.stats × Records h

step-IsKept : (h : FailureHandler) (c : Command) → IsKept h → IsKept (step h c)
unfolding step activate_kill_switch deactivate_kill_switch cleanup_old_records
step-IsKept h (fails i b t m) v =
    (handle_failure-IsCounted i b t m h v.0, handle_failure-Records i b t m h v.1)
step-IsKept h (activates instant reason by) v = ground arith
step-IsKept h (deactivates by) v = ground arith
step-IsKept h (cleans date instant max_age) v =
    (v.0, AllValues-retain TriedOnce (λ f. ltb date (f.timestamp + max_age)) h.failures v.1)

-- Over any sequence of commands the failures counted are those counted by kind, modulo 2^64, and
-- no record ever has more than one retry.
run-IsKept : (h : FailureHandler) (cs : List Command) → IsKept h → IsKept (run h cs)
unfolding run
run-IsKept h [] v = v
run-IsKept h (c ∷ cs) v = run-IsKept (step h c) cs (step-IsKept h c v)
