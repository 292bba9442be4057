-- ===== src/Tracker/Cleanup.antt =====
-- The clean-up that ends every round of monitoring, and the statistics.
use botmev.Prelude.{
  ℕ, ◌+◌, ◌≡◌, refl, String, true, false, Option, none, some, List, [], ◌∷◌, arith, length,
}
use botmev.Prelude.Dict.{Dict, lookup, retain, values, AllValues}
use botmev.Tracker.Defs.{
  ExecutionStatus, pending, TrackedBundle, ExecutionTracker, Node, keeps, cleanup_expired_bundles,
  monitor, get_execution_status, check_all_bundles, update_latest, TrackingStats, count_status,
  count_all, get_tracking_stats,
}

-- What a query for the status can answer after a clean-up.
abbrev pub IsPending : Option ExecutionStatus → Type 0
IsPending none = Unit
IsPending (some s) = s ≡ pending

keeps-pending :
    (limit now : ℕ) (tracked : TrackedBundle)
    → keeps limit now tracked ≡ true
    → tracked.status ≡ pending
unfolding keeps
keeps-pending limit now tracked h = ground arith

retain-pending :
    (limit now : ℕ) (m : Dict TrackedBundle)
    → AllValues (λ tracked. tracked.status ≡ pending) (retain (keeps limit now) m)
unfolding retain
retain-pending limit now [] = tt
retain-pending limit now ((id, tracked) ∷ m) =
    ground (arith, keeps-pending limit now tracked, retain-pending limit now m)

lookup-pending :
    (id : String) (m : Dict TrackedBundle)
    → AllValues (λ tracked. tracked.status ≡ pending) m
    → IsPending (elim (lookup id m) [ none ↦ none | some tracked ↦ some tracked.status ])
unfolding lookup
lookup-pending id [] h = tt
lookup-pending id ((j, tracked) ∷ m) h = ground (arith, lookup-pending id m h.1)

-- After a round of monitoring that does not panic, the status of a bundle is pending or the bundle is
-- unknown, whatever the blocks have: that it was included, has expired or has failed cannot be asked.
monitor-IsPending :
    (node : Node) (latest : Option ℕ) (now later : ℕ) (id : String) (t : ExecutionTracker)
    → (monitor node latest now later t).1 ≡ false
    → IsPending (get_execution_status id (monitor node latest now later t).0)
unfolding get_execution_status monitor cleanup_expired_bundles
monitor-IsPending node latest now later id t calm =
    let t' = (check_all_bundles node now (update_latest latest t)).0 in
    rw calm (
      lookup-pending id (retain (keeps t'.max_tracking_duration later) t'.tracked_bundles)
        (retain-pending t'.max_tracking_duration later t'.tracked_bundles))

abbrev sum_of : TrackingStats → ℕ
sum_of s = s.pendings + s.includeds + s.faileds + s.expireds

count_all-sum :
    (s : TrackingStats) (l : List TrackedBundle)
    → (sum_of (count_all s l) ≡ sum_of s + length l)
      × ((count_all s l).total_tracked ≡ s.total_tracked)
unfolding count_all count_status
count_all-sum s [] = (omega arith, refl)
count_all-sum s (tracked ∷ l) =
    let (sum, same) = count_all-sum (count_status s tracked.status) l in ground (arith, sum, same)

length-values : (m : Dict TrackedBundle) → length (values m) ≡ length m
length-values [] = refl
length-values (e ∷ m) = omega (arith, length-values m)

-- The statistics are complete: every tracked bundle is counted under exactly one status.
get_tracking_stats-sum :
    (t : ExecutionTracker)
    → let s = get_tracking_stats t in
      (s.total_tracked ≡ length t.tracked_bundles)
      × (s.pendings + s.includeds + s.faileds + s.expireds ≡ s.total_tracked)
unfolding get_tracking_stats
get_tracking_stats-sum t =
    let start : TrackingStats = record {
      total_tracked = length t.tracked_bundles;
      pendings = 0;
      includeds = 0;
      faileds = 0;
      expireds = 0;
    } in
    let (sum, same) = count_all-sum start (values t.tracked_bundles) in
    (same, omega (arith, sum, same, length-values t.tracked_bundles))
