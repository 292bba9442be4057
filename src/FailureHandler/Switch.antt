-- ===== src/FailureHandler/Switch.antt =====
-- The kill switch over any sequence of commands.
use botmev.Prelude.{
  ℕ, ◌+◌, ◌%◌, ◌≡◌, refl, ap, ◌∙◌, String, Bool, true, false, Option, none, some, List, [], ◌∷◌,
  arith, u64_mod,
}
use botmev.Prelude.Dict.{Dict}
use botmev.FailureHandler.Defs.{
  FailureHandler, KillSwitch, FailureType, Inputs, Command, fails, activates, deactivates, cleans,
  handle_failure, activate_kill_switch, deactivate_kill_switch, cleanup_old_records, step, run,
  nonce_collision,
}

abbrev pub is_some {ℓ} : {A : Type ℓ} → Option A → Bool
is_some none = false
is_some (some a) = true

abbrev pub one_if : Bool → ℕ
one_if true = 1
one_if false = 0

-- Handling a failure never turns the switch, in either direction, and never counts a turn.
handle_failure-switch :
    (i : Inputs) (bundle_id : String) (t : FailureType) (metadata : Dict String)
    (h : FailureHandler)
    → let h' = (handle_failure i bundle_id t metadata h).1 in
      (h'.kill_switch ≡ h.kill_switch)
      × (h'.stats.kill_switch_activations ≡ h.stats.kill_switch_activations)
unfolding handle_failure
handle_failure-switch i bundle_id (nonce_collision e a) metadata h = ground arith
handle_failure-switch i bundle_id t metadata h = ground arith

-- The reason and the time are there exactly while the switch is on.
abbrev pub IsConsistent : KillSwitch → Type 0
IsConsistent k = (is_some k.reason ≡ k.activated) × (is_some k.activated_at ≡ k.activated)

-- 1 for a command that turns the switch off.
abbrev pub turns_off : FailureHandler → Command → ℕ
turns_off h (deactivates by) = one_if h.kill_switch.activated
turns_off h _ = 0

abbrev pub turned_off : FailureHandler → List Command → ℕ
turned_off h [] = 0
turned_off h (c ∷ cs) = turns_off h c + turned_off (step h c) cs

-- One command keeps the switch consistent, and keeps the count of its turns.
abbrev Kept : FailureHandler → ℕ → FailureHandler → Type 0
Kept h n h' =
    IsConsistent h'.kill_switch
    × ((h'.stats.kill_switch_activations + one_if h.kill_switch.activated) % u64_mod
        ≡ (h.stats.kill_switch_activations + n + one_if h'.kill_switch.activated) % u64_mod)

step-Kept :
    (h : FailureHandler) (c : Command)
    → IsConsistent h.kill_switch
    → Kept h (turns_off h c) (step h c)
unfolding step activate_kill_switch deactivate_kill_switch cleanup_old_records
step-Kept h (fails i bundle_id t metadata) v =
    ground (arith, handle_failure-switch i bundle_id t metadata h)
step-Kept h (activates instant reason by) v = ground arith
step-Kept h (deactivates by) v = ground arith
step-Kept h (cleans date instant max_age) v = ground arith

-- Over any sequence of commands on a handler whose switch is consistent: it stays so, and the
-- activations counted are, modulo 2^64, those counted before and one for each time that the switch
-- was turned off, up to its position at both ends.
run-Kept :
    (h : FailureHandler) (cs : List Command)
    → IsConsistent h.kill_switch
    → let h' = run h cs in
      IsConsistent h'.kill_switch
      × ((h'.stats.kill_switch_activations + one_if h.kill_switch.activated) % u64_mod
          ≡ (h.stats.kill_switch_activations + turned_off h cs + one_if h'.kill_switch.activated)
            % u64_mod)
unfolding run
run-Kept h [] v = (v, omega arith)
run-Kept h (c ∷ cs) v =
    let here = step-Kept h c v in
    let later = run-Kept (step h c) cs here.0 in (later.0, omega arith)

-- Commands that only report failures.
abbrev pub AreFailures : List Command → Type 0
AreFailures [] = Unit
AreFailures (fails i b t m ∷ cs) = AreFailures cs
AreFailures (_ ∷ cs) = ⊥

pub halted :
    (i : Inputs) (b : String) (t : FailureType) (m : Dict String) (h : FailureHandler)
    → h.kill_switch.activated ≡ true
    → (handle_failure i b t m h).1 ≡ h
unfolding handle_failure
halted i b t m h on = simp on

-- While the switch is on, no sequence of failures changes anything in the handler.
run-halted :
    (h : FailureHandler) (cs : List Command)
    → h.kill_switch.activated ≡ true
    → AreFailures cs
    → run h cs ≡ h
unfolding run step
run-halted h [] on f = refl
run-halted h (fails i b t m ∷ cs) on f =
    let same = halted i b t m h on in ap (λ x. run x cs) same ∙ run-halted h cs on f
run-halted h (activates n r b ∷ cs) on f = absurd f
run-halted h (deactivates b ∷ cs) on f = absurd f
run-halted h (cleans d n m ∷ cs) on f = absurd f
