-- ===== src/FailureHandler/Checklist.antt =====
-- `SecurityChecklist`: the items that an operator ticks off.
use botmev.Prelude.{
  ◌≡◌, refl, String, Bool, true, false, not, ◌&&◌, Option, none, List, [], ◌∷◌, arith, keep_if, All,
  ◌↔◌,
}

pub data SecurityCategory : Type 0 where
  key_management network_security transaction_safety fund_protection : SecurityCategory
  operational_security : SecurityCategory

pub data SecuritySeverity : Type 0 where
  critical high medium low : SecuritySeverity

pub record SecurityCheckItem : Type 0 where
  pub id : String
  pub description : String
  pub category : SecurityCategory
  pub severity : SecuritySeverity
  pub checked : Bool
  pub notes : Option String

abbrev pub SecurityChecklist : Type 0
SecurityChecklist = List SecurityCheckItem

abbrev unchecked : String → String → SecurityCategory → SecuritySeverity → SecurityCheckItem
unchecked id description category severity = record {
  id = id;
  description = description;
  category = category;
  severity = severity;
  checked = false;
  notes = none;
}

abbrev pub default_checklist : SecurityChecklist
default_checklist =
    unchecked "key_encryption" "Private keys are encrypted and stored securely" key_management
      critical
    ∷ unchecked "network_tls" "All network connections use TLS encryption" network_security high
    ∷ unchecked "gas_limits" "Gas limits are set to prevent excessive costs" transaction_safety high
    ∷ unchecked "fund_limits" "Maximum fund exposure limits are configured" fund_protection critical
    ∷ unchecked "kill_switch" "Kill switch is functional and tested" operational_security critical
    ∷ []

abbrev pub is_critical : SecuritySeverity → Bool
is_critical critical = true
is_critical _ = false

-- `all` over a `filter`.
all_checked : SecurityChecklist → Bool
all_checked [] = true
all_checked (i ∷ l) = i.checked && all_checked l

unfoldable pub all_critical_checked : SecurityChecklist → Bool
unfolding all_checked
all_critical_checked l = all_checked (keep_if (λ i. is_critical i.severity) l)

unfoldable pub get_unchecked_items : SecurityChecklist → List SecurityCheckItem
get_unchecked_items l = keep_if (λ i. not i.checked) l

-- All critical items are ticked off exactly when none of the items that are still to do is
-- critical.
all_critical_checked_iff :
    (l : SecurityChecklist)
    → (all_critical_checked l ≡ true)
      ↔ All (λ i. is_critical i.severity ≡ false) (get_unchecked_items l)
unfolding all_critical_checked get_unchecked_items
all_critical_checked_iff [] = (λ _. tt, λ _. refl)
all_critical_checked_iff (i ∷ l) = ground (arith, all_critical_checked_iff l)

starts_unchecked : all_critical_checked default_checklist ≡ false
unfolding all_critical_checked
starts_unchecked = refl
