-- ===== src/Status/Warnings.antt =====
-- How often packages/backend/src/services/balance-monitor.ts warns.
use vpp_blockchain.Base.{
  ℕ, ◌+◌, ◌≤◌, ◌≡◌, subst, false, List, [], ◌∷◌, arith, Bool-cases, inl, inr, ltb, leb,
}
use vpp_blockchain.Base.Exec.{ok, throw}
use vpp_blockchain.Status.{
  warn_balance, warn_cooldown_ms, Monitor, Event, checks, starts, stops, check_balance_and_warn,
  start_balance_monitor, monitor_step, add_some, warnings,
}

-- Each time lies at least a day after the one before, the first at least a day after `last`.
abbrev pub AreSpaced : ℕ → List ℕ → Type 0
AreSpaced last [] = Unit {0}
AreSpaced last (t ∷ times) = (last + warn_cooldown_ms ≤ t) × AreSpaced t times

-- Whatever the balance, the errors and the restarts of the timer, and even if the clock is set back, a
-- process warns at most once a day.
pub warnings-AreSpaced :
    (min_balance : ℕ) (m : Monitor) (events : List Event)
    → AreSpaced m.last_warning_sent_at (warnings min_balance m events)
unfolding warnings monitor_step check_balance_and_warn start_balance_monitor add_some
warnings-AreSpaced min_balance m [] = tt
warnings-AreSpaced min_balance m (checks now (throw e) ∷ events) =
    warnings-AreSpaced min_balance m events
warnings-AreSpaced min_balance m (checks now (ok balance) ∷ events) =
    elim (Bool-cases (ltb balance (warn_balance min_balance))) [
      | inl low ↦ rw low (elim (Bool-cases (leb (m.last_warning_sent_at + warn_cooldown_ms) now)) [
        | inl due ↦ rw due (
          ground (arith, due),
          warnings-AreSpaced min_balance (record m { last_warning_sent_at = now }) events,
        )
        | inr soon ↦ rw soon (warnings-AreSpaced min_balance m events)
      ])
      | inr enough ↦ rw enough (warnings-AreSpaced min_balance m events)
    ]
warnings-AreSpaced min_balance m (starts interval_ms ∷ events) =
    let left = start_balance_monitor interval_ms m in
    let same : left.last_warning_sent_at ≡ m.last_warning_sent_at = ground arith in
    subst (λ t. AreSpaced t (warnings min_balance left events)) same
      (warnings-AreSpaced min_balance left events)
warnings-AreSpaced min_balance m (stops ∷ events) =
    warnings-AreSpaced min_balance (record m { running = false }) events
