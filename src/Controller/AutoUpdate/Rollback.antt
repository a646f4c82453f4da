-- ===== src/Controller/AutoUpdate/Rollback.antt =====
-- What rollbacks add up to: the failed versions, the history and the circuit breaker of `rollback`
-- in internal/controller/autoupdate_controller.go.
use k8s4claw.Base.{
  ℕ, zero, suc, Bool, Option, none, some, ℤ, if◌then◌else◌, ◌-◌, ◌≤◌, ◌≡◌, sym, ap, ◌∙◌, String,
  false, ◌||◌, List, [], ◌∷◌, ◌++◌, pos, arith, Bool-cases, leb, str_eq, length, length-drop,
  eq_iff, inl, inr,
}
use k8s4claw.Controller.AutoUpdate.Cluster.{Cluster, Platform}
use k8s4claw.Controller.AutoUpdate.Reconcile.{rollback}
use k8s4claw.Controller.AutoUpdate.Decoding.{
  Overlays, Decodes, statuses, rolled_claw, statuses-rollback,
}
use k8s4claw.Registry.Resolver.{is_failed}
use k8s4claw.Controller.AutoUpdate.Status.{
  Claw, AutoUpdateSpec, AutoUpdateStatus, rolled_back, healthy, VersionHistoryEntry,
  max_version_history, increment, at_least, trim_version_history, add_failed, max_rollbacks_of,
  roll_back, complete,
}

trim_version_history_bounded :
    (history : List VersionHistoryEntry) → length (trim_version_history history) ≤ 50
unfolding trim_version_history
trim_version_history_bounded history =
    ground (arith, length-drop (length history - max_version_history) history)

is_failed-append :
    (failed : List String) (v w : String)
    → is_failed (failed ++ (v ∷ [])) w ≡ (is_failed failed w || str_eq v w)
unfolding is_failed
is_failed-append [] v w = ground arith
is_failed-append (f ∷ fs) v w = ground (arith, is_failed-append fs v w)

add_failed_lem :
    (v w : String) (failed : List String)
    → is_failed (add_failed v failed) w ≡ (is_failed failed w || str_eq v w)
unfolding add_failed
add_failed_lem v w failed = elim (Bool-cases (is_failed failed v)) [
  | inl old ↦ ground (arith, eq_iff v w)
  | inr new ↦ rw (new, is_failed-append failed v w)
]

-- A rollback puts the version that was tried among the failed ones, takes none of them away, and
-- keeps the history at 50 entries or fewer; so does a completed update.
roll_back_records :
    (now : ℕ) (spec : AutoUpdateSpec) (s : AutoUpdateStatus) (v w : String)
    → (is_failed (roll_back now spec s).failed_versions w
        ≡ (is_failed s.failed_versions w || str_eq s.available_version w))
      × (length (roll_back now spec s).version_history ≤ 50)
      × (length (complete now v s).version_history ≤ 50)
unfolding roll_back complete
roll_back_records now spec s v w = (
  add_failed_lem s.available_version w s.failed_versions,
  trim_version_history_bounded (
      s.version_history
      ++ (record { version = s.available_version; applied_at = now; outcome = rolled_back } ∷ [])),
  trim_version_history_bounded
      (s.version_history ++ (record { version = v; applied_at = now; outcome = healthy } ∷ [])),
)

-- The status that the server holds after a number of rollbacks. What else is written in between
-- leaves the count and the circuit.
pub data Rolled (p : Platform) (spec : AutoUpdateSpec) : ℕ → AutoUpdateStatus → Type 0 where
  fresh :
      (s : AutoUpdateStatus)
      → s.rollback_count ≡ pos 0
      → s.circuit_open ≡ false
      → Rolled p spec zero s
  others :
      (k : ℕ) (s s' : AutoUpdateStatus)
      → Rolled p spec k s
      → s'.rollback_count ≡ s.rollback_count
      → s'.circuit_open ≡ s.circuit_open
      → Rolled p spec k s'
  rolls :
      (k : ℕ) (s local s' : AutoUpdateStatus) (w : Cluster) (claw again : Claw) (reason : String)
      → Rolled p spec k s
      → w.update (rolled_claw p w spec s claw) ≡ some local
      → Decodes s (roll_back w.now spec s) local
      → w.get_again (rolled_claw p w spec s claw) ≡ some again
      → statuses (rollback p w spec s claw reason).0 ≡ some s' ∷ []
      → Rolled p spec (suc k) s'

max_rollbacks_of_pos : (spec : AutoUpdateSpec) → leb (max_rollbacks_of spec) 0 ≡ false
unfolding max_rollbacks_of
max_rollbacks_of_pos spec = ground arith

-- The smaller of the two.
abbrev pub capped : ℕ → ℕ → ℕ
capped k most = if leb k most then k else most

counted :
    (k : ℕ) (c l : ℤ)
    → c ≡ pos (capped k 1)
    → Overlays (pos 0) c (increment c) l
    → l ≡ pos (capped (suc k) 1)
unfolding increment
counted zero c l old (inl (none_yet, new)) = ground (arith, old, new)
counted zero c l old (inr (some_yet, new)) = absurd (some_yet old)
counted (suc k) c l old (inl (none_yet, new)) = ground (arith, old, none_yet)
counted (suc k) c l old (inr (some_yet, new)) = ground (arith, old, new)

opened :
    (m k : ℕ) (c : ℤ) (o l : Bool)
    → leb m 0 ≡ false
    → c ≡ pos (capped k 1)
    → o ≡ leb m (capped k 2)
    → Overlays false o (at_least m (increment c) || o) l
    → l ≡ leb m (capped (suc k) 2)
unfolding increment at_least
opened m zero c o l positive count old (inl (shut, new)) = ground (arith, count, old, shut, new)
opened m zero c o l positive count old (inr (open_yet, new)) = absurd (open_yet (old ∙ positive))
opened m (suc k) c o l positive count old (inl (shut, new)) = ground (arith, count, old, shut, new)
opened m (suc k) c o l positive count old (inr (open_yet, new)) = ground (arith, old, open_yet, new)

-- The first of the statuses.
abbrev first : AutoUpdateStatus → List (Option AutoUpdateStatus) → AutoUpdateStatus
first default [] = default
first default (none ∷ rest) = default
first default (some s ∷ rest) = s

-- Rollbacks are not added up if an update of the object answers with the stored status, decoded
-- over the local one. From no rollback and a closed circuit, however many rollbacks have written
-- their status, with nothing else written to the count and the circuit in between, the stored count
-- is at most 1. The circuit is open after the first rollback exactly if the configured maximum (3 if
-- it is not positive) is 1, and after more of them exactly if it is at most 2: with a maximum of 3 or
-- more it never opens.
pub rollbacks_lost :
    (p : Platform) (spec : AutoUpdateSpec) (k : ℕ) (s : AutoUpdateStatus)
    → Rolled p spec k s
    → (s.rollback_count ≡ pos (capped k 1))
      × (s.circuit_open ≡ leb (max_rollbacks_of spec) (capped k 2))
unfolding increment roll_back
rollbacks_lost p spec zero s (fresh _ count shut) = (count, shut ∙ sym (max_rollbacks_of_pos spec))
rollbacks_lost p spec k s' (others _ s _ before count circuit) =
    let old = rollbacks_lost p spec k s before in (count ∙ old.0, circuit ∙ old.1)
rollbacks_lost p spec (suc k) s'
      (rolls _ s local _ w claw again reason before updated decoded read wrote) =
    let (count, circuit) = rollbacks_lost p spec k s before in
    let same : s' ≡ local =
      ap (first s')
        (sym wrote ∙ statuses-rollback p w spec s claw reason again local updated read) in
    (
      ap (λ x. x.rollback_count) same
          ∙ counted k s.rollback_count local.rollback_count count decoded.rollback_count,
      ap (λ x. x.circuit_open) same
          ∙ opened (max_rollbacks_of spec) k s.rollback_count s.circuit_open local.circuit_open
              (max_rollbacks_of_pos spec) count circuit decoded.circuit_open,
    )
