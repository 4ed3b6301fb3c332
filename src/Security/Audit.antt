-- ===== src/Security/Audit.antt =====
-- What the audit log holds after any number of events.
use mathlib.Core.List.{reverse, append-nil, append_assoc}
use ai_employee_os.Common.{
  ℕ, ◌-◌, ◌≤◌, ◌≡◌, sym, ap, ◌∙◌, List, [], ◌∷◌, ◌++◌, arith, length, drop, length-append,
  length-drop, drop-append, drop-drop, drop-nil,
}
use ai_employee_os.Security.Models.{AuditEvent}
use ai_employee_os.Security.Provider.{
  SecurityStore, save_audit_event, last_events, list_audit_events,
}

unfoldable pub save_events : List AuditEvent → SecurityStore → SecurityStore
save_events [] s = s
save_events (e ∷ es) s = save_events es (save_audit_event e s)

-- The newest `n` events of a history, oldest first.
abbrev pub newest : ℕ → List AuditEvent → List AuditEvent
newest n events = drop (length events - n) events

audit-save_audit_event :
    (e : AuditEvent) (s : SecurityStore)
    → (save_audit_event e s).audit ≡ newest s.max_events (s.audit ++ (e ∷ []))
unfolding save_audit_event
audit-save_audit_event e s = ground arith

newest-snoc :
    (n : ℕ) (events : List AuditEvent) (e : AuditEvent)
    → newest n (newest n events ++ (e ∷ [])) ≡ newest n (events ++ (e ∷ []))
newest-snoc n events e =
    rw (← drop-append (length events - n) events (e ∷ []) (omega arith), drop-drop)
      (ap (λ m. drop m (events ++ (e ∷ [])))
        (omega (
          arith,
          length-drop (length events - n) (events ++ (e ∷ [])),
          length-append events (e ∷ []),
        )))

save_events-newest :
    (events : List AuditEvent) (past : List AuditEvent) (s : SecurityStore)
    → s.audit ≡ newest s.max_events past
    → (save_events events s).audit ≡ newest s.max_events (past ++ events)
unfolding save_events save_audit_event
save_events-newest [] past s h = rw append-nil h
save_events-newest (e ∷ es) past s h = rw (← append_assoc past (e ∷ []) es) (
    save_events-newest es (past ++ (e ∷ [])) (save_audit_event e s)
      (audit-save_audit_event e s ∙ rw h (newest-snoc s.max_events past e)))

newest-newest :
    (m n : ℕ) (events : List AuditEvent) → m ≤ n → newest m (newest n events) ≡ newest m events
newest-newest m n events h =
    rw drop-drop (ap (λ k. drop k events) (omega (arith, length-drop (length events - n) events)))

last_events-newest :
    (limit : ℕ) (events : List AuditEvent)
    → 1 ≤ limit
    → last_events limit events ≡ newest limit events
last_events-newest limit events h = ground arith

-- Of the events recorded on an empty log it holds the newest `max_events`, in order. A listing
-- with a limit from 1 to `max_events` shows the newest `limit` of all events, the last one first.
pub save_events_lem :
    (events : List AuditEvent) (s : SecurityStore) (limit : ℕ)
    → s.audit ≡ []
    → 1 ≤ limit
    → limit ≤ s.max_events
    → ((save_events events s).audit ≡ newest s.max_events events)
      × (list_audit_events limit (save_events events s) ≡ reverse (newest limit events))
unfolding list_audit_events
save_events_lem events s limit empty pos within = (
  held,
  rw held (
      ap reverse (last_events-newest limit _ pos ∙ newest-newest limit s.max_events events within)),
)
  where
    held : (save_events events s).audit ≡ newest s.max_events events
    held = save_events-newest events [] s (empty ∙ sym (drop-nil (0 - s.max_events)))
