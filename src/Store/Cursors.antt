-- ===== src/Store/Cursors.antt =====
-- The cursors of audit events, and `timeline` on them.
use kubecouncil.Base.{
  ℕ, zero, suc, ◌+◌, ◌≤◌, ltb, String, Option, none, some, List, [], ◌∷◌, ◌++◌, length, get_last?,
  filter, ok, ◌≡◌, ap, refl, arith,
}
use kubecouncil.Domain.Record.{AuditEvent, InvestigationRecord}
use kubecouncil.Store.Access.{Store, get, required_record, next_cursor, with_event, timeline}

-- The events carry the cursors n + 1, n + 2, and so on.
abbrev pub IsNumbered : ℕ → List AuditEvent → Type 0
IsNumbered n [] = Unit {0}
IsNumbered n (e ∷ es) = (e.cursor ≡ suc n) × IsNumbered (suc n) es

abbrev pub drop {ℓ} : {A : Type ℓ} → ℕ → List A → List A
drop zero xs = xs
drop (suc n) [] = []
drop (suc n) (x ∷ xs) = drop n xs

-- `record.audit_events[-1].cursor + 1 if record.audit_events else n + 1`
abbrev cursor_after : ℕ → Option AuditEvent → ℕ
cursor_after n none = n + 1
cursor_after n (some e) = e.cursor + 1

cursor_after_cons :
    (n m : ℕ) (e : AuditEvent) (es : List AuditEvent)
    → cursor_after n (get_last? (e ∷ es)) ≡ cursor_after m (get_last? (e ∷ es))
unfolding get_last?
cursor_after_cons n m e [] = refl
cursor_after_cons n m e (f ∷ es) = cursor_after_cons n m f es

cursor_after-length :
    (n : ℕ) (es : List AuditEvent)
    → IsNumbered n es
    → cursor_after n (get_last? es) ≡ suc (n + length es)
unfolding get_last?
cursor_after-length n [] h = omega arith
cursor_after-length n (e ∷ []) h = omega arith
cursor_after-length n (e ∷ f ∷ es) h =
    omega (arith, cursor_after_cons n (suc n) f es, cursor_after-length (suc n) (f ∷ es) h.1)

numbered_snoc :
    (n : ℕ) (es : List AuditEvent) (e : AuditEvent)
    → IsNumbered n es
    → e.cursor ≡ suc (n + length es)
    → IsNumbered n (es ++ e ∷ [])
numbered_snoc n [] e h c = (omega arith, tt)
numbered_snoc n (x ∷ es) e h c = (h.0, numbered_snoc (suc n) es e h.1 (omega arith))

pub with_event-IsNumbered :
    (r : InvestigationRecord) (e : AuditEvent)
    → IsNumbered 0 r.audit_events
    → IsNumbered 0 (with_event r e)
unfolding with_event next_cursor
with_event-IsNumbered r e h =
    numbered_snoc 0 r.audit_events _ h (ground (arith, cursor_after-length 0 r.audit_events h))

-- No event of a numbered list has a cursor at or below its start.
filter_all :
    (n after : ℕ) (es : List AuditEvent)
    → IsNumbered n es
    → after ≤ n
    → filter (λ (e : AuditEvent). ltb after e.cursor) es ≡ es
unfolding filter
filter_all n after [] h le = refl
filter_all n after (e ∷ es) h le = ground (arith, filter_all (suc n) after es)

filter-drop :
    (n k after : ℕ) (es : List AuditEvent)
    → IsNumbered n es
    → after ≡ n + k
    → filter (λ (e : AuditEvent). ltb after e.cursor) es ≡ drop k es
unfolding filter
filter-drop n zero after es h p = filter_all n after es h (omega arith)
filter-drop n (suc k) after [] h p = refl
filter-drop n (suc k) after (e ∷ es) h p = ground (arith, filter-drop (suc n) k after es)

-- On a record whose cursors count from one, `timeline(after=k)` is the audit log without its
-- first k events.
pub timeline-drop :
    (store : Store) (id : String) (r : InvestigationRecord) (k : ℕ)
    → get store id ≡ some r
    → IsNumbered 0 r.audit_events
    → timeline store id k ≡ ok (drop k r.audit_events)
unfolding timeline required_record
timeline-drop store id r k e h =
    rw (e, timeline, required_record) (ap ok (filter-drop 0 k k r.audit_events h (omega arith)))
